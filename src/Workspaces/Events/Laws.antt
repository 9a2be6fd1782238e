-- ===== src/Workspaces/Events/Laws.antt =====
-- What the audit events of a workspace show.
use tax_return_ai.Base.{
  ℕ, ◌≡◌, ◌≤◌, Bool, true, false, String, Option, none, some, List, [], ◌∷◌, All, map, select, take,
  drop, length, leb, ok, arith, inl, inr, Bool-cases, All-where, All-take, All-drop, length-take,
  subst, refl,
}
use tax_return_ai.Models.Account.{User}
use tax_return_ai.Models.Audit.{AuditLog, Details, Value, text}
use tax_return_ai.Models.Leads.{Result-cases}
use tax_return_ai.Models.World.{World}
use tax_return_ai.Scope.Bridge.{open_workspace}
use tax_return_ai.Text.{Text, codes, eq_text}
use tax_return_ai.Workspaces.Status.{insert_latest, latest_first}
use tax_return_ai.Workspaces.Events.{
  is_sensitive, redacted, safe_audit_details, is_of, is_workspace_event, safe_event,
  list_workspace_audit_events, document_ids, item_ids, export_ids,
}

-- No sensitive key has a value but the mark.
abbrev pub IsRedacted : Option Details → Type 0
IsRedacted none = Unit
IsRedacted (some details) =
    All (λ (d : String × Value). is_sensitive d.0 ≡ true → d.1 ≡ text "[redacted]") details

redacted-IsRedacted : (details : Details) → IsRedacted (some (redacted details))
redacted-IsRedacted [] = tt
redacted-IsRedacted ((key, value) ∷ details) = (λ e. ground (arith, e), redacted-IsRedacted details)

safe_audit_details-IsRedacted : (o : Option Details) → IsRedacted (safe_audit_details o)
unfolding safe_audit_details
safe_audit_details-IsRedacted none = tt
safe_audit_details-IsRedacted (some details) = redacted-IsRedacted details

-- Two kinds of entity.
eq_text_apart : (a s t : Text) → eq_text s t ≡ false → eq_text a s ≡ true → eq_text a t ≡ false
eq_text_apart [] [] t n e = n
eq_text_apart [] (c ∷ s) t n e = absurd (ground (arith, e))
eq_text_apart (c ∷ a) [] t n e = absurd (ground (arith, e))
eq_text_apart (c ∷ a) (d ∷ s) [] n e = refl
eq_text_apart (c ∷ a) (d ∷ s) (f ∷ t) n e = ground (arith, n, e, eq_text_apart a s t)

-- The entity under which a legacy read of the workspace is recorded.
abbrev pub is_legacy_entity : AuditLog → Bool
is_legacy_entity a = eq_text (codes a.entity_type) (codes "tax_workspace")

is_of_apart :
    (entity_type : String) (ids : List ℕ) (a : AuditLog)
    → eq_text (codes entity_type) (codes "tax_workspace") ≡ false
    → is_legacy_entity a ≡ true
    → is_of entity_type ids a ≡ false
is_of_apart entity_type ids a n l =
    elim (Bool-cases (eq_text (codes a.entity_type) (codes entity_type))) [
      | inr e ↦ ground (arith, e)
      | inl e ↦ absurd (
          ground (
            arith,
            l,
            eq_text_apart (codes a.entity_type) (codes entity_type) (codes "tax_workspace") n e,
          ))
    ]

is_workspace_event_apart :
    (workspace_id session_id : ℕ) (w : World) (a : AuditLog)
    → is_workspace_event workspace_id session_id w a ≡ true
    → is_legacy_entity a ≡ false
unfolding is_workspace_event
is_workspace_event_apart workspace_id session_id w a e = elim (Bool-cases (is_legacy_entity a)) [
  | inr f ↦ f
  | inl l ↦
      let absent =
        λ (t : String) (ids : List ℕ) (n : eq_text (codes t) (codes "tax_workspace") ≡ false).
          is_of_apart t ids a n l in
      absurd (
        ground (
          arith,
          e,
          absent "workspace" (workspace_id ∷ []) refl,
          absent "tax_session" (session_id ∷ []) refl,
          absent "document" (document_ids session_id w) refl,
          absent "tax_item" (item_ids session_id w) refl,
          absent "export_package" (export_ids workspace_id w) refl,
        ))
]

module _ (P : AuditLog → Type 0) where
  All-insert_latest :
      (a : AuditLog) (bs : List AuditLog) → P a → All P bs → All P (insert_latest a bs)
  All-insert_latest a [] h all = (h, tt)
  All-insert_latest a (b ∷ bs) h all = elim (Bool-cases (leb b.created_at a.created_at)) [
    | inl e ↦ rw e (h, all)
    | inr e ↦ rw e (all.0, All-insert_latest a bs h all.1)
  ]

  All-latest_first : (bs : List AuditLog) → All P bs → All P (latest_first bs)
  All-latest_first [] all = tt
  All-latest_first (b ∷ bs) all =
      All-insert_latest b (latest_first bs) all.0 (All-latest_first bs all.1)

-- An event as it is shown: redacted, and not of a legacy read.
abbrev pub IsShown : AuditLog → Type 0
IsShown a = IsRedacted a.details × (is_legacy_entity a ≡ false)

map-safe_event :
    (bs : List AuditLog)
    → All (λ a. is_legacy_entity a ≡ false) bs
    → All IsShown (map safe_event bs) × (length (map safe_event bs) ≡ length bs)
map-safe_event [] all = (tt, refl)
map-safe_event (b ∷ bs) all =
    let (rest, same) = map-safe_event bs all.1 in
    (((safe_audit_details-IsRedacted b.details, all.0), rest), omega (arith, same))

module _ (financial_year_of : String → String) where
  -- If the audit events of a workspace are answered, they are no more than the limit, a key of
  -- their details that names a text, OCR or a content has no value but the mark, and none of them
  -- is of the entity tax_workspace, under which the legacy reads of a workspace are recorded.
  pub list_workspace_audit_events-IsShown :
      (now : ℕ) (user : User) (workspace_id limit offset : ℕ) (events : List AuditLog) (w : World)
      → (list_workspace_audit_events financial_year_of now user workspace_id limit offset w).0
        ≡ ok events
      → All IsShown events × (length events ≤ limit)
  unfolding list_workspace_audit_events
  list_workspace_audit_events-IsShown now user workspace_id limit offset events w e =
      let m = open_workspace financial_year_of now user workspace_id in
      let w' = (m w).1 in
      elim (Result-cases (m w).0) [
        | inr (x, f) ↦ absurd (ground (arith, e, f))
        | inl (opened, f) ↦
            let is_event = is_workspace_event workspace_id (opened.1).id w' in
            let rows = latest_first (select is_event w'.db.audit) in
            let Q = λ (a : AuditLog). is_legacy_entity a ≡ false in
            let (shown, same) = map-safe_event (take limit (drop offset rows)) (
              All-take Q limit (drop offset rows) (
                All-drop Q offset rows (
                  All-latest_first Q (select is_event w'.db.audit) (
                    All-where Q is_event
                      (λ a g. is_workspace_event_apart workspace_id (opened.1).id w' a g)
                      w'.db.audit)))) in
            subst (λ es. All IsShown es × (length es ≤ limit))
              {x = map safe_event (take limit (drop offset rows))} (ground (arith, e, f))
              (shown, omega (arith, same, length-take limit (drop offset rows)))
      ]
