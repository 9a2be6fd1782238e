-- ===== src/Documents/Paging.antt =====
-- What a page of app/routers/documents.py holds.
use tax_return_ai.Base.{
  Result, leb, length, length-take, zero, suc, ◌≤◌, any-All, All-where, All-take, All-drop, ℕ, true,
  ◌≡◌, inl, inr, refl, sym, ap, ◌∙◌, subst, String, some, List, [], ◌∷◌, ◌==◌, ok, err, select, any,
  drop, All, arith, by_key, keep_if, Bool-cases, Option-cases, keep_if-by_key, Result,
}
use tax_return_ai.Models.Account.{User}
use tax_return_ai.Models.Tax.{Document, TaxSession}
use tax_return_ai.Models.World.{World}
use tax_return_ai.Scope.{workspace_key, session_key, owned_by, require_owned_session}
use tax_return_ai.Scope.Laws.{IsKeyed, IsOwned, IsScoped, require_owned_session-IsOwned}
use tax_return_ai.Workspaces.Manual.{insert_newest, newest_first}
use tax_return_ai.Documents.Routes.{page_of_sessions, list_documents}
use tax_return_ai.Documents.Listing.{owns_session, owned_ids, rows_of, list_documents-owned}

-- A session that the table has, of a workspace of the user.
abbrev pub IsReachable : ℕ → World → ℕ → Type 0
IsReachable user_id w session_id =
    (t : TaxSession) × (by_key session_key session_id w.db.tax_sessions ≡ some t)
    × IsOwned user_id w t

owns_session-IsReachable :
    (user : User) (s : TaxSession) (w : World)
    → by_key session_key s.id w.db.tax_sessions ≡ some s
    → owns_session user w s ≡ true
    → IsReachable user.id w s.id
owns_session-IsReachable user s w row owns = elim (Option-cases s.workspace_id) [
  | inl n ↦ absurd (ground (arith, n, owns))
  | inr (i, e) ↦
      elim (Option-cases (keep_if (owned_by user.id) (by_key workspace_key i w.db.workspaces))) [
        | inl n ↦ absurd (ground (arith, e, n, owns))
        | inr (ws, f) ↦
            let (found, same, own) =
              keep_if-by_key workspace_key (owned_by user.id) i ws w.db.workspaces f in
            (
              s,
              row,
              record {
                workspace = ws;
                is_row = found;
                same_user = ground (arith, own);
                in_workspace = e ∙ ap some (sym same);
              },
            )
      ]
]

owned_ids-IsReachable :
    (user : User) (w : World) (sessions : List TaxSession)
    → All (λ s. by_key session_key s.id w.db.tax_sessions ≡ some s) sessions
    → All (IsReachable user.id w) (owned_ids user w sessions)
owned_ids-IsReachable user w [] rows = tt
owned_ids-IsReachable user w (s ∷ sessions) rows = elim (Bool-cases (owns_session user w s)) [
  | inl e ↦
      rw e
        (owns_session-IsReachable user s w rows.0 e, owned_ids-IsReachable user w sessions rows.1)
  | inr e ↦ rw e (owned_ids-IsReachable user w sessions rows.1)
]

module _ (P : Document → Type 0) where
  All-insert_newest :
      (d : Document) (ds : List Document) → P d → All P ds → All P (insert_newest d ds)
  All-insert_newest d [] p all = (p, tt)
  All-insert_newest d (e ∷ es) p all = elim (Bool-cases (leb e.created_at d.created_at)) [
    | inl t ↦ rw t (p, all)
    | inr f ↦ rw f (all.0, All-insert_newest d es p all.1)
  ]

  All-newest_first : (ds : List Document) → All P ds → All P (newest_first ds)
  All-newest_first [] all = tt
  All-newest_first (d ∷ ds) all =
      All-insert_newest d (newest_first ds) all.0 (All-newest_first ds all.1)

length-page :
    (financial_year_of : String → String) (offset limit : ℕ) (ids : List ℕ) (w : World)
    → length (page_of_sessions financial_year_of offset limit ids w) ≤ limit
unfolding page_of_sessions
length-page financial_year_of offset limit ids w = length-take limit _

module _ (financial_year_of : String → String) (P : ℕ → Type 0) where
  page_of_sessions-All :
      (offset limit : ℕ) (ids : List ℕ) (w : World)
      → All P ids
      → All (λ d. P d.session_id) (page_of_sessions financial_year_of offset limit ids w)
  unfolding page_of_sessions
  page_of_sessions-All offset limit ids w all =
      let Q = λ (d : Document). P d.session_id in
      let is_of = λ (d : Document). any (λ i. d.session_id == i) ids in
      let rows : All Q (select is_of w.db.documents) =
        All-where Q is_of (λ d e. any-All P d.session_id ids e all) w.db.documents in
      All-take Q limit (drop offset (newest_first (select is_of w.db.documents))) (
        All-drop Q offset (newest_first (select is_of w.db.documents))
          (All-newest_first Q (select is_of w.db.documents) rows))

-- What a list holds: documents of the user's sessions, no more than the limit.
abbrev pub IsPage : ℕ → ℕ → World → List Document → Type 0
IsPage user_id limit w documents =
    All (λ d. IsReachable user_id w d.session_id) documents × (length documents ≤ limit)

module _ (financial_year_of : String → String) where
  page_of_sessions-IsPage :
      (user_id offset limit : ℕ) (ids : List ℕ) (w : World)
      → All (IsReachable user_id w) ids
      → IsPage user_id limit w (page_of_sessions financial_year_of offset limit ids w)
  page_of_sessions-IsPage user_id offset limit ids w all = (
    page_of_sessions-All financial_year_of (IsReachable user_id w) offset limit ids w all,
    length-page financial_year_of offset limit ids w,
  )

  list_documents-session :
      (user : User) (n offset limit : ℕ) (r : Result TaxSession) (w w' : World)
      → require_owned_session financial_year_of user (suc n) w ≡ (r, w')
      → list_documents financial_year_of user (suc n) offset limit w ≡ (
        (elim r [
          | ok t ↦ ok (page_of_sessions financial_year_of offset limit (suc n ∷ []) w')
          | err e ↦ err e
        ]),
        w',
      )
  unfolding list_documents
  list_documents-session user n offset limit (ok t) w w' e = ground (arith, e)
  list_documents-session user n offset limit (err x) w w' e = ground (arith, e)

  -- The list for a session, in the world that the check of the session leaves.
  session-IsPage :
      (user : User) (n offset limit : ℕ) (r : Result TaxSession) (w w' : World)
      (documents : List Document)
      → IsKeyed w
      → require_owned_session financial_year_of user (suc n) w ≡ (r, w')
      → (list_documents financial_year_of user (suc n) offset limit w).0 ≡ ok documents
      → IsPage user.id limit w' documents
  session-IsPage user n offset limit (err x) w w' documents k e answer =
      absurd (ground (arith, list_documents-session user n offset limit (err x) w w' e, answer))
  session-IsPage user n offset limit (ok t) w w' documents k e answer =
      let (owned, row, _, _) =
        subst (λ p. IsScoped financial_year_of user (suc n) w.db.workspaces p.1 t)
          {x = require_owned_session financial_year_of user (suc n) w} {y = (ok t, w')} e
          (require_owned_session-IsOwned financial_year_of user t (suc n) w k (ap (λ p. p.0) e)) in
      subst (IsPage user.id limit w')
        {x = page_of_sessions financial_year_of offset limit (suc n ∷ []) w'}
        (ground (arith, list_documents-session user n offset limit (ok t) w w' e, answer))
        (page_of_sessions-IsPage user.id offset limit (suc n ∷ []) w' ((t, row, owned), tt))

  -- If the keys of the workspaces and the sessions are unique and the list of documents is
  -- answered, for a session or for none, each document in it is of a session of the table that
  -- belongs to a workspace of the user, in the world that the list leaves, and there are no more
  -- documents than the limit.
  pub list_documents-IsPage :
      (user : User) (session_id offset limit : ℕ) (w : World) (documents : List Document)
      → IsKeyed w
      → (list_documents financial_year_of user session_id offset limit w).0 ≡ ok documents
      → IsPage user.id limit
          (list_documents financial_year_of user session_id offset limit w).1
          documents
  list_documents-IsPage user zero offset limit w documents k answer =
      let e = list_documents-owned financial_year_of user offset limit w k in
      subst (λ p. IsPage user.id limit p.1 documents) {x = (ok documents, w)}
        {y = list_documents financial_year_of user zero offset limit w} (ground (arith, e, answer))
        (subst (IsPage user.id limit w)
          {x = page_of_sessions financial_year_of offset limit (owned_ids user w w.db.tax_sessions)
            w}
          (ground (arith, e, answer))
          (page_of_sessions-IsPage user.id offset limit (owned_ids user w w.db.tax_sessions) w
            (owned_ids-IsReachable user w w.db.tax_sessions (rows_of w k))))
  list_documents-IsPage user (suc n) offset limit w documents k answer =
      let p = require_owned_session financial_year_of user (suc n) w in
      subst (λ v. IsPage user.id limit v documents)
        (sym (ap (λ q. q.1) (list_documents-session user n offset limit p.0 w p.1 refl)))
        (session-IsPage user n offset limit p.0 w p.1 documents k refl answer)
