-- ===== src/Workspaces/Status.antt =====
-- The security status of app/routers/workspaces.py. The percentages, which are rounded floats, and
-- the constant entries of the answer are left out.
use tax_return_ai.Base.{
  ℕ, ◌+◌, Bool, true, false, not, String, Option, List, [], ◌∷◌, ◌++◌, ltb, leb, ◌==◌, any, count,
  select, take, if◌then◌else◌, length, ◌>>=◌, gets,
}
use tax_return_ai.Models.Account.{User}
use tax_return_ai.Models.Audit.{AuditLog}
use tax_return_ai.Models.Tax.{FieldText, DocumentPage, TaxItem, ClassificationRow}
use tax_return_ai.Models.World.{World, Service, Metrics}
use tax_return_ai.Scope.Bridge.{open_workspace}
use tax_return_ai.Text.{codes, eq_text}
use tax_return_ai.Workspaces.{has_text}

pub record FieldStats : Type 0 where
  pub total_rows : ℕ
  pub plaintext_only_rows : ℕ
  pub encrypted_rows : ℕ
  pub mixed_rows : ℕ
  pub empty_rows : ℕ

abbrev pub no_rows : FieldStats
no_rows = record {
  total_rows = 0;
  plaintext_only_rows = 0;
  encrypted_rows = 0;
  mixed_rows = 0;
  empty_rows = 0;
}

-- One row of the loop of `_field_plaintext_stats`.
abbrev pub count_row : Bool → Bool → FieldStats → FieldStats
count_row true true s = record s { mixed_rows = s.mixed_rows + 1; total_rows = s.total_rows + 1 }
count_row true false s = record s {
  plaintext_only_rows = s.plaintext_only_rows + 1;
  total_rows = s.total_rows + 1;
}
count_row false true s = record s {
  encrypted_rows = s.encrypted_rows + 1;
  total_rows = s.total_rows + 1;
}
count_row false false s = record s { empty_rows = s.empty_rows + 1; total_rows = s.total_rows + 1 }

module _ {A : Type 0} (plain_field enc_field : A → Option FieldText) where
  unfoldable pub field_plaintext_stats : List A → FieldStats
  field_plaintext_stats [] = no_rows
  field_plaintext_stats (r ∷ rows) =
      count_row (has_text (plain_field r)) (has_text (enc_field r)) (field_plaintext_stats rows)

-- `classification_stats`: the rows of the inputs, and the counts of both fields
abbrev pub both_fields : FieldStats → FieldStats → FieldStats
both_fields a b = record {
  total_rows = a.total_rows;
  plaintext_only_rows = a.plaintext_only_rows + b.plaintext_only_rows;
  encrypted_rows = a.encrypted_rows + b.encrypted_rows;
  mixed_rows = a.mixed_rows + b.mixed_rows;
  empty_rows = 0;
}

abbrev pub table_if : Bool → String → List String
table_if b name = if b then name ∷ [] else []

abbrev pub has_action : List String → AuditLog → Bool
has_action actions a = any (λ x. eq_text (codes a.action) (codes x)) actions

abbrev pub security_event_actions : List String
security_event_actions =
    "workspace_locked" ∷ "workspace_unlocked" ∷ "auto_lock_triggered" ∷ "session_expired"
    ∷ "recovery_reset_completed" ∷ "invalid_session_token" ∷ "unlock_failed"
    ∷ "encryption_key_missing" ∷ "encrypted_write_blocked" ∷ []

-- `order_by(AuditLog.created_at.desc())`
abbrev pub insert_latest : AuditLog → List AuditLog → List AuditLog
insert_latest a [] = a ∷ []
insert_latest a (b ∷ bs) =
    let rest = insert_latest a bs in if leb b.created_at a.created_at then a ∷ b ∷ bs else b ∷ rest

abbrev pub latest_first : List AuditLog → List AuditLog
latest_first [] = []
latest_first (a ∷ rest) = insert_latest a (latest_first rest)

pub record SecurityStatus : Type 0 where
  pub recovery_key_configured : Bool
  pub last_unlock_at : Option ℕ
  pub document_pages : FieldStats
  pub tax_items : FieldStats
  pub classification_results : FieldStats
  pub can_disable_plaintext_fallback : Bool
  pub blocking_tables : List String
  pub locked_write_counter : ℕ
  pub failed_unlock_counter : ℕ
  pub capability_metrics : Metrics
  pub recent_security_events : List AuditLog

abbrev pub blocked_by : FieldStats → FieldStats → FieldStats → List String
blocked_by pages items results =
    table_if (ltb 0 pages.plaintext_only_rows) "document_pages"
    ++ table_if (ltb 0 items.plaintext_only_rows) "tax_items"
    ++ table_if (ltb 0 results.plaintext_only_rows) "classification_results"

-- The pages and the audit log are those of all sessions, as there.
unfoldable pub security_status_of : User → ℕ → World → SecurityStatus
unfolding field_plaintext_stats
security_status_of user session_id w =
    let pages = field_plaintext_stats (λ (p : DocumentPage). p.text) (λ p. p.text_enc) w.db.pages in
    let items =
      field_plaintext_stats (λ (i : TaxItem). i.description) (λ i. i.description_enc)
        (select (λ i. i.session_id == session_id) w.db.items) in
    let rows =
      select (λ (r : ClassificationRow). r.session_id == session_id) w.db.classifications in
    let results =
      both_fields
        (field_plaintext_stats (λ (r : ClassificationRow). r.raw_input) (λ r. r.raw_input_enc) rows)
        (field_plaintext_stats (λ (r : ClassificationRow). r.raw_output) (λ r. r.raw_output_enc)
          rows) in
    let blocking = blocked_by pages items results in
    record {
      recovery_key_configured = not (user.recovery_key_hash == 0);
      last_unlock_at = user.last_unlocked_at;
      document_pages = pages;
      tax_items = items;
      classification_results = results;
      can_disable_plaintext_fallback = length blocking == 0;
      blocking_tables = blocking;
      locked_write_counter = count (has_action ("encrypted_write_blocked" ∷ [])) w.db.audit;
      failed_unlock_counter = count (has_action ("unlock_failed" ∷ [])) w.db.audit;
      capability_metrics = w.metrics;
      recent_security_events =
          take 12 (latest_first (select (has_action security_event_actions) w.db.audit));
    }

module _ (financial_year_of : String → String) where
  unfoldable pub workspace_security_status : ℕ → User → ℕ → Service SecurityStatus
  unfolding security_status_of
  workspace_security_status now user workspace_id = do
    opened ← open_workspace financial_year_of now user workspace_id
    gets (security_status_of user (opened.1).id)
