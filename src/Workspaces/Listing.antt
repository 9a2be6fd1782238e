-- ===== src/Workspaces/Listing.antt =====
-- The list of the documents of a workspace in app/routers/workspaces.py.
use tax_return_ai.Base.{
  ℕ, Bool, true, false, ◌&&◌, ◌||◌, String, Option, none, some, List, [], ◌∷◌, leb, ◌==◌, any, map,
  select, first, if◌then◌else◌, ◌>>=◌, ◌>>◌, pure, modify, gets,
}
use tax_return_ai.Config.{Settings}
use tax_return_ai.Models.Account.{User}
use tax_return_ai.Models.Tax.{Document, DocumentItem, DocumentStatus, ClassificationRow}
use tax_return_ai.Models.World.{Service, commit}
use tax_return_ai.Providers.Hosted.{occurs_in}
use tax_return_ai.Scope.Bridge.{open_workspace}
use tax_return_ai.Security.FieldEncryption.{is_empty}
use tax_return_ai.Text.{codes, lower, eq_text}
use tax_return_ai.Workspaces.Summary.{item_count}
use tax_return_ai.Workspaces.Manual.{newest_first, runtime_provider_mode, is_needs_review}

-- A status column with one of the values.
abbrev pub holds_text : Option String → String → Bool
holds_text none t = false
holds_text (some s) t = eq_text (codes s) (codes t)

-- `column or default`
abbrev pub text_or : Option String → String → String
text_or none t = t
text_or (some s) t = if is_empty s then t else s

abbrev pub friendly_classification_reason : Document → Option String
friendly_classification_reason d =
    if holds_text d.classification_status "not_configured"
    then some "Text extracted; AI classification needs setup/manual review."
    else if holds_text d.classification_status "failed"
    then some "Text extracted, but classification failed. Manual review required."
    else if holds_text d.extraction_status "no_text"
    then some "OCR returned no text."
    else d.status_reason

abbrev pub is_failed : DocumentStatus → Bool
is_failed DocumentStatus.classification_failed = true
is_failed DocumentStatus.extraction_failed = true
is_failed DocumentStatus.failed = true
is_failed _ = false

abbrev pub is_classified : DocumentStatus → Bool
is_classified DocumentStatus.classified = true
is_classified _ = false

abbrev pub passing_reasons : List String
passing_reasons = "temporary" ∷ "timeout" ∷ "network" ∷ "unavailable" ∷ "try again" ∷ []

unfoldable pub is_retryable : DocumentStatus → String → Bool
is_retryable status reason =
    is_failed status
    && (is_empty reason || any (λ t. occurs_in (codes t) (lower (codes reason))) passing_reasons)

-- `order_by(ClassificationResultModel.created_at.desc())`
abbrev pub insert_result : ClassificationRow → List ClassificationRow → List ClassificationRow
insert_result r [] = r ∷ []
insert_result r (s ∷ rows) =
    let rest = insert_result r rows in
    if leb s.created_at r.created_at then r ∷ s ∷ rows else s ∷ rest

abbrev pub latest_results : List ClassificationRow → List ClassificationRow
latest_results [] = []
latest_results (r ∷ rows) = insert_result r (latest_results rows)

unfoldable pub mode_of_provider : String → String
mode_of_provider name =
    let provider_lower = lower (codes name) in
    if occurs_in (codes "mock") provider_lower
    then "mock"
    else if occurs_in (codes "manual") provider_lower
    then "manual"
    else if occurs_in (codes "local") provider_lower
    then "local"
    else "cloud"

-- `provider_mode_by_doc.get(doc.id)`: the first row of the document, the latest, gives the mode.
abbrev pub mode_by_doc : List ClassificationRow → Document → Option String
mode_by_doc rows d = elim (first (select (λ r. r.document_id == d.id) (latest_results rows))) [
  | none ↦ none
  | some r ↦ some (mode_of_provider r.provider_name)
]

abbrev pub mode_or : Settings → DocumentStatus → Option String → String
mode_or s status (some mode) = mode
mode_or s status none = if is_needs_review status then "manual" else runtime_provider_mode s

-- The entries of the answer that are not columns as they stand.
pub record ListedDocument : Type 0 where
  pub document : Document
  pub status_reason : Option String
  pub item_count : ℕ
  pub provider_mode : String
  pub retryable : Bool
  pub extraction_status : String
  pub extraction_text_length : ℕ
  pub classification_status : String
  pub classification_provider : Option String

abbrev pub length_or_zero : Option ℕ → ℕ
length_or_zero none = 0
length_or_zero (some n) = n

abbrev pub provider_or : Option String → Option String → Option String
provider_or none mode = mode
provider_or (some p) mode = if is_empty p then mode else some p

unfoldable pub listed_document :
    Settings → List DocumentItem → List ClassificationRow → Document → ListedDocument
unfolding is_retryable mode_of_provider runtime_provider_mode
listed_document s links rows d = record {
  document = d;
  status_reason = friendly_classification_reason d;
  item_count = item_count links d;
  provider_mode = mode_or s d.status (mode_by_doc rows d);
  retryable = is_retryable d.status (text_or d.status_reason "");
  extraction_status =
      text_or d.extraction_status
        (if is_needs_review d.status && item_count links d == 0 then "no_text" else "pending");
  extraction_text_length = length_or_zero d.extraction_text_length;
  classification_status =
      text_or d.classification_status (if is_classified d.status then "classified" else "pending");
  classification_provider = provider_or d.classification_provider (mode_by_doc rows d);
}

module _ (financial_year_of : String → String) where
  unfoldable pub list_workspace_documents : Settings → ℕ → User → ℕ → Service (List ListedDocument)
  unfolding listed_document
  list_workspace_documents s now user workspace_id = do
    opened ← open_workspace financial_year_of now user workspace_id
    documents ←
        gets (λ w. newest_first (select (λ d. d.session_id == (opened.1).id) w.db.documents))
    listed ← gets (λ w. map (listed_document s w.db.links w.db.classifications) documents)
    modify commit
    pure listed
