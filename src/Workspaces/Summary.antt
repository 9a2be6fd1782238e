-- ===== src/Workspaces/Summary.antt =====
-- `workspace_review_summary` of app/routers/workspaces.py, and the list of the documents that it
-- counts.
pub mod Laws
use tax_return_ai.Base.{
  ℕ, suc, Bool, true, false, ◌&&◌, not, String, ◌<>◌, Option, none, some, List, [], ◌∷◌, ◌++◌, ltb,
  ◌==◌, if◌then◌else◌, select, count, length, map, ◌>>=◌, ◌>>◌, pure, modify, gets,
}
use tax_return_ai.Models.Account.{User}
use tax_return_ai.Models.Tax.{
  TaxItem, ReviewStatus, draft, needs_review, confirmed, excluded, tax_agent_review, Document,
  DocumentItem, DocumentStatus,
}
use tax_return_ai.Models.World.{World, Service, commit}
use tax_return_ai.Review.Format.{Format}
use tax_return_ai.Scope.Bridge.{open_workspace}
use tax_return_ai.Workspaces.{is_valid_status, needs_manual_review}

-- The dict `counts`, one field for each key.
pub record Counts : Type 0 where
  pub draft : ℕ
  pub needs_review : ℕ
  pub confirmed : ℕ
  pub excluded : ℕ
  pub tax_agent_review : ℕ

abbrev pub no_counts : Counts
no_counts = record {
  draft = 0;
  needs_review = 0;
  confirmed = 0;
  excluded = 0;
  tax_agent_review = 0;
}

-- A status outside the five counts by the flag.
abbrev pub effective_status : TaxItem → ReviewStatus
effective_status i =
    if is_valid_status i.review_status
    then i.review_status
    else if i.needs_review
    then ReviewStatus.needs_review
    else ReviewStatus.confirmed

-- `counts[status] += 1`
abbrev pub bump : ReviewStatus → Counts → Counts
bump ReviewStatus.draft n = record n { draft = suc n.draft }
bump ReviewStatus.needs_review n = record n { needs_review = suc n.needs_review }
bump ReviewStatus.confirmed n = record n { confirmed = suc n.confirmed }
bump ReviewStatus.excluded n = record n { excluded = suc n.excluded }
bump ReviewStatus.tax_agent_review n = record n { tax_agent_review = suc n.tax_agent_review }
bump (ReviewStatus.other s) n = n

-- The loop over the items.
unfoldable pub count_statuses : List TaxItem → Counts → Counts
count_statuses [] n = n
count_statuses (i ∷ items) n = count_statuses items (bump (effective_status i) n)

-- `select(func.count(DocumentItem.id)).where(DocumentItem.document_id == doc.id)`
abbrev pub item_count : List DocumentItem → Document → ℕ
item_count links d = count (λ (l : DocumentItem). l.document_id == d.id) links

abbrev pub is_unresolved : List DocumentItem → Document → Bool
is_unresolved links d = needs_manual_review d.status && item_count links d == 0

pub record Summary : Type 0 where
  pub total_items : ℕ
  pub counts : Counts
  pub manual_review_documents : ℕ
  pub ready_for_export : Bool
  pub blocking_reasons : List String

-- `if n > 0: blocking_reasons.append(f"{n}…")`
abbrev pub reason_if : Bool → String → List String
reason_if b reason = if b then reason ∷ [] else []

module _ (p : Format) where
  abbrev pub reasons_of : ℕ → Counts → ℕ → List String
  reasons_of total n documents =
      reason_if (total == 0) "No review items available yet."
      ++ reason_if (ltb 0 n.draft) (p.decimal n.draft <> " item(s) are still in draft.")
      ++ reason_if (ltb 0 n.needs_review)
          (p.decimal n.needs_review <> " item(s) still need review.")
      ++ reason_if (ltb 0 n.tax_agent_review)
          (p.decimal n.tax_agent_review <> " item(s) require tax agent review.")
      ++ reason_if (ltb 0 documents)
          (p.decimal documents <> " document(s) need manual review before export.")

  unfoldable pub summary_of : List TaxItem → List Document → List DocumentItem → Summary
  summary_of items documents links =
      let counts = count_statuses items no_counts in
      let unresolved = length (select (is_unresolved links) documents) in
      let reasons = reasons_of (length items) counts unresolved in
      record {
        total_items = length items;
        counts = counts;
        manual_review_documents = unresolved;
        ready_for_export = length reasons == 0;
        blocking_reasons = reasons;
      }

abbrev pub session_items : ℕ → World → List TaxItem
session_items session_id w = select (λ i. i.session_id == session_id) w.db.items

abbrev pub session_documents : ℕ → World → List Document
session_documents session_id w = select (λ d. d.session_id == session_id) w.db.documents

module _ (financial_year_of : String → String) (p : Format) where
  unfoldable pub workspace_review_summary : ℕ → User → ℕ → Service Summary
  workspace_review_summary now user workspace_id = do
    opened ← open_workspace financial_year_of now user workspace_id
    let session = opened.1
    items ← gets (session_items session.id)
    documents ← gets (session_documents session.id)
    links ← gets (λ w. w.db.links)
    pure (summary_of p items documents links)
