-- ===== src/Workspaces/Summary/Laws.antt =====
-- What the summary of app/routers/workspaces.py says of the items and documents that it counts.
use tax_return_ai.Base.{
  ℕ, ◌+◌, ◌≡◌, ◌≢◌, ◌↔◌, refl, Bool, true, false, List, [], ◌∷◌, if◌then◌else◌, count, length,
  length-select, All, arith, Bool-cases, inl, inr,
}
use tax_return_ai.Models.Tax.{
  TaxItem, ReviewStatus, draft, confirmed, excluded, tax_agent_review, Document, DocumentItem,
}
use tax_return_ai.Review.Format.{Format}
use tax_return_ai.Workspaces.{is_open_status}
use tax_return_ai.Workspaces.Summary.{
  Counts, no_counts, effective_status, bump, count_statuses, is_unresolved, summary_of,
}

-- The counter of a status.
abbrev pub of_status : ReviewStatus → Counts → ℕ
of_status draft n = n.draft
of_status ReviewStatus.needs_review n = n.needs_review
of_status confirmed n = n.confirmed
of_status excluded n = n.excluded
of_status tax_agent_review n = n.tax_agent_review
of_status (ReviewStatus.other s) n = 0

abbrev pub same_status : ReviewStatus → ReviewStatus → Bool
same_status draft draft = true
same_status ReviewStatus.needs_review ReviewStatus.needs_review = true
same_status confirmed confirmed = true
same_status excluded excluded = true
same_status tax_agent_review tax_agent_review = true
same_status _ _ = false

abbrev pub open_count : Counts → ℕ
open_count n = n.draft + n.needs_review + n.tax_agent_review

abbrev pub closed_count : Counts → ℕ
closed_count n = n.confirmed + n.excluded

of_status-bump :
    (s t : ReviewStatus) (n : Counts)
    → of_status s (bump t n) ≡ of_status s n + (if same_status s t then 1 else 0)
of_status-bump s t n = ground arith

bump-open :
    (i : TaxItem) (n : Counts)
    → (open_count (bump (effective_status i) n)
        ≡ open_count n + (if is_open_status (effective_status i) then 1 else 0))
      × (closed_count (bump (effective_status i) n)
          ≡ closed_count n + (if is_open_status (effective_status i) then 0 else 1))
bump-open i n = ground arith

count_statuses-of :
    (s : ReviewStatus) (items : List TaxItem) (n : Counts)
    → of_status s (count_statuses items n)
      ≡ of_status s n + count (λ i. same_status s (effective_status i)) items
unfolding count_statuses
count_statuses-of s [] n = omega arith
count_statuses-of s (i ∷ items) n = ground (
  arith,
  of_status-bump s (effective_status i) n,
  count_statuses-of s items (bump (effective_status i) n),
)

count_statuses-open :
    (items : List TaxItem) (n : Counts)
    → let n' = count_statuses items n in
      (open_count n' ≡ open_count n + count (λ i. is_open_status (effective_status i)) items)
      × (open_count n' + closed_count n' ≡ open_count n + closed_count n + length items)
unfolding count_statuses
count_statuses-open [] n = (omega arith, omega arith)
count_statuses-open (i ∷ items) n =
    let (same, both) = count_statuses-open items (bump (effective_status i) n) in
    let (one, two) = bump-open i n in
    elim (Bool-cases (is_open_status (effective_status i))) [
      | inl e ↦
          rw e (omega (arith, same, rw e at one), omega (arith, both, rw e at one, rw e at two))
      | inr e ↦
          rw e (omega (arith, same, rw e at one), omega (arith, both, rw e at one, rw e at two))
    ]

-- What lets a pack be exported: there is an item, each is confirmed or excluded, and no document
-- waits for a manual review.
pub record IsReady (items : List TaxItem) (documents : List Document) (links : List DocumentItem)
    : Type 0 where
  pub some_item : length items ≢ 0
  pub all_closed : All (λ i. is_open_status (effective_status i) ≡ false) items
  pub all_resolved : All (λ d. is_unresolved links d ≡ false) documents

count-All : {A : Type 0} (q : A → Bool) (xs : List A) → (count q xs ≡ 0) ↔ All (λ x. q x ≡ false) xs
count-All q [] = (λ e. tt, λ a. refl)
count-All q (x ∷ xs) = ground (arith, count-All q xs)

zero_start : (s : ReviewStatus) {a b : ℕ} → a ≡ of_status s no_counts + b → a ≡ b
zero_start s e = ground (arith, e)

module _ (p : Format) where
  summary_of-reasons :
      (items : List TaxItem) (documents : List Document) (links : List DocumentItem)
      → ((summary_of p items documents links).ready_for_export ≡ true) ↔ (
          (length items ≢ 0)
          × (count (λ i. is_open_status (effective_status i)) items ≡ 0)
          × (count (is_unresolved links) documents ≡ 0))
  unfolding summary_of
  summary_of-reasons items documents links = ground (
    arith,
    (count_statuses-open items no_counts).0,
    length-select (is_unresolved links) documents,
  )

  -- The summary says that a session is ready for an export exactly when it has an item, no item
  -- counts as a draft, as to be reviewed or as for a tax agent, and none of its documents is in a
  -- status for manual review without a linked item.
  pub summary_of-IsReady :
      (items : List TaxItem) (documents : List Document) (links : List DocumentItem)
      → ((summary_of p items documents links).ready_for_export ≡ true)
        ↔ IsReady items documents links
  summary_of-IsReady items documents links =
      let (to, from) = summary_of-reasons items documents links in
      let closed = count-All (λ i. is_open_status (effective_status i)) items in
      let resolved = count-All (is_unresolved links) documents in
      (
        λ e.
            let (n, c, d) = to e in
            record { some_item = n; all_closed = closed.0 c; all_resolved = resolved.0 d },
        λ r. from (r.some_item, closed.1 r.all_closed, resolved.1 r.all_resolved),
      )

  -- Each of the five counts of a summary is the number of items with that status, where an item
  -- with another status counts by its flag; the counts add up to all items, and the documents
  -- that wait for a manual review are counted.
  summary_of-counts :
      (items : List TaxItem) (documents : List Document) (links : List DocumentItem)
      → let r = summary_of p items documents links in
        ((s : ReviewStatus)
          → of_status s r.counts ≡ count (λ i. same_status s (effective_status i)) items)
        × (open_count r.counts + closed_count r.counts ≡ r.total_items)
        × (r.total_items ≡ length items)
        × (r.manual_review_documents ≡ count (is_unresolved links) documents)
  unfolding summary_of
  summary_of-counts items documents links = (
    λ s. zero_start s (count_statuses-of s items no_counts),
    omega (arith, (count_statuses-open items no_counts).1),
    refl,
    length-select (is_unresolved links) documents,
  )
