-- ===== src/Workspaces/Pages/Order.antt =====
-- The order of the pages of a document keeps what holds of them.
use tax_return_ai.Base.{◌≢◌, inl, inr, List, [], ◌∷◌, All, leb, DistinctBy, Bool-cases, sym}
use tax_return_ai.Models.Tax.{DocumentPage}
use tax_return_ai.Documents.Routes.{insert_page, by_page}
use tax_return_ai.Workspaces.Pages.{page_key}

module _ (P : DocumentPage → Type 0) where
  All-insert_page :
      (p : DocumentPage) (ps : List DocumentPage) → P p → All P ps → All P (insert_page p ps)
  All-insert_page p [] h all = (h, tt)
  All-insert_page p (q ∷ qs) h all = elim (Bool-cases (leb p.page_number q.page_number)) [
    | inl e ↦ rw e (h, all)
    | inr e ↦ rw e (all.0, All-insert_page p qs h all.1)
  ]

  pub All-by_page : (ps : List DocumentPage) → All P ps → All P (by_page ps)
  All-by_page [] all = tt
  All-by_page (p ∷ ps) all = All-insert_page p (by_page ps) all.0 (All-by_page ps all.1)

DistinctBy-insert_page :
    (p : DocumentPage) (ps : List DocumentPage)
    → All (λ q. page_key q ≢ page_key p) ps
    → DistinctBy page_key ps
    → DistinctBy page_key (insert_page p ps)
DistinctBy-insert_page p [] other distinct = (tt, tt)
DistinctBy-insert_page p (q ∷ qs) other distinct =
    elim (Bool-cases (leb p.page_number q.page_number)) [
      | inl e ↦ rw e (other, distinct)
      | inr e ↦ rw e (
        All-insert_page (λ x. page_key x ≢ page_key q) p qs (λ h. other.0 (sym h)) distinct.0,
        DistinctBy-insert_page p qs other.1 distinct.1,
      )
    ]

pub DistinctBy-by_page :
    (ps : List DocumentPage) → DistinctBy page_key ps → DistinctBy page_key (by_page ps)
DistinctBy-by_page [] distinct = tt
DistinctBy-by_page (p ∷ ps) distinct =
    DistinctBy-insert_page p (by_page ps) (All-by_page (λ q. page_key q ≢ page_key p) ps distinct.0)
      (DistinctBy-by_page ps distinct.1)
