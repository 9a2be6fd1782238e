-- ===== src/Tests/Items.antt =====
-- Reviews of the items of the workspace of Packs, and the stripping of tags.
use tax_return_ai.Base.{
  err, invalid_tag, ℕ, ◌≡◌, refl, Bool, String, Option, none, List, ok, err, update_where, ◌==◌,
  invalid_tag,
}
use tax_return_ai.Models.Tax.{ReviewStatus}
use tax_return_ai.Tests.{test_crypto, ann}
use tax_return_ai.Tests.Packs.{ready_world, blocked_world}
use tax_return_ai.Items.Routes.{review_item, bulk_review_items}
use tax_return_ai.Items.Reviews.{AllConsistent-kept}
use tax_return_ai.Workspaces.Items.{
  StatusUpdate, record_status, set_workspace_item_review_status, with_status,
}
use tax_return_ai.Items.Sanitize.{strip_html, strip_from}
use tax_return_ai.Items.Consistency.{AllConsistent}
use tax_return_ai.Security.KeyCache.{get_session_key}
use tax_return_ai.Security.FieldEncryption.{TextCodec}
use tax_return_ai.Workspaces.Manual.{ManualItem, create_workspace_manual_item}
use tax_return_ai.Auth.Guards.{session_key, locked}
use tax_return_ai.Workspaces.Blocked.{record_status-locked}
use tax_return_ai.Tests.Scope.{item_in, same}

-- A text codec that keeps nothing.
abbrev pub test_utf8 : TextCodec
test_utf8 = record { encode = λ s. 1; decode = λ n. "a text"; load_envelope = λ s. err invalid_tag }

ready_world-AllConsistent : AllConsistent ready_world
ready_world-AllConsistent = (refl, tt)

AllConsistent-kept_example :
    ((nonce token workspace_id item_id : ℕ) (payload : StatusUpdate)
      → AllConsistent
          (set_workspace_item_review_status same test_crypto test_utf8 100 nonce ann token
            workspace_id item_id payload ready_world).1)
    × ((nonce₁ nonce₂ token workspace_id document_id : ℕ) (payload : ManualItem)
        → AllConsistent
            (create_workspace_manual_item test_crypto test_utf8 same 100 nonce₁ nonce₂ ann token
              workspace_id document_id payload ready_world).1)
    × ((item_id : ℕ) (needs : Bool) (reason : Option String)
        → AllConsistent (review_item same 100 ann item_id needs reason ready_world).1)
    × ((bulk : ℕ) (needs : Bool) (reason : Option String) (item_ids : List ℕ)
        → AllConsistent (bulk_review_items same 100 bulk ann needs reason item_ids ready_world).1)
AllConsistent-kept_example =
    AllConsistent-kept test_crypto test_utf8 same 100 ann ready_world ready_world-AllConsistent

abbrev confirmation : StatusUpdate
confirmation = record { review_status = ReviewStatus.confirmed; note = none }

-- The token 1 has no key in the cache.
no_key : (session_key test_crypto 100 1 blocked_world).0 ≡ ok none
unfolding get_session_key
no_key = refl

record_status-locked_example :
    let (answer, v) =
      record_status test_crypto test_utf8 100 9 1 confirmation (item_in 51 41) blocked_world in
    (answer ≡ err locked)
    × (v.committed.items
        ≡ update_where
            (λ i. i.id == 51)
            (with_status ReviewStatus.confirmed)
            blocked_world.db.items)
    × (v.committed ≡ v.db)
record_status-locked_example =
    record_status-locked test_crypto test_utf8 100 9 1 confirmation (item_in 51 41) blocked_world
      no_key

stripped : strip_html "a <b>1 < 2" ≡ "a 1 < 2"
unfolding strip_html strip_from
stripped = refl
