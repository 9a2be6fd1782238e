-- ===== src/Workspaces/Blocked.antt =====
-- What app/routers/workspaces.py leaves behind when it refuses to change a status for want of a key.
use tax_return_ai.Base.{ℕ, ◌≡◌, none, err, ok, arith, ◌==◌, update_where}
use tax_return_ai.Models.Tax.{TaxItem}
use tax_return_ai.Models.World.{World}
use tax_return_ai.Audit.{write_audit}
use tax_return_ai.Auth.Crypto.{Crypto}
use tax_return_ai.Auth.Guards.{session_key, locked}
use tax_return_ai.Security.FieldEncryption.{TextCodec}
use tax_return_ai.Workspaces.{require_field_key_for_write, blocked_write}
use tax_return_ai.Workspaces.Items.{StatusUpdate, record_status, with_status}

-- If the token has no key in the cache, a change of the review status of an item that was found
-- is refused with status 423, but the new status and flag have been written and committed.
pub record_status-locked :
    (c : Crypto) (u : TextCodec) (now nonce token : ℕ) (payload : StatusUpdate) (item : TaxItem)
    (w : World)
    → (session_key c now token w).0 ≡ ok none
    → let (answer, v) = record_status c u now nonce token payload item w in
      (answer ≡ err locked)
      × (v.committed.items
          ≡ update_where (λ i. i.id == item.id) (with_status payload.review_status) w.db.items)
      × (v.committed ≡ v.db)
unfolding record_status require_field_key_for_write blocked_write write_audit
record_status-locked c u now nonce token payload item w e =
    (ground (arith, e), ground (arith, e), ground (arith, e))
