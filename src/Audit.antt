-- ===== src/Audit.antt =====
-- app/services/audit/writer.py: the append-only audit log.
use tax_return_ai.Base.{ℕ, String, Option, none, some, [], ◌∷◌, ◌++◌, ◌>>=◌, modify}
use tax_return_ai.Models.Audit.{Details}
use tax_return_ai.Models.World.{Service, uuid4}

-- `json.dumps(details) if details else None`: an empty dict counts as none.
abbrev pub dump_details : Details → Option Details
dump_details [] = none
dump_details (d ∷ ds) = some (d ∷ ds)

-- `write_audit` with its default `changed_by="system"`; the row takes its id and time on insertion.
unfoldable pub write_audit : ℕ → String → ℕ → String → Details → Service (Unit {0})
write_audit now entity_type entity_id action details = do
  id ← uuid4
  modify (λ w. record w {
    db = record (w.db) {
      audit =
          w.db.audit
          ++ (record {
            id = id;
            entity_type = entity_type;
            entity_id = entity_id;
            action = action;
            changed_by = "system";
            details = dump_details details;
            created_at = now;
          })
            ∷ [];
    };
  })
