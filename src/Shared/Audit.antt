-- ===== src/Shared/Audit.antt =====
-- crates/shared/src/audit.rs: a row of the audit log, written inside the open transaction. The
-- states that the services pass always serialise.
use financial_data_platform.Prelude.{ℕ, ⊤, String, Option}
use financial_data_platform.Shared.Error.{SqlError}
use financial_data_platform.Store.Tables.{AuditState}
use financial_data_platform.Store.Session.{Env, M, execute}
use financial_data_platform.Store.Statements.{insert_audit}

-- `audit::record`
unfoldable pub record_audit :
    {E : Type 0}
    → (SqlError → E)
    → Env
    → (entity_type : String) → (entity_id : ℕ) → (action : String) → (old_state : Option AuditState)
    → (new_state : AuditState) → (actor_id actor_type : String) → (correlation_id : ℕ) → M E ⊤
record_audit from env entity_type entity_id action old_state new_state actor_id actor_type c =
    execute from env (
      insert_audit (record {
        entity_type = entity_type;
        entity_id = entity_id;
        action = action;
        old_state = old_state;
        new_state = new_state;
        actor_id = actor_id;
        actor_type = actor_type;
        correlation_id = c;
        occurred_at = env.now;
      }))
