-- ===== src/Persistence/Errors.antt =====
-- packages/persistence/src/changeops_persistence/errors.py: each class is a constructor with the
-- attributes that it keeps.
use enterprise_change_ops.Base.{ℕ, String}

pub data PersistenceError : Type 0 where
  change_not_found : String → String → PersistenceError
  tenant_scope_violation : String → String → PersistenceError
  change_already_exists : String → String → PersistenceError
  audit_event_already_exists : String → String → PersistenceError
  audit_cursor_not_found : String → String → String → PersistenceError
  optimistic_concurrency : String → ℕ → ℕ → PersistenceError
