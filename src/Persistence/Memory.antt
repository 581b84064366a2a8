-- ===== src/Persistence/Memory.antt =====
-- packages/persistence/src/changeops_persistence/memory.py. Every method holds the lock from its
-- first read to its last write, so a method is one step of the state, and threads are sequences
-- of steps.
use enterprise_change_ops.Base.{
  ℕ, ◌+◌, String, nat_eq, string_eq, pair_eq, Bool, true, false, ◌||◌, ◌==◌, ◌/=◌, if◌then◌else◌,
  Option, none, some, List, [], ◌∷◌, ◌++◌, contains, take, Result, ok, err, Exec, pure, gets,
  or_raise, raise_if, modify, ◌>>=◌, ◌>>◌,
}
use enterprise_change_ops.Base.Dict.{Dict, lookup, insert}
use enterprise_change_ops.Base.Sort.{sort, sort_descending, stamp_ltb}
use enterprise_change_ops.Contracts.Models.{ChangeRecord, AuditEvent}
use enterprise_change_ops.Persistence.Errors.{
  PersistenceError, change_not_found, tenant_scope_violation, change_already_exists,
  audit_event_already_exists, audit_cursor_not_found, optimistic_concurrency,
}

pub record Store : Type 0 where
  pub changes : Dict (String × String) ChangeRecord
  pub tenants_by_change_id : Dict String (List String)
  pub audit : Dict (String × String) AuditEvent
  pub audit_ids_by_change : Dict (String × String) (List String)

unfoldable pub init : Store
init = record { changes = []; tenants_by_change_id = []; audit = []; audit_ids_by_change = [] }

-- A key of a `defaultdict` that was never written holds the empty collection.
abbrev pub or_empty : {A : Type 0} → Option (List A) → List A
or_empty none = []
or_empty (some xs) = xs

-- `set.add`
abbrev pub add_tenant : String → List String → List String
add_tenant t ts = if contains ts t then ts else t ∷ ts

abbrev pub change_key : ChangeRecord → String × String
change_key change = (change.tenant_id, change.change_id)

abbrev pub audit_key : AuditEvent → String × String
audit_key event = (event.tenant_id, event.audit_event_id)

-- What `get` raises for a key that holds no change, by who else has a change of that identifier.
abbrev pub missing : List String → String → String → PersistenceError
missing [] tenant_id change_id = change_not_found tenant_id change_id
missing (_ ∷ _) tenant_id change_id = tenant_scope_violation tenant_id change_id

unfoldable pub get_unlocked : String → String → Exec Store PersistenceError ChangeRecord
get_unlocked tenant_id change_id s =
    or_raise (lookup (tenant_id, change_id) s.changes)
      (missing (or_empty (lookup change_id s.tenants_by_change_id)) tenant_id change_id) s

unfoldable pub validate_audit_scope :
    ChangeRecord → AuditEvent → Exec Store PersistenceError (Unit {0})
validate_audit_scope change event =
    raise_if (event.tenant_id /= change.tenant_id || event.change_id /= change.change_id)
      (tenant_scope_violation event.tenant_id event.change_id)

abbrev pub is_some : {A : Type 0} → Option A → Bool
is_some none = false
is_some (some _) = true

unfoldable pub ensure_new_audit_id : AuditEvent → Exec Store PersistenceError (Unit {0})
ensure_new_audit_id event s =
    raise_if (is_some (lookup (audit_key event) s.audit))
      (audit_event_already_exists event.tenant_id event.audit_event_id) s

abbrev pub append_audit : AuditEvent → Store → Store
append_audit event s = record s {
  audit = insert (audit_key event) event s.audit;
  audit_ids_by_change =
      insert (event.tenant_id, event.change_id)
        (or_empty (lookup (event.tenant_id, event.change_id) s.audit_ids_by_change)
          ++ event.audit_event_id ∷ [])
        s.audit_ids_by_change;
}

unfoldable pub append_audit_unlocked : AuditEvent → Exec Store PersistenceError (Unit {0})
append_audit_unlocked event = modify (append_audit event)

abbrev pub put_change : ChangeRecord → Store → Store
put_change change s = record s { changes = insert (change_key change) change s.changes }

abbrev pub index_tenant : ChangeRecord → Store → Store
index_tenant change s = record s {
  tenants_by_change_id =
      insert change.change_id
        (add_tenant change.tenant_id (or_empty (lookup change.change_id s.tenants_by_change_id)))
        s.tenants_by_change_id;
}

unfoldable pub ensure_new_change : ChangeRecord → Exec Store PersistenceError (Unit {0})
ensure_new_change change s =
    raise_if (is_some (lookup (change_key change) s.changes))
      (change_already_exists change.tenant_id change.change_id) s

unfoldable pub add : ChangeRecord → Exec Store PersistenceError (Unit {0})
unfolding ensure_new_change
add change = do ensure_new_change change; modify (put_change change); modify (index_tenant change)

unfoldable pub add_with_audit : ChangeRecord → AuditEvent → Exec Store PersistenceError (Unit {0})
unfolding ensure_new_change validate_audit_scope ensure_new_audit_id append_audit_unlocked
add_with_audit change event = do
  ensure_new_change change
  validate_audit_scope change event
  ensure_new_audit_id event
  modify (put_change change)
  modify (index_tenant change)
  append_audit_unlocked event

unfoldable pub get : String → String → Exec Store PersistenceError ChangeRecord
unfolding get_unlocked
get tenant_id change_id = get_unlocked tenant_id change_id

unfoldable pub commit_transition :
    ChangeRecord → AuditEvent → ℕ → Exec Store PersistenceError (Unit {0})
unfolding get_unlocked validate_audit_scope ensure_new_audit_id append_audit_unlocked
commit_transition change event expected_version = do
  current ← get_unlocked change.tenant_id change.change_id
  validate_audit_scope change event
  ensure_new_audit_id event
  raise_if (current.version /= expected_version)
      (optimistic_concurrency change.change_id expected_version current.version)
  raise_if (change.version /= expected_version + 1)
      (optimistic_concurrency change.change_id (expected_version + 1) change.version)
  modify (put_change change)
  append_audit_unlocked event

unfoldable pub record_audit : AuditEvent → Exec Store PersistenceError (Unit {0})
unfolding get_unlocked ensure_new_audit_id append_audit_unlocked
record_audit event = do
  get_unlocked event.tenant_id event.change_id
  ensure_new_audit_id event
  append_audit_unlocked event

-- `[value for (owner, _), value in d.items() if owner == tenant_id]`
abbrev pub owned : {V : Type 0} → String → Dict (String × String) V → List V
owned tenant_id [] = []
owned tenant_id (((owner, _), v) ∷ d) =
    let rest = owned tenant_id d in if owner == tenant_id then v ∷ rest else rest

abbrev pub change_ltb : ChangeRecord → ChangeRecord → Bool
change_ltb a b = stamp_ltb (a.updated_at, a.change_id) (b.updated_at, b.change_id)

abbrev pub event_ltb : AuditEvent → AuditEvent → Bool
event_ltb a b = stamp_ltb (a.created_at, a.audit_event_id) (b.created_at, b.audit_event_id)

unfoldable pub list_changes : String → ℕ → Exec Store PersistenceError (List ChangeRecord)
list_changes tenant_id limit =
    gets λ s. take limit (sort_descending change_ltb (owned tenant_id s.changes))

unfoldable pub list_tenant_audit : String → ℕ → Exec Store PersistenceError (List AuditEvent)
list_tenant_audit tenant_id limit =
    gets λ s. take limit (sort_descending event_ltb (owned tenant_id s.audit))

-- `[audit[(tenant_id, event_id)] for event_id in event_ids]`; a missing one, which is a KeyError in
-- the code, is left out. The invariant says that none is missing.
abbrev pub events_of : Dict (String × String) AuditEvent → String → List String → List AuditEvent
events_of audit tenant_id [] = []
events_of audit tenant_id (i ∷ is) =
    let rest = events_of audit tenant_id is in
    elim (lookup (tenant_id, i) audit) [ none ↦ rest | some event ↦ event ∷ rest ]

-- The events behind the first one with the identifier; `none` if there is no such event.
abbrev pub behind : String → List AuditEvent → Option (List AuditEvent)
behind after [] = none
behind after (event ∷ events) =
    if event.audit_event_id == after then some events else behind after events

abbrev pub from_cursor :
    String → String → Option String → List AuditEvent → Result PersistenceError (List AuditEvent)
from_cursor tenant_id change_id none events = ok events
from_cursor tenant_id change_id (some after) events = elim (behind after events) [
  | none ↦ err (audit_cursor_not_found tenant_id change_id after)
  | some rest ↦ ok rest
]

-- Reading a `defaultdict` writes the empty list under a missing key.
abbrev pub touch : String × String → Store → Store
touch key s = record s {
  audit_ids_by_change =
      insert key (or_empty (lookup key s.audit_ids_by_change)) s.audit_ids_by_change;
}

-- The change's audit events in the order of their times.
abbrev pub ordered_events : String → String → Store → List AuditEvent
ordered_events tenant_id change_id s =
    sort event_ltb
      (events_of s.audit tenant_id (or_empty (lookup (tenant_id, change_id) s.audit_ids_by_change)))

abbrev lift : {A : Type 0} → Result PersistenceError A → Exec Store PersistenceError A
lift r s = (r, s)

unfoldable pub list_audit_after :
    String → String → Option String → ℕ → Exec Store PersistenceError (List AuditEvent)
unfolding get_unlocked
list_audit_after tenant_id change_id after_event_id limit = do
  get_unlocked tenant_id change_id
  events ← gets (ordered_events tenant_id change_id)
  modify (touch (tenant_id, change_id))
  rest ← lift (from_cursor tenant_id change_id after_event_id events)
  pure (take limit rest)

unfoldable pub list_audit : String → String → Exec Store PersistenceError (List AuditEvent)
list_audit tenant_id change_id = list_audit_after tenant_id change_id none 10_000
