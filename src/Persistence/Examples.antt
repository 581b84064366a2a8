-- ===== src/Persistence/Examples.antt =====
-- The theorems on the in-memory repository at concrete calls.
use enterprise_change_ops.Base.{String, ◌≡◌, ◌≢◌, ◌⊎◌, List, [], ◌∷◌, none, ok}
use enterprise_change_ops.Contracts.Enums.{received, screening}
use enterprise_change_ops.Contracts.Models.{ChangeRecord}
use enterprise_change_ops.Contracts.Samples.{sample_change, sample_audit}
use enterprise_change_ops.Persistence.Memory.{
  Store, init, add, add_with_audit, commit_transition, get, append_audit, put_change, index_tenant,
}
use enterprise_change_ops.Persistence.Atomic.{
  IsAtomic, commit_transition-IsAtomic, add_with_audit-IsAtomic,
}
use enterprise_change_ops.Persistence.Consistency.{IsConsistent, init-IsConsistent}
use enterprise_change_ops.Persistence.Runs.{
  Call, adding_with_audit, committing, recording, paging, run_all, run_all-IsConsistent,
}
use enterprise_change_ops.Persistence.Isolation.{SameFor, Misses, run_all-SameFor, get-scoped}

abbrev one_change : Store
one_change = (add (sample_change received 1) init).1

commit_transition-IsAtomic_example :
    IsAtomic one_change
      (append_audit (sample_audit "audit-1") (put_change (sample_change screening 2) one_change))
      (commit_transition (sample_change screening 2) (sample_audit "audit-1") 1 one_change)
commit_transition-IsAtomic_example =
    commit_transition-IsAtomic (sample_change screening 2) (sample_audit "audit-1") 1 one_change

add_with_audit-IsAtomic_example :
    IsAtomic init
      (append_audit
        (sample_audit "audit-1")
        (index_tenant (sample_change received 1) (put_change (sample_change received 1) init)))
      (add_with_audit (sample_change received 1) (sample_audit "audit-1") init)
add_with_audit-IsAtomic_example =
    add_with_audit-IsAtomic (sample_change received 1) (sample_audit "audit-1") init

-- A change is accepted and moved, an event is recorded twice, and the audit stream is read.
abbrev calls : List Call
calls =
    adding_with_audit (sample_change received 1) (sample_audit "audit-1")
    ∷ committing (sample_change screening 2) (sample_audit "audit-2") 1
    ∷ recording (sample_audit "audit-2")
    ∷ paging "acme" "chg-1" none 50
    ∷ []

run_all-IsConsistent_example : IsConsistent (run_all calls init)
run_all-IsConsistent_example = run_all-IsConsistent calls init init-IsConsistent

acme_ne_globex : ◌≢◌ {A = String} "acme" "globex"
acme_ne_globex h = cc

run_all-SameFor_example : SameFor "globex" init (run_all calls init)
run_all-SameFor_example =
    run_all-SameFor "globex" calls init
      (acme_ne_globex, (acme_ne_globex, (acme_ne_globex, (acme_ne_globex, tt))))

get-scoped_example :
    ((get "globex" "chg-1" (run_all calls init)).1 ≡ run_all calls init)
    × (((r : ChangeRecord) × ((get "globex" "chg-1" (run_all calls init)).0 ≡ ok r)
          × (r.tenant_id ≡ "globex")
          × (r.change_id ≡ "chg-1"))
        ⊎ Misses "globex" "chg-1" (run_all calls init))
get-scoped_example = get-scoped "globex" "chg-1" (run_all calls init) run_all-IsConsistent_example
