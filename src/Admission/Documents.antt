-- ===== src/Admission/Documents.antt =====
-- `MemoryStore` of services/control-api/src/control_api/admission/store.py. A path is a collection
-- and a key in it: the identifiers in paths have no slash, so different collections do not meet.
use enterprise_change_ops.Base.{
  ℕ, String, List, [], Option, none, take, keep, Result, ok, err, Exec, text_ltb,
}
use enterprise_change_ops.Base.Dict.{Dict}
use enterprise_change_ops.Base.Sort.{sort}
use enterprise_change_ops.Admission.Models.{
  User, Organization, Membership, Invitation, AdmissionAudit, AdmissionError,
}

pub record Documents : Type 0 where
  pub users : Dict String User
  pub organizations : Dict String Organization
  -- by organisation and user key
  pub members : Dict (String × String) Membership
  pub invitations : Dict String Invitation
  pub audit : Dict String AdmissionAudit
  -- `owner_subject` of `admission_metadata/bootstrap`
  pub bootstrap : Option String

unfoldable pub init : Documents
init = record {
  users = [];
  organizations = [];
  members = [];
  invitations = [];
  audit = [];
  bootstrap = none;
}

abbrev pub Call : Type 0 → Type 0
Call A = Exec Documents AdmissionError A

abbrev commit :
    {A : Type 0}
    → Documents
    → Result AdmissionError A × Documents
    → Result AdmissionError A × Documents
commit s (ok a, s') = (ok a, s')
commit s (err e, s') = (err e, s)

-- The operation works on a copy of the documents, which is kept if it does not raise.
abbrev pub transact : {A : Type 0} → Call A → Call A
transact operation s = commit s (operation s)

-- The records behind a key, in the order of their keys.
unfoldable pub list : {V : Type 0} → Dict String V → String → ℕ → List (String × V)
list documents after limit =
    take limit (keep (λ p. text_ltb after p.0) (sort (λ p q. text_ltb p.0 q.0) documents))
