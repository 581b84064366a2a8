-- ===== src/Admission/Examples.antt =====
-- The theorems on admission with an owner, an organisation and an invited caller.
use enterprise_change_ops.Base.{
  ℕ, String, string_eq, pair_eq, true, false, ◌≡◌, ◌⊎◌, refl, List, [], ◌∷◌, some, ok, err,
}
use enterprise_change_ops.Base.Dict.{lookup, insert}
use enterprise_change_ops.Admission.Models.{requester, Identity, User, denied}
use enterprise_change_ops.Admission.Documents.{Documents, init}
use enterprise_change_ops.Admission.Service.{
  Texts, Reading, bootstrap_owner, create_organization, invite, redeem_invitation,
}
use enterprise_change_ops.Admission.Access.{workspace}
use enterprise_change_ops.Admission.Actions.{
  Action, bootstrapping, creating_organization, inviting, redeeming, run, run_all, MayAppoint,
}
use enterprise_change_ops.Admission.Governance.{
  IsGoverned, KeepsOwner, init-IsGoverned, run_all-IsGoverned, run-appoints,
}
use enterprise_change_ops.Admission.Redemption.{
  Redeems, redeem_invitation-Redeems, redeem_invitation-once,
}
use enterprise_change_ops.Admission.Membership.{Answers, workspace-Answers}

-- Texts that are their own digests and have no upper case.
abbrev plain : Texts
plain = record { hexdigest = λ s. s; lower = λ s. s }

abbrev at : String → ℕ → Reading
at id now = record { now = now; audited_at = now; event_id = id }

abbrev ada : Identity
ada = record { subject = "ada"; email = "ada@acme.test"; mfa = true }

abbrev bob : Identity
bob = record { subject = "bob"; email = "bob@acme.test"; mfa = false }

abbrev founding : List Action
founding =
    bootstrapping "ada" (at "access_1" 1)
    ∷ creating_organization ada "Acme" "org_1" (at "access_2" 2)
    ∷ inviting ada (record { email = "bob@acme.test"; organization_id = "org_1"; role = requester })
        "token-1" "invite_1" (at "access_3" 3)
    ∷ []

abbrev founded : Documents
founded = run_all plain founding init

-- The invited caller joins.
abbrev joining : Action
joining = redeeming bob "token-1" (at "access_4" 4)

run_all-IsGoverned_example :
    IsGoverned plain (run_all plain (joining ∷ []) founded)
    × KeepsOwner plain founded (run_all plain (joining ∷ []) founded)
run_all-IsGoverned_example =
    run_all-IsGoverned plain (joining ∷ []) founded
      (run_all-IsGoverned plain founding init (init-IsGoverned plain)).0

abbrev with_bob : Documents
with_bob = run plain joining founded

joins : redeem_invitation plain bob "token-1" (at "access_4" 4) founded ≡ (ok tt, with_bob)
unfolding bootstrap_owner create_organization invite redeem_invitation lookup insert init
joins = refl

redeem_invitation-Redeems_example :
    Redeems plain bob "token-1"
      (at "access_4" 4)
      founded
      (redeem_invitation plain bob "token-1" (at "access_4" 4) founded)
redeem_invitation-Redeems_example =
    redeem_invitation-Redeems plain bob "token-1" (at "access_4" 4) founded

redeem_invitation-once_example :
    redeem_invitation plain ada "token-1" (at "access_5" 5) with_bob ≡ (err denied, with_bob)
redeem_invitation-once_example =
    redeem_invitation-once plain bob ada "token-1" (at "access_4" 4) (at "access_5" 5) founded
      with_bob joins

workspace-Answers_example :
    Answers plain bob "org_1" with_bob (workspace plain bob "org_1" with_bob)
workspace-Answers_example = workspace-Answers plain bob "org_1" with_bob

abbrev owner_ada : User
owner_ada = record {
  subject = "ada";
  active = true;
  platform_admin = true;
  owner = true;
  organization_ids = [];
  version = 1;
}

ada_stored : lookup "ada" (run plain joining founded).users ≡ some owner_ada
unfolding bootstrap_owner create_organization invite redeem_invitation lookup insert init
ada_stored = refl

run-appoints_example :
    ((old : User) × (lookup "ada" founded.users ≡ some old) × (old.platform_admin ≡ true))
    ⊎ MayAppoint plain joining founded
run-appoints_example = run-appoints plain joining founded "ada" owner_ada ada_stored refl
