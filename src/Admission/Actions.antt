-- ===== src/Admission/Actions.antt =====
-- Who governs admission: the calls of `AdmissionService`
-- (services/control-api/src/control_api/admission/service.py) and what each may do to the users.
use enterprise_change_ops.Base.{
  ℕ, String, string_eq, pair_eq, nat_eq, true, false, ◌≡◌, ◌⊎◌, inl, inr, refl, Option, none, some,
  Option-cases, List, [], ◌∷◌, arith,
}
use enterprise_change_ops.Base.Dict.{lookup, insert}
use enterprise_change_ops.Admission.Models.{
  Identity, User, Invitation, InvitationCreate, StatusUpdate, MembershipUpdate,
}
use enterprise_change_ops.Admission.Documents.{Documents}
use enterprise_change_ops.Admission.Service.{
  Texts, Reading, read_user, user_key, bootstrap_owner, create_organization, invite,
  redeem_invitation, joined, first_owner,
}
use enterprise_change_ops.Admission.Administration.{
  set_status, with_status, revoke_invitation, update_membership, set_administrator, appointed,
  record_rejection,
}

-- The operations that write.
pub data Action : Type 0 where
  bootstrapping : String → Reading → Action
  creating_organization : Identity → String → String → Reading → Action
  inviting : Identity → InvitationCreate → String → String → Reading → Action
  redeeming : Identity → String → Reading → Action
  setting_status : Identity → String → String → StatusUpdate → Reading → Action
  revoking : Identity → String → ℕ → Reading → Action
  updating_membership : Identity → String → String → MembershipUpdate → Reading → Action
  setting_administrator : Identity → String → StatusUpdate → Reading → Action
  rejecting : String → String → Reading → Action

abbrev pub run : Texts → Action → Documents → Documents
run texts (bootstrapping subject at) s = (bootstrap_owner texts subject at s).1
run texts (creating_organization identity name id at) s =
    (create_organization texts identity name id at s).1
run texts (inviting identity q token id at) s = (invite texts identity q token id at s).1
run texts (redeeming identity token at) s = (redeem_invitation texts identity token at s).1
run texts (setting_status identity kind id q at) s = (set_status texts identity kind id q at s).1
run texts (revoking identity id v at) s = (revoke_invitation texts identity id v at s).1
run texts (updating_membership identity o id q at) s =
    (update_membership texts identity o id q at s).1
run texts (setting_administrator identity id q at) s =
    (set_administrator texts identity id q at s).1
run texts (rejecting actor reason at) s = (record_rejection texts actor reason at s).1

abbrev pub run_all : Texts → List Action → Documents → Documents
run_all texts [] s = s
run_all texts (a ∷ rest) s = run_all texts rest (run texts a s)

-- The call has left the users and the owner as they were.
abbrev pub Leaves : Documents → Documents → Type 0
Leaves s s' = (s'.users ≡ s.users) × (s'.bootstrap ≡ s.bootstrap)

-- It has written one user.
abbrev pub Writes : String → User → Documents → Documents → Type 0
Writes k u s s' = (s'.users ≡ insert k u s.users) × (s'.bootstrap ≡ s.bootstrap)

module _ (texts : Texts) where
  create_organization-Leaves :
      (identity : Identity) (name id : String) (at : Reading) (s : Documents)
      → Leaves s (create_organization texts identity name id at s).1
  unfolding create_organization
  create_organization-Leaves identity name id at s = ground arith

  invite-Leaves :
      (identity : Identity) (q : InvitationCreate) (token id : String) (at : Reading)
      (s : Documents)
      → Leaves s (invite texts identity q token id at s).1
  unfolding invite
  invite-Leaves identity q token id at s = ground arith

  revoke_invitation-Leaves :
      (identity : Identity) (id : String) (v : ℕ) (at : Reading) (s : Documents)
      → Leaves s (revoke_invitation texts identity id v at s).1
  unfolding revoke_invitation
  revoke_invitation-Leaves identity id v at s = ground arith

  update_membership-Leaves :
      (identity : Identity) (o id : String) (q : MembershipUpdate) (at : Reading) (s : Documents)
      → Leaves s (update_membership texts identity o id q at s).1
  unfolding update_membership
  update_membership-Leaves identity o id q at s = ground arith

  set_status-Writes :
      (identity : Identity) (kind id : String) (q : StatusUpdate) (at : Reading) (s : Documents)
      (target : User)
      → lookup id s.users ≡ some target
      → Leaves s (set_status texts identity kind id q at s).1
        ⊎ ((target.owner ≡ false)
            × Writes id (with_status target q) s (set_status texts identity kind id q at s).1)
  unfolding set_status
  set_status-Writes identity kind id q at s target found = ground arith

  set_administrator-Writes :
      (identity : Identity) (id : String) (q : StatusUpdate) (at : Reading) (s : Documents)
      (target actor : User)
      → lookup id s.users ≡ some target
      → read_user texts identity.subject s ≡ some actor
      → Leaves s (set_administrator texts identity id q at s).1
        ⊎ ((target.owner ≡ false)
            × (target.active ≡ true)
            × (actor.owner ≡ true)
            × (actor.active ≡ true)
            × (identity.mfa ≡ true)
            × Writes id (appointed target q) s (set_administrator texts identity id q at s).1)
  unfolding set_administrator
  set_administrator-Writes identity id q at s target actor found acts = ground arith

  redeem_invitation-Writes :
      (identity : Identity) (token : String) (at : Reading) (s : Documents) (i : Invitation)
      → lookup (texts.hexdigest token) s.invitations ≡ some i
      → Leaves s (redeem_invitation texts identity token at s).1
        ⊎ Writes
            (user_key texts identity.subject)
            (joined texts identity i s)
            s
            (redeem_invitation texts identity token at s).1
  unfolding redeem_invitation
  redeem_invitation-Writes identity token at s i found = ground arith

  bootstrap_owner-writes :
      (subject : String) (at : Reading) (s : Documents)
      → Leaves s (bootstrap_owner texts subject at s).1
        ⊎ ((s.bootstrap ≡ none)
            × (read_user texts subject s ≡ none)
            × ((bootstrap_owner texts subject at s).1.users
                ≡ insert (user_key texts subject) (first_owner subject) s.users)
            × ((bootstrap_owner texts subject at s).1.bootstrap ≡ some subject))
  unfolding bootstrap_owner
  bootstrap_owner-writes subject at s = ground arith

  -- The caller may make administrators: the owner, active and with a second factor, or the command
  -- that bootstraps.
  abbrev pub MayAppoint : Action → Documents → Type 0
  MayAppoint (setting_administrator identity id q at) s =
      (actor : User) × (read_user texts identity.subject s ≡ some actor)
      × (actor.owner ≡ true)
      × (actor.active ≡ true)
      × (identity.mfa ≡ true)
  MayAppoint (bootstrapping subject at) s = s.bootstrap ≡ none
  MayAppoint _ s = ⊥

  abbrev pub KeepsIdentity : String → Option User → User → Type 0
  KeepsIdentity k none u = (user_key texts u.subject ≡ k) × (u.owner ≡ false)
  KeepsIdentity k (some old) u =
      (u.subject ≡ old.subject)
      × (u.owner ≡ old.owner)
      × ((old.owner ≡ false) ⊎ ((u.active ≡ old.active) × (u.platform_admin ≡ old.platform_admin)))

  abbrev pub KeepsRank : Action → Documents → Option User → User → Type 0
  KeepsRank a s none u = u.platform_admin ≡ false
  KeepsRank a s (some old) u = (u.platform_admin ≡ old.platform_admin) ⊎ MayAppoint a s

  -- It has made the owner.
  abbrev pub Boots : Action → Documents → Documents → Type 0
  Boots a s s' =
      (subject : String) × (s.bootstrap ≡ none)
      × (read_user texts subject s ≡ none)
      × (s'.users ≡ insert (user_key texts subject) (first_owner subject) s.users)
      × (s'.bootstrap ≡ some subject)
      × MayAppoint a s

  -- It has written one user, who keeps its subject and its ownership.
  abbrev pub Edits : Action → Documents → Documents → Type 0
  Edits a s s' =
      (k : String) × (u : User) × Writes k u s s'
      × KeepsIdentity k (lookup k s.users) u
      × KeepsRank a s (lookup k s.users) u

  abbrev pub Effect : Action → Documents → Documents → Type 0
  Effect a s s' = Leaves s s' ⊎ (Edits a s s' ⊎ Boots a s s')

  joined-Keeps :
      (identity : Identity) (token : String) (at : Reading) (i : Invitation) (s : Documents)
      → KeepsIdentity
          (user_key texts identity.subject)
          (read_user texts identity.subject s)
          (joined texts identity i s)
        × KeepsRank
            (redeeming identity token at)
            s
            (read_user texts identity.subject s)
            (joined texts identity i s)
  joined-Keeps identity token at i s = elim (Option-cases (read_user texts identity.subject s)) [
    | inl new ↦ rw new ((refl, refl), refl)
    | inr (old, found) ↦ rw found ((refl, refl, inr (refl, refl)), inl refl)
  ]

  pub run-Effect : (a : Action) (s : Documents) → Effect a s (run texts a s)
  unfolding set_status set_administrator redeem_invitation record_rejection
  run-Effect (bootstrapping subject at) s = elim (bootstrap_owner-writes subject at s) [
    | inl same ↦ inl same
    | inr (fresh, unknown, users, owner) ↦ inr (inr (subject, fresh, unknown, users, owner, fresh))
  ]
  run-Effect (creating_organization identity name id at) s =
      inl (create_organization-Leaves identity name id at s)
  run-Effect (inviting identity q token id at) s = inl (invite-Leaves identity q token id at s)
  run-Effect (redeeming identity token at) s =
      elim (Option-cases (lookup (texts.hexdigest token) s.invitations)) [
        | inl absent ↦ inl (ground arith)
        | inr (i, found) ↦ elim (redeem_invitation-Writes identity token at s i found) [
          | inl same ↦ inl same
          | inr written ↦
              let (who, rank) = joined-Keeps identity token at i s in
              inr (
                inl
                  (user_key texts identity.subject, joined texts identity i s, written, who, rank))
        ]
      ]
  run-Effect (setting_status identity kind id q at) s = elim (Option-cases (lookup id s.users)) [
    | inl absent ↦ inl (ground arith)
    | inr (target, found) ↦ elim (set_status-Writes identity kind id q at s target found) [
      | inl same ↦ inl same
      | inr (other, written) ↦ inr (
          inl (
            id,
            with_status target q,
            written,
            rw found (refl, refl, inl other),
            rw found (inl refl),
          ))
    ]
  ]
  run-Effect (revoking identity id v at) s = inl (revoke_invitation-Leaves identity id v at s)
  run-Effect (updating_membership identity o id q at) s =
      inl (update_membership-Leaves identity o id q at s)
  run-Effect (setting_administrator identity id q at) s = elim (Option-cases (lookup id s.users)) [
    | inl absent ↦ inl (ground arith)
    | inr (target, found) ↦ elim (Option-cases (read_user texts identity.subject s)) [
      | inl nobody ↦ inl (ground arith)
      | inr (actor, acts) ↦
          elim (set_administrator-Writes identity id q at s target actor found acts) [
            | inl same ↦ inl same
            | inr (other, active, owner, active', mfa, written) ↦ inr (
                inl (
                  id,
                  appointed target q,
                  written,
                  rw found (refl, refl, inl other),
                  rw found (inr (actor, acts, owner, active', mfa)),
                ))
          ]
    ]
  ]
  run-Effect (rejecting actor reason at) s = inl (refl, refl)
