-- ===== src/Admission/Administration.antt =====
-- The operations of `AdmissionService` on existing records
-- (services/control-api/src/control_api/admission/service.py).
use enterprise_change_ops.Base.{
  ℕ, ◌+◌, String, string_eq, nat_eq, concat, Bool, true, false, not, ◌&&◌, ◌||◌, leb, ◌==◌, ◌/=◌,
  if◌then◌else◌, Option, none, some, contains, raise, gets, or_raise, raise_if, modify, ◌>>=◌, ◌>>◌,
  pair_eq,
}
use enterprise_change_ops.Base.Dict.{lookup}
use enterprise_change_ops.Admission.Models.{
  Identity, User, Organization, Membership, Invitation, StatusUpdate, MembershipUpdate, denied,
  version_conflict,
}
use enterprise_change_ops.Admission.Documents.{Call, transact}
use enterprise_change_ops.Admission.Service.{
  Texts, Reading, read_user, user_key, require_admin, is_some, put_user, put_organization,
  put_member, put_invitation, audit,
}

abbrev pub status_action : Bool → String
status_action active = if active then "access_activated" else "access_suspended"

abbrev pub administrator_action : Bool → String
administrator_action active = if active then "administrator_appointed" else "administrator_revoked"

abbrev pub with_status : User → StatusUpdate → User
with_status u q = record u { active = q.active; version = q.expected_version + 1 }

abbrev with_organization_status : Organization → StatusUpdate → Organization
with_organization_status o q = record o { active = q.active; version = q.expected_version + 1 }

abbrev pub revoked_again : Invitation → Invitation
revoked_again i = record i { revoked = true; version = i.version + 1 }

abbrev pub updated_member : Membership → MembershipUpdate → Membership
updated_member m q = record m { active = q.active; role = q.role; version = m.version + 1 }

abbrev pub appointed : User → StatusUpdate → User
appointed u q = record u { platform_admin = q.active; version = u.version + 1 }

module _ (texts : Texts) where
  abbrev set_user_status : Identity → String → StatusUpdate → Reading → Call (Unit {0})
  set_user_status identity identifier q at = do
    require_admin texts identity
    target ← λ s. or_raise (lookup identifier s.users) denied s
    raise_if (target.owner || target.subject == identity.subject) denied
    raise_if (target.version /= q.expected_version) version_conflict
    modify (put_user identifier (with_status target q))
    audit at identity.subject (status_action q.active) (concat "admission_users/" identifier)

  abbrev set_organization_status : Identity → String → StatusUpdate → Reading → Call (Unit {0})
  set_organization_status identity identifier q at = do
    require_admin texts identity
    target ← λ s. or_raise (lookup identifier s.organizations) denied s
    raise_if (target.version /= q.expected_version) version_conflict
    modify (put_organization identifier (with_organization_status target q))
    audit at identity.subject (status_action q.active)
        (concat "admission_organizations/" identifier)

  unfoldable pub set_status : Identity → String → String → StatusUpdate → Reading → Call (Unit {0})
  set_status identity kind identifier q at =
      if kind == "organizations"
      then transact (set_organization_status identity identifier q at)
      else if kind == "users"
      then transact (set_user_status identity identifier q at)
      else raise denied

  abbrev is_closed : Invitation → ℕ → Reading → Bool
  is_closed i expected_version at =
      (i.version /= expected_version)
      || (i.revoked || (is_some i.redeemed_by || leb i.expires_at at.now))

  unfoldable pub revoke_invitation : Identity → String → ℕ → Reading → Call (Unit {0})
  revoke_invitation identity identifier expected_version at = transact do
    require_admin texts identity
    i ← λ s. or_raise (lookup identifier s.invitations) denied s
    raise_if (is_closed i expected_version at) version_conflict
    modify (put_invitation identifier (revoked_again i))
    audit at identity.subject "invitation_revoked" i.invitation_id

  abbrev lists_organization : String → Option User → Bool
  lists_organization organization_id none = false
  lists_organization organization_id (some u) = contains u.organization_ids organization_id

  abbrev is_inactive_user : Option User → Bool
  is_inactive_user none = true
  is_inactive_user (some u) = not u.active

  abbrev is_foreign : Identity → String → String → Membership → Option User → Bool
  is_foreign identity organization_id identifier m user =
      (m.organization_id /= organization_id)
      || ((user_key texts m.subject /= identifier)
          || (m.subject == identity.subject || not (lists_organization organization_id user)))

  unfoldable pub update_membership :
      Identity → String → String → MembershipUpdate → Reading → Call (Unit {0})
  update_membership identity organization_id identifier q at = transact do
    require_admin texts identity
    m ← λ s. or_raise (lookup (organization_id, identifier) s.members) denied s
    organization ← λ s. or_raise (lookup organization_id s.organizations) denied s
    user ← gets (read_user texts m.subject)
    raise_if (is_foreign identity organization_id identifier m user) denied
    raise_if (m.version /= q.expected_version) version_conflict
    raise_if (q.active && (is_inactive_user user || not organization.active)) denied
    modify (put_member organization_id identifier (updated_member m q))
    audit at identity.subject "membership_updated"
        (concat "admission_organizations/" (concat organization_id (concat "/members/" identifier)))

  unfoldable pub set_administrator : Identity → String → StatusUpdate → Reading → Call (Unit {0})
  set_administrator identity identifier q at = transact do
    actor ← require_admin texts identity
    raise_if (not actor.owner) denied
    target ← λ s. or_raise (lookup identifier s.users) denied s
    raise_if (target.owner || not target.active) denied
    raise_if (target.version /= q.expected_version) version_conflict
    modify (put_user identifier (appointed target q))
    audit at identity.subject (administrator_action q.active) identifier

  unfoldable pub record_rejection : String → String → Reading → Call (Unit {0})
  record_rejection actor reason at = transact (audit at actor "access_rejected" reason)
