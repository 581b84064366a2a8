-- ===== src/Admission/Service.antt =====
-- `AdmissionService` of services/control-api/src/control_api/admission/service.py. The digest and
-- the lower-case form of a text are other code; the clock, the identifiers and the tokens are
-- arguments.
use enterprise_change_ops.Base.{
  ℕ, ◌+◌, String, string_eq, nat_eq, Bool, true, false, not, ◌||◌, leb, ◌/=◌, Option, none, some,
  [], ◌∷◌, ◌++◌, pure, gets, or_raise, raise_if, modify, ◌>>=◌, ◌>>◌, pair_eq,
}
use enterprise_change_ops.Base.Dict.{lookup, insert}
use enterprise_change_ops.Contracts.Models.{Timestamp}
use enterprise_change_ops.Admission.Models.{
  Identity, User, Organization, Membership, Invitation, InvitationCreate, new_user,
  control_api_error, denied, validate_user,
}
use enterprise_change_ops.Admission.Documents.{Documents, Call, transact}

pub record Texts : Type 0 where
  -- `hashlib.sha256(text.encode()).hexdigest()`
  pub hexdigest : String → String
  -- `text.lower()`
  pub lower : String → String

-- What a call reads of the clock, before and for its audit event, and the event's identifier.
pub record Reading : Type 0 where
  pub now : Timestamp
  pub audited_at : Timestamp
  pub event_id : String

-- Twenty-four hours.
abbrev pub one_day : ℕ
one_day = 86_400_000_000

abbrev pub is_some : {A : Type 0} → Option A → Bool
is_some none = false
is_some (some _) = true

abbrev pub put_user : String → User → Documents → Documents
put_user k u s = record s { users = insert k u s.users }

abbrev pub put_invitation : String → Invitation → Documents → Documents
put_invitation k i s = record s { invitations = insert k i s.invitations }

abbrev pub put_organization : String → Organization → Documents → Documents
put_organization k o s = record s { organizations = insert k o s.organizations }

abbrev pub put_member : String → String → Membership → Documents → Documents
put_member o k m s = record s { members = insert (o, k) m s.members }

abbrev pub audit : Reading → String → String → String → Call (Unit {0})
audit at actor action resource_id = modify λ s. record s {
  audit =
      insert at.event_id
        (record {
          event_id = at.event_id;
          actor = actor;
          action = action;
          resource_id = resource_id;
          occurred_at = at.audited_at;
        })
        s.audit;
}

abbrev pub is_refused : Identity → User → Bool
is_refused identity u = not u.active || (not u.platform_admin || not identity.mfa)

abbrev pub is_inactive : Option Organization → Bool
is_inactive none = true
is_inactive (some o) = not o.active

abbrev no_admin : Option User → Bool
no_admin none = true
no_admin (some u) = not u.active || not u.platform_admin

abbrev is_suspended : Option User → Bool
is_suspended none = false
is_suspended (some u) = not u.active

abbrev pub or_new : String → Option User → User
or_new subject none = new_user subject
or_new subject (some u) = u

abbrev pub new_member : Identity → Invitation → Membership
new_member identity i = record {
  subject = identity.subject;
  organization_id = i.organization_id;
  role = i.role;
  active = true;
  version = 1;
}

abbrev pub used : Identity → Invitation → Invitation
used identity i = record i { redeemed_by = some identity.subject; version = i.version + 1 }

abbrev pub first_owner : String → User
first_owner subject = record (new_user subject) { owner = true; platform_admin = true }

module _ (texts : Texts) where
  abbrev pub user_key : String → String
  user_key = texts.hexdigest

  abbrev pub read_user : String → Documents → Option User
  read_user subject s = lookup (user_key subject) s.users

  abbrev pub require_admin : Identity → Call User
  require_admin identity = do
    user ← λ s. or_raise (read_user identity.subject s) denied s
    raise_if (is_refused identity user) denied
    pure user

  unfoldable pub bootstrap_owner : String → Reading → Call (Unit {0})
  bootstrap_owner subject at = transact do
    initialized ← gets (λ s. is_some s.bootstrap || is_some (read_user subject s))
    raise_if initialized
        (control_api_error "already_bootstrapped" "Owner is already initialized." 409)
    modify (put_user (user_key subject) (first_owner subject))
    modify λ s. record s { bootstrap = some subject }
    audit at subject "owner_bootstrapped" (user_key subject)

  unfoldable pub create_organization : Identity → String → String → Reading → Call Organization
  create_organization identity name organization_id at =
      let organization : Organization = record {
        organization_id = organization_id;
        name = name;
        active = true;
        version = 1;
      } in
      transact do
        require_admin identity
        modify (put_organization organization_id organization)
        audit at identity.subject "organization_created" organization_id
        pure organization

  abbrev pub new_invitation : Identity → InvitationCreate → String → Reading → Invitation
  new_invitation identity q invitation_id at = record {
    invitation_id = invitation_id;
    email = texts.lower q.email;
    organization_id = q.organization_id;
    role = q.role;
    invited_by = identity.subject;
    expires_at = at.now + one_day;
    redeemed_by = none;
    revoked = false;
    version = 1;
  }

  unfoldable pub invite :
      Identity → InvitationCreate → String → String → Reading → Call (Invitation × String)
  invite identity q token invitation_id at =
      let invitation = new_invitation identity q invitation_id at in
      transact do
        require_admin identity
        organization ← gets (λ s. lookup q.organization_id s.organizations)
        raise_if (is_inactive organization) denied
        modify (put_invitation (texts.hexdigest token) invitation)
        audit at identity.subject "invitation_created" invitation_id
        pure (invitation, token)

  -- The tests of `redeem`, in their order.
  abbrev pub is_unredeemable : Identity → Invitation → Timestamp → Documents → Bool
  is_unredeemable identity i now s =
      (i.email /= texts.lower identity.email)
      || (leb i.expires_at now
          || (is_some i.redeemed_by
              || (i.revoked
                  || (no_admin (read_user i.invited_by s)
                      || (is_inactive (lookup i.organization_id s.organizations)
                          || (is_suspended (read_user identity.subject s)
                              || is_some (
                                  lookup (i.organization_id, user_key identity.subject)
                                    s.members)))))))

  abbrev pub joined : Identity → Invitation → Documents → User
  joined identity i s =
      let user = or_new identity.subject (read_user identity.subject s) in
      record user {
        organization_ids = user.organization_ids ++ i.organization_id ∷ [];
        version = user.version + 1;
      }

  -- The transaction of `redeem`, which then answers with `access`.
  unfoldable pub redeem_invitation : Identity → String → Reading → Call (Unit {0})
  redeem_invitation identity token at = transact do
    let path = texts.hexdigest token
    i ← λ s. or_raise (lookup path s.invitations) denied s
    unredeemable ← gets (is_unredeemable identity i at.now)
    raise_if unredeemable denied
    updated ← λ s. (validate_user (joined identity i s), s)
    modify (put_user (user_key identity.subject) updated)
    modify (put_member i.organization_id (user_key identity.subject) (new_member identity i))
    modify (put_invitation path (used identity i))
    audit at identity.subject "invitation_redeemed" i.invitation_id
