-- ===== src/Admission/Access.antt =====
-- What `AdmissionService` answers to a caller about itself and lists to administrators
-- (services/control-api/src/control_api/admission/service.py).
use enterprise_change_ops.Base.{
  ℕ, String, string_eq, Bool, true, false, not, ◌&&◌, ◌||◌, leb, ◌==◌, if◌then◌else◌, Option, none,
  some, List, [], ◌∷◌, find, map, pure, gets, or_raise, raise_if, ◌>>=◌, ◌>>◌, pair_eq,
}
use enterprise_change_ops.Base.Dict.{Dict, lookup}
use enterprise_change_ops.Contracts.Models.{Timestamp}
use enterprise_change_ops.Admission.Models.{
  Identity, User, Organization, Membership, Invitation, Workspace, AccessView, AdmissionAudit,
  denied,
}
use enterprise_change_ops.Admission.Documents.{Documents, Call, transact, list}
use enterprise_change_ops.Admission.Service.{
  Texts, Reading, read_user, user_key, require_admin, is_some, redeem_invitation,
}

-- One item of the loop over `organization_ids`.
abbrev pub add_workspace : Option Organization → Option Membership → List Workspace → List Workspace
add_workspace (some o) (some m) rest =
    if o.active && m.active then record { organization = o; membership = m } ∷ rest else rest
add_workspace _ _ rest = rest

abbrev pub workspaces_of : String → Documents → List String → List Workspace
workspaces_of key s [] = []
workspaces_of key s (id ∷ ids) =
    add_workspace (lookup id s.organizations) (lookup (id, key) s.members) (workspaces_of key s ids)

abbrev pub user_workspaces : String → Documents → Option User → List Workspace
user_workspaces key s none = []
user_workspaces key s (some u) = if u.active then workspaces_of key s u.organization_ids else []

abbrev pub is_admin : Identity → Option User → Bool
is_admin identity none = false
is_admin identity (some u) = u.active && (u.platform_admin && identity.mfa)

abbrev is_owner : Option User → Bool
is_owner none = false
is_owner (some u) = u.owner

abbrev status_after : Identity → Option User → String → String
status_after identity none status = status
status_after identity (some u) status =
    if not u.active
    then "suspended"
    else if u.platform_admin && not identity.mfa
    then "mfa_required"
    else status

abbrev has_any : List Workspace → Bool
has_any [] = false
has_any (_ ∷ _) = true

abbrev pub view : Identity → Option User → List Workspace → AccessView
view identity user workspaces =
    let admin = is_admin identity user in
    record {
      subject = identity.subject;
      email = identity.email;
      platform_admin = admin;
      owner = admin && is_owner user;
      status =
          status_after identity user
            (if has_any workspaces || admin then "active" else "not_admitted");
      workspaces = workspaces;
    }

-- What `list_records` lists.
pub data Records : Type 0 where
  organizations : List (String × Organization) → Records
  users : List (String × User) → Records
  audits : List (String × AdmissionAudit) → Records
  -- with the status of each
  invitations : List (String × Invitation × String) → Records

abbrev pub invitation_status : Timestamp → Invitation → String
invitation_status now i =
    if i.revoked
    then "revoked"
    else if is_some i.redeemed_by
    then "redeemed"
    else if leb i.expires_at now
    then "expired"
    else "pending"

abbrev page_size : ℕ
page_size = 50

abbrev records_of : String → String → Timestamp → Documents → Records
records_of kind after now s =
    if kind == "organizations"
    then organizations (list s.organizations after page_size)
    else if kind == "users"
    then users (list s.users after page_size)
    else if kind == "audit"
    then audits (list s.audit after page_size)
    else invitations (
        map (λ (p : String × Invitation). (p.0, p.1, invitation_status now p.1))
          (list s.invitations after page_size))

abbrev is_listed : String → Bool
is_listed kind =
    kind == "organizations" || (kind == "users" || (kind == "audit" || kind == "invitations"))

-- The members of an organisation, by their user keys.
abbrev members_of : String → Dict (String × String) Membership → Dict String Membership
members_of organization_id [] = []
members_of organization_id (((owner, key), m) ∷ d) =
    let rest = members_of organization_id d in
    if owner == organization_id then (key, m) ∷ rest else rest

module _ (texts : Texts) where
  unfoldable pub access : Identity → Call AccessView
  access identity = transact do
    user ← gets (read_user texts identity.subject)
    workspaces ← gets (λ s. user_workspaces (user_key texts identity.subject) s user)
    pure (view identity user workspaces)

  unfoldable pub workspace : Identity → String → Call Workspace
  unfolding access
  workspace identity organization_id = do
    answer ← access identity
    or_raise (find (λ w. w.organization.organization_id == organization_id) answer.workspaces)
        denied

  unfoldable pub redeem : Identity → String → Reading → Call AccessView
  unfolding access redeem_invitation
  redeem identity token at = do redeem_invitation texts identity token at; access identity

  unfoldable pub list_records : Identity → String → String → Timestamp → Call Records
  list_records identity kind after now = do
    raise_if (not (is_listed kind)) denied
    transact (require_admin texts identity)
    gets (records_of kind after now)

  abbrev authorize : Identity → String → Call (Unit {0})
  authorize identity organization_id = do
    require_admin texts identity
    known ← gets (λ s. is_some (lookup organization_id s.organizations))
    raise_if (not known) denied

  unfoldable pub list_members : Identity → String → String → Call (List (String × Membership))
  list_members identity organization_id after = do
    transact (authorize identity organization_id)
    gets (λ s. list (members_of organization_id s.members) after page_size)
