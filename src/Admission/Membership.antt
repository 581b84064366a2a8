-- ===== src/Admission/Membership.antt =====
-- What a caller may see (services/control-api/src/control_api/admission/service.py, `access` and
-- `workspace`).
use enterprise_change_ops.Base.{
  String, string_eq, pair_eq, Bool, true, ◌&&◌, ◌≡◌, ◌⊎◌, inl, inr, refl, sym, subst, Option, none,
  some, Option-cases, Bool-cases, some_inj, List, [], ◌∷◌, find, In, arith, Result, ok, err, ◌==◌,
  if◌then◌else◌,
}
use enterprise_change_ops.Base.Dict.{lookup}
use enterprise_change_ops.Admission.Models.{
  Identity, User, Organization, Membership, Workspace, AdmissionError, denied,
}
use enterprise_change_ops.Admission.Documents.{Documents}
use enterprise_change_ops.Admission.Service.{Texts, read_user, user_key}
use enterprise_change_ops.Admission.Access.{
  add_workspace, workspaces_of, user_workspaces, workspace,
}

-- The organisation and the membership are stored, for one another, and both are active.
pub record IsOpen (key : String) (s : Documents) (id : String) (w : Workspace) : Type 0 where
  pub organization : lookup id s.organizations ≡ some w.organization
  pub membership : lookup (id, key) s.members ≡ some w.membership
  pub organization_active : w.organization.active ≡ true
  pub membership_active : w.membership.active ≡ true

add_workspace-cases :
    (key id : String) (s : Documents) (o : Option Organization) (m : Option Membership)
    (rest : List Workspace) (w : Workspace)
    → lookup id s.organizations ≡ o
    → lookup (id, key) s.members ≡ m
    → In w (add_workspace o m rest)
    → In w rest ⊎ IsOpen key s id w
add_workspace-cases key id s none none rest w ho hm i = inl i
add_workspace-cases key id s none (some m) rest w ho hm i = inl i
add_workspace-cases key id s (some o) none rest w ho hm i = inl i
add_workspace-cases key id s (some o) (some m) rest w ho hm i =
    let here : Workspace = record { organization = o; membership = m } in
    elim (Bool-cases (o.active && m.active)) [
      | inr shut ↦ inl (subst (λ (b : Bool). In w (if b then here ∷ rest else rest)) shut i)
      | inl both ↦ elim (subst (λ (b : Bool). In w (if b then here ∷ rest else rest)) both i) [
        | inr later ↦ inl later
        | inl e ↦ inr (
            rw e (record {
              organization = ho;
              membership = hm;
              organization_active = ground arith;
              membership_active = ground arith;
            }))
      ]
    ]

workspaces_of-IsOpen :
    (key : String) (s : Documents) (ids : List String) (w : Workspace)
    → In w (workspaces_of key s ids)
    → (id : String) × In id ids × IsOpen key s id w
workspaces_of-IsOpen key s [] w i = elim i [ ]
workspaces_of-IsOpen key s (id ∷ ids) w i =
    elim (add_workspace-cases key id s (lookup id s.organizations) (lookup (id, key) s.members)
      (workspaces_of key s ids) w refl refl i) [
        | inr is_open ↦ (id, inl refl, is_open)
        | inl later ↦
            let (id', j, is_open) = workspaces_of-IsOpen key s ids w later in (id', inr j, is_open)
      ]

find-In :
    (p : Workspace → Bool) (ws : List Workspace) (w : Workspace)
    → find p ws ≡ some w
    → In w ws × (p w ≡ true)
find-In p [] w h = absurd cc
find-In p (x ∷ ws) w h = elim (Bool-cases (p x)) [
  | inl e ↦ let same : x ≡ w = some_inj (ground arith) in (inl (sym same), rw (← same) e)
  | inr e ↦ let (i, holds) = find-In p ws w (ground arith) in (inr i, holds)
]

module _ (texts : Texts) (identity : Identity) (organization_id : String) where
  -- The caller is an active user who lists the organisation of the workspace, which is the one that
  -- is asked for.
  abbrev pub IsMember : Documents → Workspace → Type 0
  IsMember s w =
      (u : User) × (id : String) × (read_user texts identity.subject s ≡ some u)
      × (u.active ≡ true)
      × In id u.organization_ids
      × IsOpen (user_key texts identity.subject) s id w
      × (w.organization.organization_id ≡ organization_id)

  -- What an answer of `workspace` says; it leaves the documents as they are.
  abbrev pub Answers : Documents → Result AdmissionError Workspace × Documents → Type 0
  Answers s (ok w, s') = (s' ≡ s) × IsMember s w
  Answers s (err e, s') = (s' ≡ s) × (e ≡ denied)

  abbrev asked : Workspace → Bool
  asked w = w.organization.organization_id == organization_id

  listed :
      (s : Documents) (o : Option User) (w : Workspace)
      → read_user texts identity.subject s ≡ o
      → find asked (user_workspaces (user_key texts identity.subject) s o) ≡ some w
      → IsMember s w
  listed s none w r found = absurd cc
  listed s (some u) w r found =
      let all_of = workspaces_of (user_key texts identity.subject) s u.organization_ids in
      elim (Bool-cases u.active) [
        | inr suspended ↦
            let nothing : none ≡ some w =
              subst (λ (b : Bool). find asked (if b then all_of else []) ≡ some w) suspended
                found in
            absurd cc
        | inl active ↦
            let (i, is_asked) =
              find-In asked all_of w (
                subst (λ (b : Bool). find asked (if b then all_of else []) ≡ some w) active
                  found) in
            let (id, j, is_open) =
              workspaces_of-IsOpen (user_key texts identity.subject) s u.organization_ids w i in
            (u, id, r, active, j, is_open, (string_eq.same_iff _ _).0 is_asked)
      ]

  -- `workspace` answers only with the organisation that is asked for, only to an active user who
  -- lists it, and only where the organisation and the caller's membership in it are stored and both
  -- active; otherwise it denies. It changes nothing.
  pub workspace-Answers : (s : Documents) → Answers s (workspace texts identity organization_id s)
  unfolding workspace
  workspace-Answers s =
      let o = read_user texts identity.subject s in
      elim (Option-cases (find asked (user_workspaces (user_key texts identity.subject) s o))) [
        | inl nothing ↦ rw nothing (refl, refl)
        | inr (w, found) ↦ rw found (refl, listed s o w refl found)
      ]
