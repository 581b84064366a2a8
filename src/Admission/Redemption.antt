-- ===== src/Admission/Redemption.antt =====
-- Redeeming an invitation (services/control-api/src/control_api/admission/service.py, `redeem`).
use enterprise_change_ops.Base.{
  ◌<◌, String, string_eq, pair_eq, true, false, ◌≡◌, refl, ◌∙◌, subst, none, some, Option-cases,
  Bool-cases, inl, inr, arith, Result, ok, err, same_refl, ltb, length,
}
use enterprise_change_ops.Base.Dict.{lookup, insert, lookup-insert}
use enterprise_change_ops.Admission.Models.{Identity, Invitation, denied, AdmissionError}
use enterprise_change_ops.Admission.Documents.{Documents}
use enterprise_change_ops.Admission.Service.{
  Texts, Reading, user_key, is_unredeemable, joined, new_member, used, redeem_invitation,
}

module _ (texts : Texts) (identity : Identity) (token : String) (at : Reading) where
  -- The invitation was open, for the caller's address, and not for a member; it is now used.
  pub record Grants (s s' : Documents) (i : Invitation) : Type 0 where
    pub address : i.email ≡ texts.lower identity.email
    pub unexpired : at.now < i.expires_at
    pub unused : i.redeemed_by ≡ none
    pub standing : i.revoked ≡ false
    pub no_member : lookup (i.organization_id, user_key texts identity.subject) s.members ≡ none
    pub member :
        lookup (i.organization_id, user_key texts identity.subject) s'.members
        ≡ some (new_member identity i)
    pub closed : lookup (texts.hexdigest token) s'.invitations ≡ some (used identity i)

  abbrev pub Redeems : Documents → Result AdmissionError (Unit {0}) × Documents → Type 0
  Redeems s (err e, s') = s' ≡ s
  Redeems s (ok _, s') =
      (i : Invitation) × (lookup (texts.hexdigest token) s.invitations ≡ some i) × Grants s s' i

  redeem_open-Grants :
      (s s' : Documents) (i : Invitation)
      → is_unredeemable texts identity i at.now s ≡ false
      → s'.members
        ≡ insert
            (i.organization_id, user_key texts identity.subject)
            (new_member identity i)
            s.members
      → s'.invitations ≡ insert (texts.hexdigest token) (used identity i) s.invitations
      → Grants s s' i
  redeem_open-Grants s s' i open_to members invitations =
      let member_key : String × String = (i.organization_id, user_key texts identity.subject) in
      record {
        address = ground (arith, string_eq.same_iff i.email (texts.lower identity.email));
        unexpired = ground arith;
        unused = ground arith;
        standing = ground arith;
        no_member = ground arith;
        member = rw members (
            lookup-insert member_key member_key (new_member identity i) s.members
            ∙ rw (same_refl i.organization_id, same_refl (user_key texts identity.subject)) refl);
        closed = rw invitations (
            lookup-insert (texts.hexdigest token) (texts.hexdigest token) (used identity i)
              s.invitations
            ∙ rw (same_refl (texts.hexdigest token)) refl);
      }

  redeem_open :
      (s : Documents) (i : Invitation)
      → lookup (texts.hexdigest token) s.invitations ≡ some i
      → is_unredeemable texts identity i at.now s ≡ false
      → Redeems s (redeem_invitation texts identity token at s)
  unfolding redeem_invitation
  redeem_open s i found open_to =
      elim (Bool-cases (ltb 50 (length (joined texts identity i s).organization_ids))) [
        | inl many ↦ rw (found, open_to, many) refl
        | inr few ↦ rw (found, open_to, few) (i, found, redeem_open-Grants s _ i open_to refl refl)
      ]

  redeem_closed :
      (s : Documents) (i : Invitation)
      → lookup (texts.hexdigest token) s.invitations ≡ some i
      → is_unredeemable texts identity i at.now s ≡ true
      → redeem_invitation texts identity token at s ≡ (err denied, s)
  unfolding redeem_invitation
  redeem_closed s i found shut = rw (found, shut) refl

  -- A call of `redeem` raises and changes nothing, or there was an open invitation under the token's
  -- digest for the caller's address, the caller was no member of its organisation, and then the
  -- caller is a member with the invitation's role and the invitation is used.
  pub redeem_invitation-Redeems :
      (s : Documents) → Redeems s (redeem_invitation texts identity token at s)
  unfolding redeem_invitation
  redeem_invitation-Redeems s = elim (Option-cases (lookup (texts.hexdigest token) s.invitations)) [
    | inl absent ↦ rw (unknown s absent) refl
    | inr (i, found) ↦ elim (Bool-cases (is_unredeemable texts identity i at.now s)) [
      | inl shut ↦ rw (redeem_closed s i found shut) refl
      | inr open_to ↦ redeem_open s i found open_to
    ]
  ]
    where
      unknown :
          (s : Documents)
          → lookup (texts.hexdigest token) s.invitations ≡ none
          → redeem_invitation texts identity token at s ≡ (err denied, s)
      unknown s absent = rw absent refl

  used_up :
      (s : Documents) (i : Invitation) (subject : String)
      → lookup (texts.hexdigest token) s.invitations ≡ some i
      → i.redeemed_by ≡ some subject
      → redeem_invitation texts identity token at s ≡ (err denied, s)
  used_up s i subject found spent = redeem_closed s i found (ground arith)

-- An invitation is redeemed once: after a call of `redeem` that has not raised, every call with the
-- same token, by whomever and whenever, is denied and changes nothing.
pub redeem_invitation-once :
    (texts : Texts) (identity identity' : Identity) (token : String) (at at' : Reading)
    (s s' : Documents)
    → redeem_invitation texts identity token at s ≡ (ok tt, s')
    → redeem_invitation texts identity' token at' s' ≡ (err denied, s')
redeem_invitation-once texts identity identity' token at at' s s' h =
    let (i, _, granted) =
      subst (Redeems texts identity token at s) h
        (redeem_invitation-Redeems texts identity token at s) in
    used_up texts identity' token at' s' (used identity i) identity.subject granted.closed refl
