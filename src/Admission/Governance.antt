-- ===== src/Admission/Governance.antt =====
-- Who governs admission (services/control-api/src/control_api/admission/service.py): there is one
-- owner, whom nobody can remove, and only the owner makes administrators.
use enterprise_change_ops.Base.{
  String, string_eq, true, false, ◌≡◌, ◌⊎◌, inl, inr, refl, sym, ◌∙◌, subst, Option, none, some,
  some_inj, Option-cases, Bool-cases, List, [], ◌∷◌, arith, ◌==◌, same_refl,
}
use enterprise_change_ops.Base.Dict.{Dict, lookup, insert, lookup-insert}
use enterprise_change_ops.Admission.Models.{User}
use enterprise_change_ops.Admission.Documents.{Documents, init}
use enterprise_change_ops.Admission.Service.{Texts, user_key, first_owner}
use enterprise_change_ops.Admission.Actions.{
  Action, run, run_all, Leaves, MayAppoint, KeepsIdentity, KeepsRank, Boots, run-Effect,
}

module _ (texts : Texts) where
  -- The owner is stored, active and an administrator, and is the only owner.
  abbrev OwnedBy : Option String → Dict String User → Type 0
  OwnedBy none users = (k : String) (u : User) → lookup k users ≡ some u → u.owner ≡ false
  OwnedBy (some subject) users =
      ((u : User) × (lookup (user_key texts subject) users ≡ some u)
        × (u.subject ≡ subject)
        × (u.owner ≡ true)
        × (u.active ≡ true)
        × (u.platform_admin ≡ true))
      × ((k : String) (u : User)
          → lookup k users ≡ some u
          → u.owner ≡ true
          → k ≡ user_key texts subject)

  pub record IsGoverned (s : Documents) : Type 0 where
    -- a user stands under the key of its subject
    pub keyed : (k : String) (u : User) → lookup k s.users ≡ some u → user_key texts u.subject ≡ k
    pub owned : OwnedBy s.bootstrap s.users

  pub init-IsGoverned : IsGoverned init
  unfolding init lookup
  init-IsGoverned = record { keyed = λ k u h. cc; owned = λ k u h. cc }

  found_after :
      (k j : String) (u v : User) (s : Documents)
      → lookup j (insert k u s.users) ≡ some v
      → ((k ≡ j) × (v ≡ u)) ⊎ (lookup j s.users ≡ some v)
  found_after k j u v s h = elim (Bool-cases (k == j)) [
    | inl e ↦
        inl (
          (string_eq.same_iff k j).0 e,
          sym (some_inj (ground (arith, lookup-insert k j u s.users))),
        )
    | inr e ↦ inr (ground (arith, lookup-insert k j u s.users))
  ]

  module _ (k : String) (u : User) (s s' : Documents) (users : s'.users ≡ insert k u s.users)
      (who : KeepsIdentity texts k (lookup k s.users) u) where
    was_owner : u.owner ≡ true → (old : User) × (lookup k s.users ≡ some old) × (old.owner ≡ true)
    was_owner h = elim (Option-cases (lookup k s.users)) [
      | inl new ↦
          let now = subst (λ (o : Option User). KeepsIdentity texts k o u) new who in
          absurd cc (h, now.1)
      | inr (old, found) ↦
          let now = subst (λ (o : Option User). KeepsIdentity texts k o u) found who in
          (old, found, sym now.1 ∙ h)
    ]

    keyed_after : IsGoverned s → user_key texts u.subject ≡ k
    keyed_after g = elim (Option-cases (lookup k s.users)) [
      | inl new ↦ (subst (λ (o : Option User). KeepsIdentity texts k o u) new who).0
      | inr (old, found) ↦
          let now = subst (λ (o : Option User). KeepsIdentity texts k o u) found who in
          rw now.0 (g.keyed k old found)
    ]

    owner_stays :
        (subject : String) (owner : User)
        → lookup (user_key texts subject) s.users ≡ some owner
        → owner.subject ≡ subject
        → owner.owner ≡ true
        → owner.active ≡ true
        → owner.platform_admin ≡ true
        → (v : User) × (lookup (user_key texts subject) s'.users ≡ some v)
          × (v.subject ≡ subject)
          × (v.owner ≡ true)
          × (v.active ≡ true)
          × (v.platform_admin ≡ true)
    owner_stays subject owner found own is_owner active admin =
        let o = user_key texts subject in
        elim (Bool-cases (k == o)) [
          | inr e ↦ (
            owner,
            ground (arith, users, lookup-insert k o u s.users),
            own,
            is_owner,
            active,
            admin,
          )
          | inl e ↦
              let at_k : lookup k s.users ≡ some owner = rw ((string_eq.same_iff k o).0 e) found in
              let now = subst (λ (x : Option User). KeepsIdentity texts k x u) at_k who in
              elim now.2 [
                | inl not_owner ↦ absurd cc (not_owner, is_owner)
                | inr (same_active, same_admin) ↦ (
                  u,
                  ground (arith, users, lookup-insert k o u s.users),
                  now.0 ∙ own,
                  now.1 ∙ is_owner,
                  same_active ∙ active,
                  same_admin ∙ admin,
                )
              ]
        ]

    owned_after : (o : Option String) → OwnedBy o s.users → OwnedBy o s'.users
    owned_after none g = λ j v h. elim (found_after k j u v s (rw (← users) h)) [
      | inr before ↦ g j v before
      | inl (_, same) ↦ elim (Bool-cases u.owner) [
        | inr not_owner ↦ rw same not_owner
        | inl yes_owner ↦
            let (old, found, owned) = was_owner yes_owner in absurd cc (owned, g k old found)
      ]
    ]
    owned_after (some subject) ((owner, found, own, is_owner, active, admin), only) = (
      owner_stays subject owner found own is_owner active admin,
      λ j v h o. elim (found_after k j u v s (rw (← users) h)) [
        | inr before ↦ only j v before o
        | inl (at_k, same) ↦
            let (old, found', owned) = was_owner (rw (← same) o) in
            sym at_k ∙ only k old found' owned
      ],
    )

    edited-IsGoverned : s'.bootstrap ≡ s.bootstrap → IsGoverned s → IsGoverned s'
    edited-IsGoverned same g = record {
      keyed = λ j v h. elim (found_after k j u v s (rw (← users) h)) [
        | inr before ↦ g.keyed j v before
        | inl (at_k, is_u) ↦ rw is_u (keyed_after g ∙ at_k)
      ];
      owned =
          subst (λ (o : Option String). OwnedBy o s'.users) (sym same)
            (owned_after s.bootstrap g.owned);
    }

  Leaves-IsGoverned : (s s' : Documents) → Leaves s s' → IsGoverned s → IsGoverned s'
  Leaves-IsGoverned s s' (users, same) g = record {
    keyed = λ k u h. g.keyed k u (rw (← users) h);
    owned = rw (same, users) g.owned;
  }

  owned_first :
      (subject : String) (s s' : Documents)
      → s'.users ≡ insert (user_key texts subject) (first_owner subject) s.users
      → OwnedBy none s.users
      → OwnedBy (some subject) s'.users
  owned_first subject s s' users nobody =
      let o = user_key texts subject in
      (
        (
          first_owner subject,
          ground (arith, users, lookup-insert o o (first_owner subject) s.users, same_refl o),
          refl,
          refl,
          refl,
          refl,
        ),
        λ k u h is_owner. elim (found_after o k (first_owner subject) u s (rw (← users) h)) [
          | inr before ↦ absurd cc (is_owner, nobody k u before)
          | inl (at_k, _) ↦ sym at_k
        ],
      )

  Boots-IsGoverned :
      (a : Action) (s s' : Documents) → Boots texts a s s' → IsGoverned s → IsGoverned s'
  Boots-IsGoverned a s s' (subject, fresh, unknown, users, owner, _) g = record {
    keyed = λ k u h.
        elim (found_after (user_key texts subject) k (first_owner subject) u s (rw (← users) h)) [
          | inr before ↦ g.keyed k u before
          | inl (at_k, is_first) ↦ rw is_first at_k
        ];
    owned =
        subst (λ (o : Option String). OwnedBy o s'.users) (sym owner)
          (owned_first subject s s' users
            (subst (λ (o : Option String). OwnedBy o s.users) fresh g.owned));
  }

  run-IsGoverned : (a : Action) (s : Documents) → IsGoverned s → IsGoverned (run texts a s)
  run-IsGoverned a s g = elim (run-Effect texts a s) [
    | inl left ↦ Leaves-IsGoverned s (run texts a s) left g
    | inr (inl (k, u, (users, same), who, rank)) ↦
        edited-IsGoverned k u s (run texts a s) users who same g
    | inr (inr booted) ↦ Boots-IsGoverned a s (run texts a s) booted g
  ]

  bootstrap-run :
      (a : Action) (s : Documents) (subject : String)
      → s.bootstrap ≡ some subject
      → (run texts a s).bootstrap ≡ some subject
  bootstrap-run a s subject h = elim (run-Effect texts a s) [
    | inl left ↦ left.1 ∙ h
    | inr (inl (_, _, (_, same), _, _)) ↦ same ∙ h
    | inr (inr (_, fresh, _, _, _, _)) ↦ absurd cc (fresh, h)
  ]

  run_all-keeps_owner :
      (actions : List Action) (s : Documents) (subject : String)
      → s.bootstrap ≡ some subject
      → (run_all texts actions s).bootstrap ≡ some subject
  run_all-keeps_owner [] s subject h = h
  run_all-keeps_owner (a ∷ actions) s subject h =
      run_all-keeps_owner actions (run texts a s) subject (bootstrap-run a s subject h)

  run_all-keeps :
      (actions : List Action) (s : Documents) → IsGoverned s → IsGoverned (run_all texts actions s)
  run_all-keeps [] s g = g
  run_all-keeps (a ∷ actions) s g = run_all-keeps actions (run texts a s) (run-IsGoverned a s g)

  -- The owner of the documents, if they have one, is the same.
  abbrev pub KeepsOwner : Documents → Documents → Type 0
  KeepsOwner s s' = (s.bootstrap ≡ none) ⊎ (s'.bootstrap ≡ s.bootstrap)

  -- Whatever calls are made after the documents were governed (each user stands under the key of its
  -- subject; before the bootstrap there is no owner, and after it exactly one, the user whose subject
  -- the bootstrap names, who is active and an administrator), they are governed, and a bootstrap that
  -- was made names the same subject: nobody suspends, demotes or replaces the owner.
  pub run_all-IsGoverned :
      (actions : List Action) (s : Documents)
      → IsGoverned s
      → IsGoverned (run_all texts actions s) × KeepsOwner s (run_all texts actions s)
  run_all-IsGoverned actions s g = (
    run_all-keeps actions s g,
    elim (Option-cases s.bootstrap) [
      | inl nobody ↦ inl nobody
      | inr (subject, h) ↦ inr (run_all-keeps_owner actions s subject h ∙ sym h)
    ],
  )

  rank_of :
      (a : Action) (s : Documents) (o : Option User) (v : User) (k : String)
      → lookup k s.users ≡ o
      → KeepsRank texts a s o v
      → v.platform_admin ≡ true
      → ((old : User) × (lookup k s.users ≡ some old) × (old.platform_admin ≡ true))
        ⊎ MayAppoint texts a s
  rank_of a s none v k e rank admin = absurd cc (rank, admin)
  rank_of a s (some old) v k e (inl same) admin = inl (old, e, sym same ∙ admin)
  rank_of a s (some old) v k e (inr may) admin = inr may

  -- A user who is an administrator after a call was one before, or the call was made by the owner,
  -- active and with a second factor, or it bootstrapped documents that had no owner.
  pub run-appoints :
      (a : Action) (s : Documents) (k : String) (u : User)
      → lookup k (run texts a s).users ≡ some u
      → u.platform_admin ≡ true
      → ((old : User) × (lookup k s.users ≡ some old) × (old.platform_admin ≡ true))
        ⊎ MayAppoint texts a s
  run-appoints a s k u found admin = elim (run-Effect texts a s) [
    | inl (users, _) ↦ inl (u, rw (← users) found, admin)
    | inr (inr booted) ↦ inr booted.5
    | inr (inl (j, v, (users, _), who, rank)) ↦ elim (found_after j k v u s (rw (← users) found)) [
      | inr before ↦ inl (u, before, admin)
      | inl (at_k, is_v) ↦
          rank_of a s (lookup j s.users) v k (rw at_k refl) rank (rw (← is_v) admin)
    ]
  ]
