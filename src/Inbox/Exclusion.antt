-- ===== src/Inbox/Exclusion.antt =====
-- One publisher at a time, whatever other calls run between
-- (services/event-gateway/src/changeops_event_gateway/repository.py, `reserve_publish`).
use enterprise_change_ops.Base.{
  ℕ, ◌+◌, ◌<◌, String, string_eq, pair_eq, ◌==◌, ◌≡◌, ◌≢◌, ◌⊎◌, inl, inr, subst, Bool-cases,
  Option-cases, none, some, List, [], ◌∷◌, All, ok, arith,
}
use enterprise_change_ops.Base.Dict.{lookup, insert, lookup-insert}
use enterprise_change_ops.Contracts.Models.{Timestamp, ChangeEvent}
use enterprise_change_ops.Contracts.Canonical.{Codec}
use enterprise_change_ops.Inbox.Models.{publishing, EventInboxRecord}
use enterprise_change_ops.Inbox.Repository.{
  new_record, Store, Finish, ended, publishing_again, thirty_seconds, event_key, accept,
  reserve_publish, finish_publish, mark_published, mark_publish_failed,
}
use enterprise_change_ops.Inbox.Published.{
  Reserves, reserve_publish-Reserves, held_back, finish_stale,
}

-- The calls of the inbox.
pub data Step : Type 0 where
  accepting : ChangeEvent → String → Timestamp → Step
  reserving : String → String → Timestamp → Step
  marking_published : String → String → ℕ → String → Timestamp → Step
  marking_failed : String → String → ℕ → String → Timestamp → Step

abbrev pub run : Codec → Step → Store → Store
run codec (accepting event change_id now) s = (accept codec event change_id now s).1
run codec (reserving t k now) s = (reserve_publish t k now s).1
run codec (marking_published t k version id now) s = (mark_published t k version id now s).1
run codec (marking_failed t k version code now) s = (mark_publish_failed t k version code now s).1

abbrev pub run_all : Codec → List Step → Store → Store
run_all codec [] s = s
run_all codec (a ∷ steps) s = run_all codec steps (run codec a s)

-- Another event's key.
abbrev IsOther : String → String → String → String → Type 0
IsOther t' k' t k = (t' ≢ t) ⊎ (k' ≢ k)

module _ (t k : String) (r : EventInboxRecord) where
  -- The call is of another event, or an acceptance, or a reservation before the thirty seconds are over,
  -- or the end of a publication for another version.
  abbrev pub Spares : Step → Type 0
  Spares (accepting event change_id now) = Unit
  Spares (reserving t' k' now) = IsOther t' k' t k ⊎ (now < r.updated_at + thirty_seconds)
  Spares (marking_published t' k' version id now) = IsOther t' k' t k ⊎ (r.version ≢ version)
  Spares (marking_failed t' k' version code now) = IsOther t' k' t k ⊎ (r.version ≢ version)

key_cases : (t' k' t k : String) → ((t' ≡ t) × (k' ≡ k)) ⊎ IsOther t' k' t k
key_cases t' k' t k = elim (Bool-cases (t' == t)) [
  | inr e ↦ inr (inl λ same. ground (arith, string_eq.same_iff t' t))
  | inl e ↦ elim (Bool-cases (k' == k)) [
    | inr e' ↦ inr (inr λ same. ground (arith, string_eq.same_iff k' k))
    | inl e' ↦ inl ((string_eq.same_iff t' t).0 e, (string_eq.same_iff k' k).0 e')
  ]
]

module _ (codec : Codec) (t k : String) (r : EventInboxRecord) where
  insert-other :
      (t' k' : String) (v : EventInboxRecord) (s : Store)
      → IsOther t' k' t k
      → lookup (t, k) s ≡ some r
      → lookup (t, k) (insert (t', k') v s) ≡ some r
  insert-other t' k' v s (inl n) h =
      ground (arith, lookup-insert (t', k') (t, k) v s, string_eq.same_iff t' t)
  insert-other t' k' v s (inr n) h =
      ground (arith, lookup-insert (t', k') (t, k) v s, string_eq.same_iff k' k)

  -- An event that is not known is not the one that is stored.
  unknown-IsOther :
      (t' k' : String) (s : Store)
      → lookup (t, k) s ≡ some r
      → lookup (t', k') s ≡ none
      → IsOther t' k' t k
  unknown-IsOther t' k' s h unknown = elim (key_cases t' k' t k) [
    | inr other ↦ other
    | inl (tenant, key) ↦ let found : lookup (t', k') s ≡ some r = rw (tenant, key) h in absurd cc
  ]

  accept-keeps :
      (event : ChangeEvent) (change_id : String) (now : Timestamp) (s : Store)
      → lookup (t, k) s ≡ some r
      → lookup (t, k) (accept codec event change_id now s).1 ≡ some r
  unfolding accept
  accept-keeps event change_id now s h =
      elim (Option-cases (lookup (event.tenant_id, event_key codec event) s)) [
        | inl unknown ↦ rw unknown (
            insert-other event.tenant_id (event_key codec event)
              (new_record codec event change_id now) s
              (unknown-IsOther event.tenant_id (event_key codec event) s h unknown) h)
        | inr (existing, found) ↦ ground arith
      ]

  reserve-keeps :
      (t' k' : String) (now : Timestamp) (s : Store)
      → lookup (t, k) s ≡ some r
      → IsOther t' k' t k
      → lookup (t, k) (reserve_publish t' k' now s).1 ≡ some r
  unfolding reserve_publish
  reserve-keeps t' k' now s h other = elim (Option-cases (lookup (t', k') s)) [
    | inl unknown ↦ ground arith
    | inr (current, found) ↦
        ground (arith, insert-other t' k' (publishing_again current now) s other h)
  ]

  finish-keeps :
      (t' k' : String) (q : Finish) (s : Store)
      → lookup (t, k) s ≡ some r
      → IsOther t' k' t k
      → lookup (t, k) (finish_publish t' k' q s).1 ≡ some r
  unfolding finish_publish
  finish-keeps t' k' q s h other = elim (Option-cases (lookup (t', k') s)) [
    | inl unknown ↦ ground arith
    | inr (current, found) ↦ ground (arith, insert-other t' k' (ended current q) s other h)
  ]

  finish-spared :
      (t' k' : String) (q : Finish) (s : Store)
      → lookup (t, k) s ≡ some r
      → IsOther t' k' t k ⊎ (r.version ≢ q.expected_version)
      → lookup (t, k) (finish_publish t' k' q s).1 ≡ some r
  finish-spared t' k' q s h (inl other) = finish-keeps t' k' q s h other
  finish-spared t' k' q s h (inr stale) = elim (key_cases t' k' t k) [
    | inr other ↦ finish-keeps t' k' q s h other
    | inl (tenant, key) ↦ rw (tenant, key) (rw (finish_stale t k q s r h (inl stale)) h)
  ]

  reserve-spared :
      (t' k' : String) (now : Timestamp) (s : Store)
      → r.status ≡ publishing
      → lookup (t, k) s ≡ some r
      → IsOther t' k' t k ⊎ (now < r.updated_at + thirty_seconds)
      → lookup (t, k) (reserve_publish t' k' now s).1 ≡ some r
  reserve-spared t' k' now s held h (inl other) = reserve-keeps t' k' now s h other
  reserve-spared t' k' now s held h (inr early) = elim (key_cases t' k' t k) [
    | inr other ↦ reserve-keeps t' k' now s h other
    | inl (tenant, key) ↦ rw (tenant, key) (rw (held_back t k now s r h (inr (held, early))) h)
  ]

  run-keeps :
      (a : Step) (s : Store)
      → r.status ≡ publishing
      → Spares t k r a
      → lookup (t, k) s ≡ some r
      → lookup (t, k) (run codec a s) ≡ some r
  unfolding mark_published mark_publish_failed
  run-keeps (accepting event change_id now) s held spares h = accept-keeps event change_id now s h
  run-keeps (reserving t' k' now) s held spares h = reserve-spared t' k' now s held h spares
  run-keeps (marking_published t' k' version id now) s held spares h =
      finish-spared t' k' _ s h spares
  run-keeps (marking_failed t' k' version code now) s held spares h =
      finish-spared t' k' _ s h spares

  run_all-keeps :
      (steps : List Step) (s : Store)
      → r.status ≡ publishing
      → All (Spares t k r) steps
      → lookup (t, k) s ≡ some r
      → lookup (t, k) (run_all codec steps s) ≡ some r
  run_all-keeps [] s held spares h = h
  run_all-keeps (a ∷ steps) s held (spared, spares) h =
      run_all-keeps steps (run codec a s) held spares (run-keeps a s held spared h)

-- No two publishers hold one event. After a reservation let calls of the inbox run, each of them of
-- another event, or an acceptance, or a reservation within thirty seconds of the first, or the end of
-- a publication for another version than the reserved one. Then a call of `reserve_publish` for the
-- event within the thirty seconds gives nothing and changes nothing.
pub reserve_publish-exclusive :
    (codec : Codec) (t k : String) (now now' : Timestamp) (s s' : Store) (r : EventInboxRecord)
    (steps : List Step)
    → reserve_publish t k now s ≡ (ok (some r), s')
    → All (Spares t k r) steps
    → now' < now + thirty_seconds
    → reserve_publish t k now' (run_all codec steps s') ≡ (ok none, run_all codec steps s')
reserve_publish-exclusive codec t k now now' s s' r steps h spares early =
    let granted = subst (Reserves t k now s) h (reserve_publish-Reserves t k now s) in
    held_back t k now' (run_all codec steps s') r
      (run_all-keeps codec t k r steps s' granted.1 spares granted.0)
      (inr (granted.1, rw granted.2 early))
