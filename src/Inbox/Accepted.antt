-- ===== src/Inbox/Accepted.antt =====
-- Accepting an event more than once
-- (services/event-gateway/src/changeops_event_gateway/repository.py, `accept`).
use enterprise_change_ops.Base.{
  String, string_eq, pair_eq, true, ◌≡◌, ◌∙◌, subst, some, Option-cases, inl, inr, arith, Result,
  ok, err, same_refl,
}
use enterprise_change_ops.Base.Dict.{lookup, insert, lookup-insert}
use enterprise_change_ops.Contracts.Models.{Timestamp, ChangeEvent}
use enterprise_change_ops.Contracts.Canonical.{Codec, sha256_digest}
use enterprise_change_ops.Inbox.Models.{EventInboxRecord, InboxAcceptance}
use enterprise_change_ops.Inbox.Repository.{
  Store, InboxError, event_conflict, event_key, new_record, accept,
}

put_here :
    (t k : String) (r : EventInboxRecord) (s : Store) → lookup (t, k) (insert (t, k) r s) ≡ some r
put_here t k r s = lookup-insert (t, k) (t, k) r s ∙ rw (same_refl t, same_refl k)

module _ (codec : Codec) (event : ChangeEvent) where
  -- What the outcome of accepting an event says: the record is stored under the event's key and has
  -- the event's digest; a replay changes nothing.
  abbrev pub Accepts : Store → Result InboxError InboxAcceptance × Store → Type 0
  Accepts s (err e, s') = (e ≡ event_conflict) × (s' ≡ s)
  Accepts s (ok a, s') =
      (lookup (event.tenant_id, event_key codec event) s' ≡ some a.accepted)
      × (a.accepted.input_hash ≡ sha256_digest codec (codec.dump_event event))
      × (a.replayed ≡ true → s' ≡ s)

  accept-Accepts :
      (change_id : String) (now : Timestamp) (s : Store)
      → Accepts s (accept codec event change_id now s)
  unfolding accept
  accept-Accepts change_id now s =
      elim (Option-cases (lookup (event.tenant_id, event_key codec event) s)) [
        | inl absent ↦ ground (
          arith,
          put_here event.tenant_id (event_key codec event) (new_record codec event change_id now) s,
        )
        | inr (r, found) ↦
            ground (
              arith,
              string_eq.same_iff r.input_hash (sha256_digest codec (codec.dump_event event)),
            )
      ]

  replayed :
      (change_id : String) (now : Timestamp) (s : Store) (r : EventInboxRecord)
      → lookup (event.tenant_id, event_key codec event) s ≡ some r
      → r.input_hash ≡ sha256_digest codec (codec.dump_event event)
      → accept codec event change_id now s ≡ (ok (record { accepted = r; replayed = true }), s)
  unfolding accept
  replayed change_id now s r found h =
      ground (arith, string_eq.same_iff r.input_hash (sha256_digest codec (codec.dump_event event)))

  -- An event is accepted once: when a call has accepted it, a further call, with whatever change
  -- identifier and time, answers with the record of the first one and changes nothing.
  pub accept-again :
      (change_id change_id' : String) (now now' : Timestamp) (s s' : Store) (a : InboxAcceptance)
      → accept codec event change_id now s ≡ (ok a, s')
      → accept codec event change_id' now' s'
        ≡ (ok (record { accepted = a.accepted; replayed = true }), s')
  accept-again change_id change_id' now now' s s' a h =
      let (stored, digest, _) = subst (Accepts s) h (accept-Accepts change_id now s) in
      replayed change_id' now' s' a.accepted stored digest
