-- ===== src/Inbox/Published.antt =====
-- Publishing an accepted event
-- (services/event-gateway/src/changeops_event_gateway/repository.py, `reserve_publish`,
-- `mark_published`, `mark_publish_failed` and `_finish_publish`).
use enterprise_change_ops.Base.{
  ◌+◌, ◌<◌, String, string_eq, pair_eq, nat_eq, ◌≡◌, ◌≢◌, ◌⊎◌, inl, inr, refl, ◌∙◌, sym, ap, subst,
  some_inj, Option, none, some, arith, Result, ok, err, same_refl,
}
use enterprise_change_ops.Base.Dict.{lookup, insert, lookup-insert}
use enterprise_change_ops.Contracts.Models.{Timestamp}
use enterprise_change_ops.Inbox.Models.{
  InboxStatus-discrete, publishing, published, inbox_status_eq, EventInboxRecord,
}
use enterprise_change_ops.Inbox.Repository.{
  Store, InboxError, stale_reservation, publishing_again, thirty_seconds, reserve_publish, Finish,
  ended, finish_publish, mark_published,
}

put_here :
    (t k : String) (r : EventInboxRecord) (s : Store) → lookup (t, k) (insert (t, k) r s) ≡ some r
put_here t k r s = lookup-insert (t, k) (t, k) r s ∙ rw (same_refl t, same_refl k)

module _ (t k : String) where
  -- What a call of `reserve_publish` says: it gives nothing and changes nothing, or it gives a new
  -- reservation of the stored record, and stores it.
  abbrev pub Reserves :
      Timestamp → Store → Result InboxError (Option EventInboxRecord) × Store → Type 0
  Reserves now s (err e, s') = s' ≡ s
  Reserves now s (ok none, s') = s' ≡ s
  Reserves now s (ok (some r), s') =
      (lookup (t, k) s' ≡ some r)
      × (r.status ≡ publishing)
      × (r.updated_at ≡ now)
      × ((before : EventInboxRecord) × (lookup (t, k) s ≡ some before)
          × (r.version ≡ before.version + 1))

  reserve_known :
      (now : Timestamp) (s : Store) (o : Option EventInboxRecord)
      → lookup (t, k) s ≡ o
      → Reserves now s (reserve_publish t k now s)
  unfolding reserve_publish
  reserve_known now s none h = ground arith
  reserve_known now s (some current) h =
      ground (arith, put_here t k (publishing_again current now) s)

  pub reserve_publish-Reserves :
      (now : Timestamp) (s : Store) → Reserves now s (reserve_publish t k now s)
  reserve_publish-Reserves now s = reserve_known now s (lookup (t, k) s) refl

  pub held_back :
      (now : Timestamp) (s : Store) (r : EventInboxRecord)
      → lookup (t, k) s ≡ some r
      → (r.status ≡ published) ⊎ ((r.status ≡ publishing) × (now < r.updated_at + thirty_seconds))
      → reserve_publish t k now s ≡ (ok none, s)
  unfolding reserve_publish InboxStatus-discrete
  held_back now s r found (inl p) = ground arith
  held_back now s r found (inr (p, early)) = ground arith

  pub finish_stale :
      (q : Finish) (s : Store) (r : EventInboxRecord)
      → lookup (t, k) s ≡ some r
      → (r.version ≢ q.expected_version) ⊎ (r.status ≢ publishing)
      → finish_publish t k q s ≡ (err stale_reservation, s)
  unfolding finish_publish
  finish_stale q s r found (inl n) = ground arith
  finish_stale q s r found (inr n) = ground (arith, inbox_status_eq.same_iff r.status publishing)

  finish_live :
      (q : Finish) (s : Store) (r : EventInboxRecord)
      → lookup (t, k) s ≡ some r
      → r.status ≡ publishing
      → r.version ≡ q.expected_version
      → finish_publish t k q s ≡ (ok (ended r q), insert (t, k) (ended r q) s)
  unfolding finish_publish InboxStatus-discrete
  finish_live q s r found p v = ground arith

  -- A publisher that comes late cannot overwrite the next one's reservation: when the event has
  -- been reserved again, ending the first reservation raises and changes nothing.
  pub late_publisher-refused :
      (now now' : Timestamp) (q : Finish) (s s' s'' : Store) (r r' : EventInboxRecord)
      → reserve_publish t k now s ≡ (ok (some r), s')
      → reserve_publish t k now' s' ≡ (ok (some r'), s'')
      → q.expected_version ≡ r.version
      → finish_publish t k q s'' ≡ (err stale_reservation, s'')
  late_publisher-refused now now' q s s' s'' r r' h h' v =
      let first = subst (Reserves now s) h (reserve_publish-Reserves now s) in
      let second = subst (Reserves now' s') h' (reserve_publish-Reserves now' s') in
      let (before, found, next) = second.3 in
      let same_version : r.version ≡ before.version =
        ap (λ (x : EventInboxRecord). x.version) (some_inj (sym first.0 ∙ found)) in
      finish_stale q s'' r' second.0 (inl (λ e. omega (arith, e, v, next, same_version)))

  -- A reserved event that is marked as published is stored with its message, and is never given to
  -- a publisher again.
  pub mark_published-final :
      (now now' now'' : Timestamp) (message_id : String) (s s' : Store) (r : EventInboxRecord)
      → reserve_publish t k now s ≡ (ok (some r), s')
      → (done : EventInboxRecord) × (s'' : Store) × (mark_published t k r.version message_id now' s'
          ≡ (ok done, s''))
        × (done.pubsub_message_id ≡ some message_id)
        × (lookup (t, k) s'' ≡ some done)
        × (reserve_publish t k now'' s'' ≡ (ok none, s''))
  unfolding mark_published
  mark_published-final now now' now'' message_id s s' r h =
      let granted = subst (Reserves now s) h (reserve_publish-Reserves now s) in
      let q : Finish = record {
        expected_version = r.version;
        status = published;
        message_id = some message_id;
        error_code = none;
        now = now';
      } in
      (
        ended r q,
        insert (t, k) (ended r q) s',
        finish_live q s' r granted.0 granted.1 refl,
        refl,
        put_here t k (ended r q) s',
        held_back now'' (insert (t, k) (ended r q) s') (ended r q) (put_here t k (ended r q) s')
            (inl refl),
      )
