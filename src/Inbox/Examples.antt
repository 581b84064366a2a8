-- ===== src/Inbox/Examples.antt =====
-- The theorems on the event gateway at a concrete event.
use enterprise_change_ops.Base.{
  List, inr, ◌≤◌, string_eq, pair_eq, ◌≡◌, refl, true, false, [], ◌∷◌, none, some, ok, err, arith,
}
use enterprise_change_ops.Base.Dict.{lookup, insert}
use enterprise_change_ops.Contracts.Samples.{sample_codec, sample_event}
use enterprise_change_ops.Inbox.Models.{InboxStatus-discrete, published, EventInboxRecord}
use enterprise_change_ops.Inbox.Repository.{
  Store, event_key, new_record, accept, reserve_publish, publishing_again, mark_published,
  finish_publish, Finish, stale_reservation,
}
use enterprise_change_ops.Inbox.Accepted.{accept-again}
use enterprise_change_ops.Inbox.Published.{late_publisher-refused, mark_published-final}
use enterprise_change_ops.Inbox.Exclusion.{
  Step, accepting, reserving, marking_failed, run_all, reserve_publish-exclusive,
}
use enterprise_change_ops.Inbox.RateLimit.{acquire, Run, started, let_in, recent, acquire-limits}

abbrev arrived : EventInboxRecord
arrived = new_record sample_codec sample_event "chg-1" 10

abbrev inbox : Store
inbox = (("acme", event_key sample_codec sample_event), arrived) ∷ []

accepted :
    accept sample_codec sample_event "chg-1" 10 []
    ≡ (ok (record { accepted = arrived; replayed = false }), inbox)
unfolding accept event_key lookup insert
accepted = refl

accept-again_example :
    accept sample_codec sample_event "chg-2" 99 inbox
    ≡ (ok (record { accepted = arrived; replayed = true }), inbox)
accept-again_example =
    accept-again sample_codec sample_event "chg-1" "chg-2" 10 99 [] inbox
      (record { accepted = arrived; replayed = false }) accepted

abbrev waiting : Store
waiting = (("acme", "event-key"), arrived) ∷ []

abbrev once : EventInboxRecord
once = publishing_again arrived 20

abbrev taken_once : Store
taken_once = (("acme", "event-key"), once) ∷ []

abbrev twice : EventInboxRecord
twice = publishing_again once 40_000_000

abbrev taken_twice : Store
taken_twice = (("acme", "event-key"), twice) ∷ []

first : reserve_publish "acme" "event-key" 20 waiting ≡ (ok (some once), taken_once)
unfolding reserve_publish lookup insert InboxStatus-discrete
first = refl

second : reserve_publish "acme" "event-key" 40_000_000 taken_once ≡ (ok (some twice), taken_twice)
unfolding reserve_publish lookup insert InboxStatus-discrete
second = refl

-- Between the two reservations the event is asked for, an older publisher fails, and an event comes.
abbrev between : List Step
between =
    reserving "acme" "event-key" 900
    ∷ marking_failed "acme" "event-key" 1 "PUBLISH_FAILED" 950
    ∷ accepting sample_event "chg-1" 960
    ∷ []

reserve_publish-exclusive_example :
    reserve_publish "acme" "event-key" 1_000 (run_all sample_codec between taken_once)
    ≡ (ok none, run_all sample_codec between taken_once)
reserve_publish-exclusive_example =
    reserve_publish-exclusive sample_codec "acme" "event-key" 20 1_000 waiting taken_once once
      between first (inr (omega arith), (inr (λ e. omega (arith, e)), (tt, tt))) (omega arith)

abbrev late : Finish
late = record {
  expected_version = 2;
  status = published;
  message_id = some "message-1";
  error_code = none;
  now = 40_000_001;
}

late_publisher-refused_example :
    finish_publish "acme" "event-key" late taken_twice ≡ (err stale_reservation, taken_twice)
late_publisher-refused_example =
    late_publisher-refused "acme" "event-key" 20 40_000_000 late waiting taken_once taken_twice once
      twice first second refl

mark_published-final_example :
    (done : EventInboxRecord) × (s : Store) × (mark_published "acme" "event-key" 2 "message-1" 30
        taken_once
      ≡ (ok done, s))
    × (done.pubsub_message_id ≡ some "message-1")
    × (lookup ("acme", "event-key") s ≡ some done)
    × (reserve_publish "acme" "event-key" 90_000_000 s ≡ (ok none, s))
mark_published-final_example =
    mark_published-final "acme" "event-key" 20 30 90_000_000 "message-1" waiting taken_once once
      first

one_event : Run 1 70_000_000 (("acme", 70_000_000 ∷ []) ∷ []) (("acme", 70_000_000) ∷ [])
unfolding acquire lookup insert
one_event =
    let_in "acme" 70_000_000 0 [] (("acme", 70_000_000 ∷ []) ∷ []) [] started (omega arith) refl

acquire-limits_example : recent "acme" 75_000_000 (("acme", 70_000_000) ∷ []) ≤ 1
acquire-limits_example =
    acquire-limits 1 "acme" 70_000_000 75_000_000 (("acme", 70_000_000 ∷ []) ∷ [])
      (("acme", 70_000_000) ∷ []) one_event (omega arith)
