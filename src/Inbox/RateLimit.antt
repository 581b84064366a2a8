-- ===== src/Inbox/RateLimit.antt =====
-- `TenantEventRateLimiter` of services/event-gateway/src/changeops_event_gateway/rate_limit.py.
-- Times are in microseconds.
use enterprise_change_ops.Base.{
  ℕ, suc, ◌+◌, ◌≤◌, ◌<◌, String, string_eq, ◌≡◌, refl, subst, leb, ◌==◌, if◌then◌else◌, Option,
  none, some, List, [], ◌∷◌, ◌++◌, length, arith, Result, ok, err,
}
use enterprise_change_ops.Base.Dict.{Dict, lookup, insert, lookup-insert}
use enterprise_change_ops.Contracts.Models.{Timestamp}

pub data RateError : Type 0 where
  rate_limited : RateError

abbrev pub minute : ℕ
minute = 60_000_000

abbrev or_empty : Option (List Timestamp) → List Timestamp
or_empty none = []
or_empty (some ts) = ts

abbrev pub events_of : String → Dict String (List Timestamp) → List Timestamp
events_of t s = or_empty (lookup t s)

-- The loop that pops the events of a minute ago and older: `events[0] <= now - 1 min`, without the
-- subtraction.
abbrev pub expire : Timestamp → List Timestamp → List Timestamp
expire now [] = []
expire now (x ∷ xs) = let rest = expire now xs in if leb (x + minute) now then rest else x ∷ xs

-- The events that have expired stay popped also where the call raises.
unfoldable pub acquire :
    ℕ
    → String
    → Timestamp
    → Dict String (List Timestamp)
    → Result RateError (Unit {0}) × Dict String (List Timestamp)
acquire limit t now s =
    let events = expire now (events_of t s) in
    if leb limit (length events)
    then (err rate_limited, insert t events s)
    else (ok tt, insert t (events ++ now ∷ []) s)

-- The clock, the state, and the events that were let in, the last one first.
pub data Run (limit : ℕ)
    : Timestamp → Dict String (List Timestamp) → List (String × Timestamp) → Type 0 where
  started : Run limit 0 [] []
  let_in :
      (t : String) (now c : Timestamp) (s s' : Dict String (List Timestamp))
      (log : List (String × Timestamp))
      → Run limit c s log
      → c ≤ now
      → acquire limit t now s ≡ (ok tt, s')
      → Run limit now s' ((t, now) ∷ log)
  refused :
      (t : String) (e : RateError) (now c : Timestamp) (s s' : Dict String (List Timestamp))
      (log : List (String × Timestamp))
      → Run limit c s log
      → c ≤ now
      → acquire limit t now s ≡ (err e, s')
      → Run limit now s' log

-- How many of the times lie in the minute before `now`.
abbrev live : Timestamp → List Timestamp → ℕ
live now [] = 0
live now (x ∷ xs) = let rest = live now xs in if leb (x + minute) now then rest else suc rest

-- How many of a tenant's events were let in during the minute before `now`.
abbrev pub recent : String → Timestamp → List (String × Timestamp) → ℕ
recent t now [] = 0
recent t now ((u, x) ∷ log) =
    let rest = recent t now log in
    if u == t then (if leb (x + minute) now then rest else suc rest) else rest

live-length : (now : Timestamp) (xs : List Timestamp) → live now xs ≤ length xs
live-length now [] = omega arith
live-length now (x ∷ xs) = ground (arith, live-length now xs)

live-expire :
    (now later : Timestamp) (xs : List Timestamp)
    → now ≤ later
    → live later (expire now xs) ≡ live later xs
live-expire now later [] h = refl
live-expire now later (x ∷ xs) h = ground (arith, live-expire now later xs h)

expire-length : (now : Timestamp) (xs : List Timestamp) → length (expire now xs) ≤ length xs
expire-length now [] = omega arith
expire-length now (x ∷ xs) = ground (arith, expire-length now xs)

length-append_one : (xs : List Timestamp) (x : Timestamp) → length (xs ++ x ∷ []) ≡ suc (length xs)
length-append_one [] x = refl
length-append_one (y ∷ ys) x = ground (arith, length-append_one ys x)

live-append_one :
    (now x : Timestamp) (xs : List Timestamp)
    → live now (xs ++ x ∷ []) ≡ (if leb (x + minute) now then live now xs else suc (live now xs))
live-append_one now x [] = refl
live-append_one now x (y ∷ ys) = ground (arith, live-append_one now x ys)

events-insert :
    (t u : String) (xs : List Timestamp) (s : Dict String (List Timestamp))
    → events_of u (insert t xs s) ≡ (if t == u then xs else events_of u s)
events-insert t u xs s = ground (arith, lookup-insert t u xs s)

-- What a call does to the events of a tenant.
abbrev Acquires :
    ℕ
    → String
    → Timestamp
    → String
    → Dict String (List Timestamp)
    → Result RateError (Unit {0}) × Dict String (List Timestamp)
    → Type 0
Acquires limit t now u s (ok _, s') =
    (length (expire now (events_of t s)) < limit)
    × (events_of u s' ≡ (if t == u then expire now (events_of u s) ++ now ∷ [] else events_of u s))
Acquires limit t now u s (err _, s') =
    events_of u s' ≡ (if t == u then expire now (events_of u s) else events_of u s)

acquire-Acquires :
    (limit : ℕ) (t : String) (now : Timestamp) (u : String) (s : Dict String (List Timestamp))
    → Acquires limit t now u s (acquire limit t now s)
unfolding acquire
acquire-Acquires limit t now u s = ground (
  arith,
  string_eq.same_iff t u,
  events-insert t u (expire now (events_of t s)) s,
  events-insert t u (expire now (events_of t s) ++ now ∷ []) s,
)

Run-tracked :
    (limit : ℕ) (t : String) (c later : Timestamp) (s : Dict String (List Timestamp))
    (log : List (String × Timestamp))
    → Run limit c s log
    → c ≤ later
    → (recent t later log ≡ live later (events_of t s)) × (length (events_of t s) ≤ limit)
unfolding lookup
Run-tracked limit t _ later _ _ started after = (refl, omega arith)
Run-tracked limit t _ later _ _ (let_in u now c s s' log run later_than h) after =
    let (same, bound) = Run-tracked limit t c later s log run (omega (arith, later_than, after)) in
    let facts = subst (Acquires limit u now t s) h (acquire-Acquires limit u now t s) in
    ground (
      arith,
      string_eq.same_iff u t,
      live-expire now later (events_of t s),
      live-append_one later now (expire now (events_of t s)),
      length-append_one (expire now (events_of t s)) now,
    )
Run-tracked limit t _ later _ _ (refused u e now c s s' log run later_than h) after =
    let (same, bound) = Run-tracked limit t c later s log run (omega (arith, later_than, after)) in
    let facts = subst (Acquires limit u now t s) h (acquire-Acquires limit u now t s) in
    ground (
      arith,
      string_eq.same_iff u t,
      live-expire now later (events_of t s),
      expire-length now (events_of t s),
    )

-- Whatever calls were made for whatever tenants, with a clock that does not go back, no tenant has
-- more than the limit of events let in during the minute before the last call or before any later
-- time.
pub acquire-limits :
    (limit : ℕ) (t : String) (c later : Timestamp) (s : Dict String (List Timestamp))
    (log : List (String × Timestamp))
    → Run limit c s log
    → c ≤ later
    → recent t later log ≤ limit
acquire-limits limit t c later s log run after =
    let (same, bound) = Run-tracked limit t c later s log run after in
    omega (arith, same, bound, live-length later (events_of t s))
