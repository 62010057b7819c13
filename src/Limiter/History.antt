-- ===== src/Limiter/History.antt =====
-- redis.go, `checkWindow`: the requests of one window, one after the other.
use payment_processing.Prelude.{
  ℕ, ◌/◌, ◌≤◌, ◌<◌, ◌≡◌, refl, Bool, true, false, List, [], ◌∷◌, Bytes, length, if◌then◌else◌,
  arith, Bool-cases, inl, inr, ok, err,
}
use payment_processing.Prelude.Int.{pos, leb_ℤ}
use payment_processing.Domain.{Time, Outcome}
use payment_processing.Limiter.{
  State, second, lookup, value_or, window_key, check_window, next_fault, rate_limit_script,
  live_members,
}
use payment_processing.Limiter.Recorded.{
  Recorded, count_live, count_live-later, Recorded-failed, Recorded-refused, Recorded-accepted,
}

abbrev passed : Outcome (Unit {0}) → Bool
passed (ok _) = true
passed (err e) = false

-- Each time is later than the one before, the first later than `now`.
abbrev pub Increasing : Time → List Time → Type 0
Increasing now [] = Unit
Increasing now (t ∷ ts) = (now < t) × Increasing t ts

abbrev pub last_time : Time → List Time → Time
last_time now [] = now
last_time now (t ∷ ts) = last_time t ts

module _ (id : Bytes) (limit window : ℕ) (suffix : Bytes) where
  -- A request at a time, after those that `done` lists as let pass.
  unfoldable pub step : Time → List Time × State → List Time × State
  unfolding check_window
  step t (done, s) =
      let (r, s') = check_window id (pos limit) window suffix (record s { clock = t }) in
      (if passed r then t ∷ done else done, s')

  unfoldable pub serve : List Time → List Time × State → List Time × State
  unfolding step
  serve [] x = x
  serve (t ∷ ts) x = serve ts (step t x)

  abbrev IsRecorded : Time → List Time × State → Type 0
  IsRecorded now x = Recorded (window_key id suffix) limit window now x.0 x.1

  step-IsRecorded :
      (now t : Time) (x : List Time × State) → now < t → IsRecorded now x → IsRecorded t (step t x)
  unfolding step check_window rate_limit_script
  step-IsRecorded now t (done, s) h r =
      let key = window_key id suffix in
      let live = live_members (t / second) window (value_or [] (lookup t key s.sets)) in
      elim (Bool-cases (next_fault s.faults)) [
        | inl failed ↦
            rw failed (Recorded-failed key limit window now t done s _ (omega arith) refl r)
        | inr quiet ↦ elim (Bool-cases (leb_ℤ (pos limit) (pos (length live)))) [
          | inl full ↦
              rw (quiet, full)
                (Recorded-refused key limit window now t done s _ (omega arith) refl r)
          | inr room ↦
              rw (quiet, room)
                (Recorded-accepted key limit window now t done s _ h refl (ground arith) r)
        ]
      ]

  serve-IsRecorded :
      (now : Time) (ts : List Time) (x : List Time × State)
      → Increasing now ts
      → IsRecorded now x
      → IsRecorded (last_time now ts) (serve ts x)
  unfolding serve
  serve-IsRecorded now [] x h r = r
  serve-IsRecorded now (t ∷ ts) x h r =
      serve-IsRecorded t ts (step t x) h.1 (step-IsRecorded now t x h.0 r)

  start-IsRecorded : (now : Time) (s : State) → s.sets ≡ [] → IsRecorded now ([], s)
  unfolding lookup
  start-IsRecorded now s none_yet = record {
    bound = omega arith;
    past = tt;
    kept = λ t k. omega arith;
    known = λ t k. rw none_yet tt;
  }

  -- Of the requests that one window, with a limit that is not negative, is asked for, one after
  -- the other at rising times, in a Redis that holds no set at first and fails as often as it
  -- likes, no more than the limit have passed in the seconds of the window that end at the last
  -- request, or at any moment after it.
  pub serve-limit :
      (ts : List Time) (s : State) (now : Time)
      → s.sets ≡ []
      → Increasing s.clock ts
      → last_time s.clock ts ≤ now
      → count_live (now / second) window (serve ts ([], s)).0 ≤ limit
  serve-limit ts s now none_yet increasing later =
      let r =
        serve-IsRecorded s.clock ts ([], s) increasing (start-IsRecorded s.clock s none_yet) in
      let last = last_time s.clock ts in
      let fewer =
        count_live-later (last / second) (now / second) window (serve ts ([], s)).0 (omega arith) in
      omega (arith, r.bound, fewer)
