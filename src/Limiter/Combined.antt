-- ===== src/Limiter/Combined.antt =====
-- redis.go, `CheckRateLimit`: the three windows of a request together.
use payment_processing.Prelude.{
  ◌≡◌, ◌⊎◌, refl, sym, ap, ◌∙◌, subst, Bool, true, false, ◌&&◌, [], Bytes, eq_bytes, codes, ok, err,
  Bool-cases, inl, inr,
}
use payment_processing.Domain.{Outcome, rate_limited}
use payment_processing.Limiter.{
  State, Limits, members_of, window_key, and_check, check_window, check_rate_limit,
}
use payment_processing.Limiter.Windows.{with_request}
use payment_processing.Limiter.Passing.{
  has_room, counted, passes, refuses, counted-own, counted-other, with_member, room_in,
  refused-first, passed-first,
}

module _ (limits : Limits) (id : Bytes) (s : State) where
  abbrev pub all_rooms : Bool
  all_rooms =
      has_room id limits.rate_limit_min 60 (codes "min") s
      && has_room id limits.rate_limit_hour 3600 (codes "hour") s
      && has_room id limits.rate_limit_day 86400 (codes "day") s

  -- The request is in each of the three windows.
  pub record IsCounted (s' : State) : Type 0 where
    pub minute : members_of (window_key id (codes "min")) s' ≡ with_request id 60 (codes "min") s
    pub hour : members_of (window_key id (codes "hour")) s' ≡ with_request id 3600 (codes "hour") s
    pub day : members_of (window_key id (codes "day")) s' ≡ with_request id 86400 (codes "day") s

  abbrev after_minute : State
  after_minute = counted id 60 (codes "min") s

  abbrev after_hour : State
  after_hour = counted id 3600 (codes "hour") after_minute

  abbrev after_day : State
  after_day = counted id 86400 (codes "day") after_hour

  hour_before :
      members_of (window_key id (codes "hour")) after_minute
      ≡ members_of (window_key id (codes "hour")) s
  unfolding eq_bytes
  hour_before = counted-other id 60 (codes "min") s (codes "hour") refl

  day_before :
      members_of (window_key id (codes "day")) after_hour
      ≡ members_of (window_key id (codes "day")) s
  unfolding eq_bytes
  day_before =
      counted-other id 3600 (codes "hour") after_minute (codes "day") refl
      ∙ counted-other id 60 (codes "min") s (codes "day") refl

  day-IsCounted : IsCounted after_day
  unfolding eq_bytes
  day-IsCounted = record {
    minute =
        counted-other id 86400 (codes "day") after_hour (codes "min") refl
        ∙ counted-other id 3600 (codes "hour") after_minute (codes "min") refl
        ∙ counted-own id 60 (codes "min") s;
    hour =
        counted-other id 86400 (codes "day") after_hour (codes "hour") refl
        ∙ counted-own id 3600 (codes "hour") after_minute
        ∙ ap (with_member 3600 s.clock) hour_before;
    day = counted-own id 86400 (codes "day") after_hour ∙ ap (with_member 86400 s.clock) day_before;
  }

  abbrev day_check : State → Outcome (Unit {0}) × State
  day_check s2 = check_window id limits.rate_limit_day 86400 (codes "day") s2

  abbrev hour_check : State → Outcome (Unit {0}) × State
  hour_check s1 = check_window id limits.rate_limit_hour 3600 (codes "hour") s1

  module _ (quiet : s.faults ≡ []) where
    minute_refuses :
        has_room id limits.rate_limit_min 60 (codes "min") s ≡ false
        → (check_rate_limit limits id s).0 ≡ err rate_limited
    unfolding check_rate_limit
    minute_refuses full =
        refused-first (check_window id limits.rate_limit_min 60 (codes "min") s)
          (λ s1. and_check (hour_check s1) day_check)
          (refuses id limits.rate_limit_min 60 (codes "min") s quiet full)

    minute_passes :
        has_room id limits.rate_limit_min 60 (codes "min") s ≡ true
        → check_rate_limit limits id s ≡ and_check (hour_check after_minute) day_check
    unfolding check_rate_limit
    minute_passes room =
        passed-first (check_window id limits.rate_limit_min 60 (codes "min") s)
          (λ s1. and_check (hour_check s1) day_check)
          (passes id limits.rate_limit_min 60 (codes "min") s quiet room)

    hour_refuses :
        has_room id limits.rate_limit_hour 3600 (codes "hour") s ≡ false
        → (and_check (hour_check after_minute) day_check).0 ≡ err rate_limited
    hour_refuses full = refused-first (hour_check after_minute) day_check (
        refuses id limits.rate_limit_hour 3600 (codes "hour") after_minute refl
          (ap (room_in limits.rate_limit_hour 3600 s.clock) hour_before ∙ full))

    hour_passes :
        has_room id limits.rate_limit_hour 3600 (codes "hour") s ≡ true
        → and_check (hour_check after_minute) day_check ≡ day_check after_hour
    hour_passes room = passed-first (hour_check after_minute) day_check (
        passes id limits.rate_limit_hour 3600 (codes "hour") after_minute refl
          (ap (room_in limits.rate_limit_hour 3600 s.clock) hour_before ∙ room))

    day_refuses :
        has_room id limits.rate_limit_day 86400 (codes "day") s ≡ false
        → (day_check after_hour).0 ≡ err rate_limited
    day_refuses full =
        refuses id limits.rate_limit_day 86400 (codes "day") after_hour refl
          (ap (room_in limits.rate_limit_day 86400 s.clock) day_before ∙ full)

    day_passes :
        has_room id limits.rate_limit_day 86400 (codes "day") s ≡ true
        → day_check after_hour ≡ (ok tt, after_day)
    day_passes room =
        passes id limits.rate_limit_day 86400 (codes "day") after_hour refl
          (ap (room_in limits.rate_limit_day 86400 s.clock) day_before ∙ room)

  abbrev outcome : Outcome (Unit {0}) × State → Outcome (Unit {0})
  outcome ran = ran.0

  -- Where Redis does not fail, a request passes exactly if each of the three windows of its
  -- user, of 60, 3600 and 86400 seconds, holds fewer requests than its own limit, those too old
  -- not counted; the request is then recorded in all three. Else it is refused as rate limited.
  pub check_rate_limit-decides :
      s.faults ≡ []
      → let ran = check_rate_limit limits id s in
        ((all_rooms ≡ true) × (ran.0 ≡ ok tt) × IsCounted ran.1)
        ⊎ ((all_rooms ≡ false) × (ran.0 ≡ err rate_limited))
  check_rate_limit-decides quiet =
      elim (Bool-cases (has_room id limits.rate_limit_min 60 (codes "min") s)) [
        | inr full ↦ inr (rw full refl, minute_refuses quiet full)
        | inl room1 ↦ elim (Bool-cases (has_room id limits.rate_limit_hour 3600 (codes "hour") s)) [
          | inr full ↦ inr (
            rw (room1, full) refl,
            ap outcome (minute_passes quiet room1) ∙ hour_refuses quiet full,
          )
          | inl room2 ↦
              let second_passed = minute_passes quiet room1 ∙ hour_passes quiet room2 in
              elim (Bool-cases (has_room id limits.rate_limit_day 86400 (codes "day") s)) [
                | inr full ↦ inr (
                  rw (room1, room2, full) refl,
                  ap outcome second_passed ∙ day_refuses quiet full,
                )
                | inl room3 ↦
                    let whole = second_passed ∙ day_passes quiet room3 in
                    inl (
                      rw (room1, room2, room3) refl,
                      ap outcome whole,
                      subst IsCounted (sym (ap (λ (r : Outcome (Unit {0}) × State). r.1) whole))
                          day-IsCounted,
                    )
              ]
        ]
      ]
