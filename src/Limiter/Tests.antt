-- ===== src/Limiter/Tests.antt =====
-- A window of one request a minute, asked twice, and the three windows together.
use payment_processing.Prelude.{
  ℕ, List, arith, ◌≤◌, ◌≡◌, ◌⊎◌, refl, true, false, [], ◌∷◌, codes, eq_bytes, length, ok, err,
}
use payment_processing.Prelude.Int.{pos, leb_ℤ}
use payment_processing.Decimal.{digits}
use payment_processing.Domain.{rate_limited}
use payment_processing.Limiter.{
  State, Limits, members_of, window_key, check_window, check_rate_limit,
}
use payment_processing.Limiter.Windows.{live_in, with_request, check_window-limit}
use payment_processing.Limiter.Recorded.{count_live}
use payment_processing.Limiter.History.{serve, serve-limit}
use payment_processing.Limiter.Combined.{all_rooms, IsCounted, check_rate_limit-decides}
use payment_processing.Limiter.{rate_limit_script, lookup, store, zadd, live_members}

abbrev at_start : State
at_start = record { sets = []; flags = []; clock = 5000000000; faults = [] }

abbrev once : State
once = (check_window (codes "u") (pos 1) 60 (codes "min") at_start).1

check_window-limit_example :
    let ran = check_window (codes "u") (pos 1) 60 (codes "min") at_start in
    let live = live_in (codes "u") 60 (codes "min") at_start in
    ((ran.0 ≡ ok tt)
      × (leb_ℤ (pos 1) (pos (length live)) ≡ false)
      × (members_of (window_key (codes "u") (codes "min")) ran.1
          ≡ with_request (codes "u") 60 (codes "min") at_start)
      × (leb_ℤ (pos (length (members_of (window_key (codes "u") (codes "min")) ran.1))) (pos 1)
          ≡ true))
    ⊎ ((ran.0 ≡ err rate_limited) × (leb_ℤ (pos 1) (pos (length live)) ≡ true))
check_window-limit_example = check_window-limit (codes "u") (pos 1) 60 (codes "min") at_start refl

abbrev limits : Limits
limits = record { rate_limit_min = pos 10; rate_limit_hour = pos 100; rate_limit_day = pos 1000 }

check_rate_limit-decides_example :
    let ran = check_rate_limit limits (codes "u") at_start in
    ((all_rooms limits (codes "u") at_start ≡ true)
      × (ran.0 ≡ ok tt)
      × IsCounted limits (codes "u") at_start ran.1)
    ⊎ ((all_rooms limits (codes "u") at_start ≡ false) × (ran.0 ≡ err rate_limited))
check_rate_limit-decides_example = check_rate_limit-decides limits (codes "u") at_start refl

one_a_minute :
    ((check_window (codes "u") (pos 1) 60 (codes "min") at_start).0 ≡ ok tt)
    × ((check_window (codes "u") (pos 1) 60 (codes "min") (record once { clock = 64000000000 })).0
        ≡ err rate_limited)
    × ((check_window (codes "u") (pos 1) 60 (codes "min") (record once { clock = 65000000000 })).0
        ≡ ok tt)
unfolding eq_bytes check_window rate_limit_script lookup store zadd live_members
one_a_minute = (refl, refl, refl)

-- Three requests at 6, 7 and 8 seconds, two of which pass.
abbrev three_times : List ℕ
three_times = 6000000000 ∷ 7000000000 ∷ 8000000000 ∷ []

two_pass :
    (serve (codes "u") 2 60 (codes "min") three_times ([], at_start)).0
    ≡ 7000000000 ∷ 6000000000 ∷ []
unfolding serve eq_bytes check_window rate_limit_script lookup store zadd live_members digits
two_pass = refl

serve-limit_example :
    count_live 9 60 (serve (codes "u") 2 60 (codes "min") three_times ([], at_start)).0 ≤ 2
serve-limit_example =
    serve-limit (codes "u") 2 60 (codes "min") three_times at_start 9000000000 refl
      (omega arith, (omega arith, (omega arith, tt))) (omega arith)
