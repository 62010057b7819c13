-- ===== src/Limiter/Passing.antt =====
-- redis.go, `checkWindow`: one window, against the keys of the others.
use payment_processing.Prelude.{
  ℕ, ◌+◌, ◌*◌, ◌/◌, ◌≡◌, refl, ap, ◌∙◌, Bool, true, false, List, [], ◌∷◌, ◌++◌, Bytes, eq_bytes,
  eq_bytes_iff, codes, ok, err, length, Bool-cases, inl, inr, arith,
}
use payment_processing.Prelude.Int.{ℤ, pos, leb_ℤ, ltb_ℤ}
use payment_processing.Domain.{Time, Outcome, rate_limited}
use payment_processing.Limiter.{
  Entry, Member, State, second, lookup, store, value_or, members_of, rate_limit_script, window_key,
  and_check, check_window, live_members, zadd, request_id_at,
}
use payment_processing.Limiter.Windows.{live_in, with_request, stored}

eq_bytes-append : (s t u : Bytes) → eq_bytes (s ++ t) (s ++ u) ≡ eq_bytes t u
unfolding eq_bytes
eq_bytes-append [] t u = refl
eq_bytes-append (c ∷ s) t u = ground (arith, eq_bytes-append s t u)

-- The keys of two windows of one user.
window_key-other :
    (id a b : Bytes)
    → eq_bytes (codes ":" ++ a) (codes ":" ++ b) ≡ false
    → eq_bytes (window_key id a) (window_key id b) ≡ false
window_key-other id a b h =
    eq_bytes-append (codes "ratelimit:") (id ++ (codes ":" ++ a)) (id ++ (codes ":" ++ b))
    ∙ eq_bytes-append id (codes ":" ++ a) (codes ":" ++ b)
    ∙ h

lookup-store_other :
    {A : Type 0} (now : Time) (e : Entry A) (key : Bytes) (es : List (Entry A))
    → eq_bytes e.key key ≡ false
    → lookup now key (store e es) ≡ lookup now key es
unfolding lookup store
lookup-store_other now e key [] h = rw h refl
lookup-store_other now e key (x ∷ xs) h = elim (Bool-cases (eq_bytes x.key e.key)) [
  | inl same ↦
      let key_same : x.key ≡ e.key = (eq_bytes_iff x.key e.key).0 same in
      let other : eq_bytes x.key key ≡ false = rw key_same h in rw (same, h, other) refl
  | inr differs ↦ ground (arith, differs, lookup-store_other now e key xs h)
]

-- Whether a window holds fewer requests than its limit, those too old not counted.
abbrev pub has_room : Bytes → ℤ → ℕ → Bytes → State → Bool
has_room id limit window suffix s = ltb_ℤ (pos (length (live_in id window suffix s))) limit

-- The state after a request that a window lets pass.
abbrev pub counted : Bytes → ℕ → Bytes → State → State
counted id window suffix s = record s {
  sets =
      store
        (record {
          key = window_key id suffix;
          value = with_request id window suffix s;
          expires_at = s.clock + (window + 10) * second;
        })
        s.sets;
  faults = [];
}

module _ (id : Bytes) (limit : ℤ) (window : ℕ) (suffix : Bytes) (s : State)
    (quiet : s.faults ≡ []) where
  pub passes :
      has_room id limit window suffix s ≡ true
      → check_window id limit window suffix s ≡ (ok tt, counted id window suffix s)
  unfolding check_window rate_limit_script
  passes room =
      let space : leb_ℤ limit (pos (length (live_in id window suffix s))) ≡ false =
        ground (arith, room) in
      rw (quiet, space) refl

  pub refuses :
      has_room id limit window suffix s ≡ false
      → (check_window id limit window suffix s).0 ≡ err rate_limited
  unfolding check_window rate_limit_script
  refuses full =
      let none_left : leb_ℤ limit (pos (length (live_in id window suffix s))) ≡ true =
        ground (arith, full) in
      rw (quiet, none_left) refl

module _ (id : Bytes) (window : ℕ) (suffix : Bytes) (s : State) where
  pub counted-own :
      members_of (window_key id suffix) (counted id window suffix s)
      ≡ with_request id window suffix s
  counted-own =
      ap (value_or [])
        (stored s.clock (window_key id suffix) (with_request id window suffix s) window s.sets)

  pub counted-other :
      (other : Bytes)
      → eq_bytes (codes ":" ++ suffix) (codes ":" ++ other) ≡ false
      → members_of (window_key id other) (counted id window suffix s)
        ≡ members_of (window_key id other) s
  counted-other other h = ap (value_or []) (
      lookup-store_other s.clock _ (window_key id other) s.sets
        (window_key-other id suffix other h))

abbrev pub with_member : ℕ → Time → List Member → List Member
with_member window now ms =
    zadd (record { score = now / second; request_id = request_id_at now })
      (live_members (now / second) window ms)

abbrev pub room_in : ℤ → ℕ → Time → List Member → Bool
room_in limit window now ms = ltb_ℤ (pos (length (live_members (now / second) window ms))) limit

-- A check that refuses is the last one, and one that passes hands on its state.
pub refused-first :
    (ran : Outcome (Unit {0}) × State) (k : State → Outcome (Unit {0}) × State)
    → ran.0 ≡ err rate_limited
    → (and_check ran k).0 ≡ err rate_limited
refused-first (ok _, s) k h = cc
refused-first (err e, s) k h = h

pub passed-first :
    (ran : Outcome (Unit {0}) × State) (k : State → Outcome (Unit {0}) × State) {s : State}
    → ran ≡ (ok tt, s)
    → and_check ran k ≡ k s
passed-first ran k h = ap (λ r. and_check r k) h
