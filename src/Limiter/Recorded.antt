-- ===== src/Limiter/Recorded.antt =====
-- redis.go, `checkWindow`: the set of a window against the requests that it has let pass.
use payment_processing.Prelude.{
  ℕ, ◌+◌, ◌*◌, ◌/◌, ◌≤◌, ◌<◌, ◌≡◌, refl, sym, ap, ◌∙◌, false, List, [], ◌∷◌, ◌++◌, Bytes, eq_bytes,
  length, ltb, All, eq_bytes_iff, arith, Bool-cases, inl, inr, count_where,
}
use payment_processing.Domain.{Time}
use payment_processing.Limiter.{
  Entry, Member, State, second, lookup, keep_value, store, zadd, live_members, value_or,
  request_id_at,
}
use payment_processing.Limiter.Ids.{request_id_at-injective}
use payment_processing.Limiter.Members.{
  live-live, length-live-append, zadd-fresh, lookup-keep, lookup-store_at, lookup-later,
}

-- How many of the times are in the window of a second: later than its beginning.
abbrev pub count_live : ℕ → ℕ → List Time → ℕ
count_live now window = count_where (λ u. ltb now (u / second + window))

pub count_live-later :
    (now later window : ℕ) (done : List Time)
    → now ≤ later
    → count_live later window done ≤ count_live now window done
count_live-later now later window [] h = omega arith
count_live-later now later window (u ∷ done) h =
    ground (arith, count_live-later now later window done h)

All-later :
    (now later : Time) (done : List Time)
    → now ≤ later
    → All (λ u. u ≤ now) done
    → All (λ u. u ≤ later) done
All-later now later [] h k = tt
All-later now later (u ∷ done) h k = (omega (arith, h, k.0), All-later now later done h k.1)

-- The requests that a window has let pass are all in its set while they count.
pub record Recorded (key : Bytes) (limit window : ℕ) (now : Time) (done : List Time) (s : State)
    : Type 0 where
  pub bound : count_live (now / second) window done ≤ limit
  pub past : All (λ u. u ≤ now) done
  pub kept :
      (t : Time)
      → now ≤ t
      → count_live (t / second) window done
        ≤ length (live_members (t / second) window (value_or [] (lookup t key s.sets)))
  pub known :
      (t : Time)
      → now ≤ t
      → All
          (λ m. (u : Time) × (u ≤ now) × (m.request_id ≡ request_id_at u))
          (value_or [] (lookup t key s.sets))

abbrev IsKnown : Time → Member → Type 0
IsKnown now m = (u : Time) × (u ≤ now) × (m.request_id ≡ request_id_at u)

IsKnown-later :
    (now later : Time) (ms : List Member)
    → now ≤ later
    → All (IsKnown now) ms
    → All (IsKnown later) ms
IsKnown-later now later [] h k = tt
IsKnown-later now later (m ∷ ms) h ((u, before, same), k) =
    ((u, omega arith, same), IsKnown-later now later ms h k)

IsKnown-live :
    (now : Time) (at window : ℕ) (ms : List Member)
    → All (IsKnown now) ms
    → All (IsKnown now) (live_members at window ms)
unfolding live_members
IsKnown-live now at window [] k = tt
IsKnown-live now at window (m ∷ ms) k = elim (Bool-cases (ltb at (m.score + window))) [
  | inl live ↦ rw live (k.0, IsKnown-live now at window ms k.1)
  | inr old ↦ rw old (IsKnown-live now at window ms k.1)
]

IsKnown-fresh :
    (now t : Time) (ms : List Member)
    → now < t
    → All (IsKnown now) ms
    → All (λ m. eq_bytes m.request_id (request_id_at t) ≡ false) ms
IsKnown-fresh now t [] h k = tt
IsKnown-fresh now t (m ∷ ms) h ((u, before, same), k) = (
  elim (Bool-cases (eq_bytes m.request_id (request_id_at t))) [
    | inl equal ↦
        let both : request_id_at u ≡ request_id_at t = sym same ∙ (eq_bytes_iff _ _).0 equal in
        absurd (omega (arith, request_id_at-injective u t both))
    | inr other ↦ other
  ],
  IsKnown-fresh now t ms h k,
)

IsKnown-append :
    (now : Time) (ms : List Member) (m : Member)
    → All (IsKnown now) ms
    → IsKnown now m
    → All (IsKnown now) (ms ++ (m ∷ []))
IsKnown-append now [] m h k = (k, tt)
IsKnown-append now (x ∷ ms) m h k = (h.0, IsKnown-append now ms m h.1 k)

none-live :
    (now t : Time) (window : ℕ) (done : List Time)
    → now + (window + 10) * second ≤ t
    → All (λ u. u ≤ now) done
    → count_live (t / second) window done ≡ 0
none-live now t window [] h k = refl
none-live now t window (u ∷ done) h k =
    let rest = none-live now t window done h k.1 in
    let before : u ≤ now = k.0 in
    let old : u / second + window ≤ t / second = omega arith in ground (arith, rest, old)

module _ (key : Bytes) (limit window : ℕ) where
  -- A command that fails changes nothing.
  pub Recorded-failed :
      (now t : Time) (done : List Time) (s s' : State)
      → now ≤ t
      → s'.sets ≡ s.sets
      → Recorded key limit window now done s
      → Recorded key limit window t done s'
  Recorded-failed now t done s s' h same r = record {
    bound =
        omega
          (arith, r.bound, count_live-later (now / second) (t / second) window done (omega arith));
    past = All-later now t done h r.past;
    kept = λ t' k. rw same (r.kept t' (omega arith));
    known = λ t' k. rw same (IsKnown-later now t _ h (r.known t' (omega arith)));
  }

  pub Recorded-refused :
      (now t : Time) (done : List Time) (s s' : State)
      → now ≤ t
      → s'.sets
        ≡ keep_value key
            (live_members (t / second) window (value_or [] (lookup t key s.sets)))
            s.sets
      → Recorded key limit window now done s
      → Recorded key limit window t done s'
  Recorded-refused now t done s s' h set r = record {
    bound =
        omega
          (arith, r.bound, count_live-later (now / second) (t / second) window done (omega arith));
    past = All-later now t done h r.past;
    kept = λ t' k.
        rw
          (
            set,
            lookup-keep t t' (t / second) window key s.sets k,
            live-live (t / second) (t' / second) window (value_or [] (lookup t' key s.sets))
                (omega arith),
          )
          (r.kept t' (omega arith));
    known = λ t' k.
        rw (set, lookup-keep t t' (t / second) window key s.sets k)
          (IsKnown-live t (t / second) window _
            (IsKnown-later now t _ h (r.known t' (omega arith))));
  }

  abbrev pub accepted_entry : Time → List Member → Entry (List Member)
  accepted_entry t ms = record {
    key = key;
    value = zadd (record { score = t / second; request_id = request_id_at t }) ms;
    expires_at = t + (window + 10) * second;
  }

  module _ (now t : Time) (done : List Time) (s s' : State) (h : now < t) where
    abbrev held : Time → List Member
    held t' = value_or [] (lookup t' key s.sets)

    abbrev lives : List Member
    lives = live_members (t / second) window (held t)

    held-later :
        (t' : Time)
        → t ≤ t'
        → length (live_members (t' / second) window (held t'))
          ≤ length (live_members (t' / second) window (held t))
    unfolding live_members
    held-later t' k = elim (lookup-later t t' key [] s.sets k) [
      | inl same ↦ rw same (omega arith)
      | inr none_left ↦ rw none_left (omega arith)
    ]

    still_held :
        Recorded key limit window now done s
        → (t' : Time) → t ≤ t'
        → count_live (t' / second) window (t ∷ done)
          ≤ length (
              live_members
                (t' / second)
                window
                (lives ++ (record { score = t / second; request_id = request_id_at t } ∷ [])))
    still_held r t' k =
        let before = r.kept t' (omega arith) in
        let held_still = held-later t' k in
        let same = ap length (live-live (t / second) (t' / second) window (held t) (omega arith)) in
        let longer =
          length-live-append (t' / second) window lives
            (record { score = t / second; request_id = request_id_at t }) in
        omega (arith, before, held_still, same, longer)

    pub Recorded-accepted :
        s'.sets ≡ store (accepted_entry t lives) s.sets
        → length lives < limit
        → Recorded key limit window now done s
        → Recorded key limit window t (t ∷ done) s'
    Recorded-accepted set room r =
        let own_known = IsKnown-live now (t / second) window (held t) (r.known t (omega arith)) in
        let added =
          zadd-fresh (record { score = t / second; request_id = request_id_at t }) lives
            (IsKnown-fresh now t lives h own_known) in
        record {
          bound = ground (arith, r.kept t (omega arith), room);
          past = (omega arith, All-later now t done (omega arith) r.past);
          kept = λ t' k.
              rw (set, lookup-store_at t' (accepted_entry t lives) s.sets)
                (elim (Bool-cases (ltb t' (t + (window + 10) * second))) [
                  | inl alive ↦ rw (alive, added) (still_held r t' k)
                  | inr gone ↦ rw gone (
                      omega (
                        arith,
                        none-live t t' window (t ∷ done) (ground arith)
                            (omega arith, All-later now t done (omega arith) r.past),
                      ))
                ]);
          known = λ t' k.
              rw (set, lookup-store_at t' (accepted_entry t lives) s.sets)
                (elim (Bool-cases (ltb t' (t + (window + 10) * second))) [
                  | inl alive ↦
                      rw (alive, added)
                        (IsKnown-append t lives _
                          (IsKnown-later now t lives (omega arith) own_known)
                          (t, omega arith, refl))
                  | inr gone ↦ rw gone tt
                ]);
        }
