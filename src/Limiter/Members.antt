-- ===== src/Limiter/Members.antt =====
-- redis.go, `rateLimitScript`: what a key holds at a later time.
use payment_processing.Prelude.{
  ℕ, ◌+◌, ◌≤◌, ◌≡◌, ◌⊎◌, refl, sym, ap, true, false, none, some, List, [], ◌∷◌, ◌++◌, Bytes,
  eq_bytes, length, ltb, if◌then◌else◌, All, arith, Bool-cases, inl, inr, eq_bytes_self,
}
use payment_processing.Domain.{Time}
use payment_processing.Limiter.{
  Entry, Member, lookup, keep_value, store, zadd, live_members, value_or,
}

-- What is live later is live of what is live now.
pub live-live :
    (now later window : ℕ) (xs : List Member)
    → now ≤ later
    → live_members later window (live_members now window xs) ≡ live_members later window xs
unfolding live_members
live-live now later window [] h = refl
live-live now later window (x ∷ xs) h = ground (arith, live-live now later window xs h)

pub length-live-append :
    (now window : ℕ) (xs : List Member) (m : Member)
    → length (live_members now window (xs ++ (m ∷ [])))
      ≡ length (live_members now window xs) + (if ltb now (m.score + window) then 1 else 0)
unfolding live_members
length-live-append now window [] m = ground arith
length-live-append now window (x ∷ xs) m = ground (arith, length-live-append now window xs m)

pub zadd-fresh :
    (m : Member) (xs : List Member)
    → All (λ x. eq_bytes x.request_id m.request_id ≡ false) xs
    → zadd m xs ≡ xs ++ (m ∷ [])
unfolding zadd
zadd-fresh m [] h = refl
zadd-fresh m (x ∷ xs) h = rw h.0 (ap (λ ys. x ∷ ys) (zadd-fresh m xs h.1))

kept_value :
    (now later : Time) (live window : ℕ) (key : Bytes) (ms : List Member)
    (es : List (Entry (List Member)))
    → now ≤ later
    → live_members live window (value_or [] (lookup now key es)) ≡ ms
    → value_or [] (lookup later key (keep_value key ms es))
      ≡ live_members live window (value_or [] (lookup later key es))
unfolding lookup keep_value live_members
kept_value now later live window key ms [] h k = refl
kept_value now later live window key ms (e ∷ es) h k = elim (Bool-cases (eq_bytes e.key key)) [
  | inl same ↦ elim (Bool-cases (ltb later e.expires_at)) [
    | inl alive ↦
        let was_alive : ltb now e.expires_at ≡ true = ground arith in
        rw (same, alive) (rw same (sym (rw (same, was_alive) at k)))
    | inr gone ↦ rw (same, gone) (rw same refl)
  ]
  | inr other ↦ rw other (rw other (kept_value now later live window key ms es h (rw other at k)))
]

-- What a key holds after a refusal: the members that were live, until it expires as before.
pub lookup-keep :
    (now later : Time) (live window : ℕ) (key : Bytes) (es : List (Entry (List Member)))
    → now ≤ later
    → value_or [] (
        lookup later key
          (keep_value key (live_members live window (value_or [] (lookup now key es))) es))
      ≡ live_members live window (value_or [] (lookup later key es))
lookup-keep now later live window key es h = kept_value now later live window key _ es h refl

pub lookup-store_at :
    {A : Type 0} (later : Time) (e : Entry A) (es : List (Entry A))
    → lookup later e.key (store e es) ≡ (if ltb later e.expires_at then some e.value else none)
unfolding lookup store
lookup-store_at later e [] = ground (arith, eq_bytes_self e.key)
lookup-store_at later e (x ∷ xs) = ground (arith, eq_bytes_self e.key, lookup-store_at later e xs)

-- A key holds the same later, or nothing.
pub lookup-later :
    {A : Type 0} (now later : Time) (key : Bytes) (d : A) (es : List (Entry A))
    → now ≤ later
    → (value_or d (lookup later key es) ≡ value_or d (lookup now key es))
      ⊎ (value_or d (lookup later key es) ≡ d)
unfolding lookup
lookup-later now later key d [] h = inl refl
lookup-later now later key d (e ∷ es) h = elim (Bool-cases (eq_bytes e.key key)) [
  | inl same ↦ elim (Bool-cases (ltb later e.expires_at)) [
    | inl alive ↦
        let was_alive : ltb now e.expires_at ≡ true = ground arith in
        rw (same, alive, was_alive) (inl refl)
    | inr gone ↦ rw (same, gone) (inr refl)
  ]
  | inr other ↦ rw other (lookup-later now later key d es h)
]
