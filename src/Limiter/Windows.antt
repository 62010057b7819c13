-- ===== src/Limiter/Windows.antt =====
-- What one window of the limiter lets pass.
use payment_processing.Prelude.{
  ℕ, suc, ◌+◌, ◌*◌, ◌/◌, ◌≡◌, ◌⊎◌, ◌<◌, ◌≤◌, refl, sym, subst, true, false, some, List, [], ◌∷◌,
  Bytes, eq_bytes_self, ok, err, length, Bool-cases, inl, inr, arith,
}
use payment_processing.Prelude.Int.{ℤ, pos, leb_ℤ}
use payment_processing.Domain.{Time, rate_limited}
use payment_processing.Limiter.{
  Entry, Member, State, second, lookup, store, zadd, live_members, members_of, rate_limit_script,
  window_key, request_id_at, check_window, next_fault,
}

lookup-store :
    {A : Type 0} (now : Time) (e : Entry A) (es : List (Entry A))
    → now < e.expires_at
    → lookup now e.key (store e es) ≡ some e.value
unfolding lookup store
lookup-store now e [] h = ground (arith, eq_bytes_self e.key)
lookup-store now e (x ∷ xs) h = ground (arith, eq_bytes_self e.key, lookup-store now e xs h)

length-zadd : (m : Member) (xs : List Member) → length (zadd m xs) ≤ suc (length xs)
unfolding zadd
length-zadd m [] = omega arith
length-zadd m (x ∷ xs) = ground (arith, length-zadd m xs)

-- The requests of a window that are in the set, and the set with one more.
abbrev pub live_in : Bytes → ℕ → Bytes → State → List Member
live_in id window suffix s =
    live_members (s.clock / second) window (members_of (window_key id suffix) s)

abbrev pub with_request : Bytes → ℕ → Bytes → State → List Member
with_request id window suffix s =
    zadd (record { score = s.clock / second; request_id = request_id_at s.clock })
      (live_in id window suffix s)

pub stored :
    (now : Time) (key : Bytes) (ms : List Member) (window : ℕ) (sets : List (Entry (List Member)))
    → lookup now key
        (store (record { key = key; value = ms; expires_at = now + (window + 10) * second }) sets)
      ≡ some ms
stored now key ms window sets = lookup-store now _ sets (omega arith)

room_left :
    (limit : ℤ) (n m : ℕ) → leb_ℤ limit (pos n) ≡ false → m ≤ suc n → leb_ℤ (pos m) limit ≡ true
room_left limit n m h k = ground arith

module _ (id : Bytes) (limit : ℤ) (window : ℕ) (suffix : Bytes) (s : State) where
  passed :
      next_fault s.faults ≡ false
      → leb_ℤ limit (pos (length (live_in id window suffix s))) ≡ false
      → let ran = check_window id limit window suffix s in
        (ran.0 ≡ ok tt)
        × (members_of (window_key id suffix) ran.1 ≡ with_request id window suffix s)
  unfolding check_window rate_limit_script
  passed quiet room =
      rw (quiet, room)
        (
          refl,
          rw (stored s.clock (window_key id suffix) (with_request id window suffix s) window s.sets)
              refl,
        )

  refused :
      next_fault s.faults ≡ false
      → leb_ℤ limit (pos (length (live_in id window suffix s))) ≡ true
      → (check_window id limit window suffix s).0 ≡ err rate_limited
  unfolding check_window rate_limit_script
  refused quiet full = rw (quiet, full) refl

  -- Where Redis does not fail, a window lets a request pass exactly if it holds fewer requests
  -- than its limit, those too old not counted; the request is then recorded, and the window
  -- holds no more than its limit. Else the request is refused.
  pub check_window-limit :
      next_fault s.faults ≡ false
      → let ran = check_window id limit window suffix s in
        let live = live_in id window suffix s in
        ((ran.0 ≡ ok tt)
          × (leb_ℤ limit (pos (length live)) ≡ false)
          × (members_of (window_key id suffix) ran.1 ≡ with_request id window suffix s)
          × (leb_ℤ (pos (length (members_of (window_key id suffix) ran.1))) limit ≡ true))
        ⊎ ((ran.0 ≡ err rate_limited) × (leb_ℤ limit (pos (length live)) ≡ true))
  check_window-limit quiet =
      elim (Bool-cases (leb_ℤ limit (pos (length (live_in id window suffix s))))) [
        | inl full ↦ inr (refused quiet full, full)
        | inr room ↦
            let (ran, members) = passed quiet room in
            inl (
              ran,
              room,
              members,
              subst (λ ms. leb_ℤ (pos (length ms)) limit ≡ true) (sym members)
                  (room_left limit _ _ room (length-zadd _ (live_in id window suffix s))),
            )
      ]
