-- ===== src/Decimal/Stripping.antt =====
-- decimal.go, the loop of `FitsNumeric`: zeros that are dropped from the digits leave the number as
-- it was, and digits bound their number.
use payment_processing.Prelude.{
  ℕ, zero, suc, ◌+◌, ◌-◌, ◌*◌, ◌%◌, ◌^◌, ◌≤◌, ◌<◌, ◌≡◌, refl, sym, ap, ◌∙◌, true, false, inl, inr,
  [], ◌∷◌, Bytes, length, take, ltb, ◌==◌, Bool-cases, arith,
}
use payment_processing.Prelude.Int.{ℤ, pos, negsuc, pos_part, neg_part, ◌+ℤ◌, ltb_ℤ, neg_ℕ, wrap32}
use payment_processing.Decimal.{last_byte, strip_zeros}
use payment_processing.Decimal.Digits.{value_after, IsDigits}
use native.Mathlib.Nat.{pow-zero, pow-suc, pow-succ', mul_assoc, mul-le-mul_right}

pub pow-add : (a m n : ℕ) → a ^ (m + n) ≡ a ^ m * a ^ n
pow-add a m zero =
    let none_more : m + 0 ≡ m = omega arith in
    let one : a ^ 0 ≡ 1 = pow-zero a in ap (λ k. a ^ k) none_more ∙ rw one (omega arith)
pow-add a m (suc n) =
    let next : m + suc n ≡ suc (m + n) = omega arith in
    ap (λ k. a ^ k) next
    ∙ pow-suc a (m + n)
    ∙ ap (λ k. k * a) (pow-add a m n)
    ∙ mul_assoc (a ^ m) (a ^ n) a
    ∙ ap (λ k. a ^ m * k) (sym (pow-suc a n))

-- The last digit counts once, the digits before it ten times.
value-last :
    (n c : ℕ) (s : Bytes)
    → value_after n (c ∷ s)
      ≡ value_after n (take (length s) (c ∷ s)) * 10 + (last_byte (c ∷ s) - 48)
value-last n c [] = refl
value-last n c (d ∷ s) = value-last (n * 10 + (c - 48)) d s

pub value-bound : (n : ℕ) (s : Bytes) → IsDigits s → value_after n s < (n + 1) * 10 ^ length s
value-bound n [] h = omega arith
value-bound n (c ∷ s) h =
    let rest = value-bound (n * 10 + (c - 48)) s h.1 in
    let step : (n * 10 + (c - 48) + 1) * 10 ^ length s ≤ (n + 1) * 10 * 10 ^ length s =
      mul-le-mul_right (10 ^ length s) (omega (arith, h.0.1)) in
    let longer : (n + 1) * 10 ^ suc (length s) ≡ (n + 1) * 10 * 10 ^ length s =
      ap (λ k. (n + 1) * k) (pow-succ' 10 (length s))
      ∙ sym (mul_assoc (n + 1) 10 (10 ^ length s)) in
    omega arith

take-IsDigits : (n : ℕ) (s : Bytes) → IsDigits s → IsDigits (take n s)
take-IsDigits zero s h = tt
take-IsDigits (suc n) [] h = tt
take-IsDigits (suc n) (c ∷ s) h = (h.0, take-IsDigits n s h.1)

-- What the loop has made of `ds` and the exponent -k: `zeros` digits are gone, all of them zeros.
pub record Stripped (ds : Bytes) (k : ℕ) (out : Bytes × ℤ) : Type 0 where
  pub kept : Bytes
  pub places : ℕ
  pub zeros : ℕ
  pub result : out ≡ (kept, neg_ℕ places)
  pub exponent : k ≡ places + zeros
  pub same_value : value_after 0 ds ≡ value_after 0 kept * 10 ^ zeros
  pub fewer : length ds ≡ length kept + zeros
  pub still_digits : IsDigits ds → IsDigits kept

length-init : (c : ℕ) (s : Bytes) → length (take (length s) (c ∷ s)) ≡ length s
length-init c [] = refl
length-init c (d ∷ s) = ap suc (length-init d s)

last-zero :
    (c : ℕ) (s : Bytes)
    → (last_byte (c ∷ s) == 48) ≡ true
    → value_after 0 (c ∷ s) ≡ value_after 0 (take (length s) (c ∷ s)) * 10
last-zero c s k =
    let none_more : last_byte (c ∷ s) - 48 ≡ 0 = ground arith in
    value-last 0 c s ∙ omega (arith, none_more)

pub wrap32-same : (z : ℤ) → pos_part z < 2 ^ 31 → neg_part z ≤ 2 ^ 31 → wrap32 z ≡ z
wrap32-same (pos n) h k =
    let inside : (n + 2147483648 + (4294967296 - 0 % 4294967296)) % 4294967296 ≡ n + 2147483648 =
      omega arith in
    rw inside (ground arith)
wrap32-same (negsuc n) h k =
    let inside : (0 + 2147483648 + (4294967296 - suc n % 4294967296)) % 4294967296
        ≡ 2147483647 - n =
      omega arith in
    rw inside (ground arith)

one_up : (k : ℕ) → negsuc k +ℤ pos 1 ≡ neg_ℕ k
unfolding ◌+ℤ◌
one_up zero = refl
one_up (suc k) = ground arith

next_exponent : (k : ℕ) → k ≤ 2 ^ 30 → wrap32 (negsuc k +ℤ pos 1) ≡ neg_ℕ k
next_exponent zero h = ap wrap32 (one_up zero)
next_exponent (suc k) h =
    ap wrap32 (one_up (suc k)) ∙ wrap32-same (negsuc k) (omega arith) (omega arith)

unchanged : (ds : Bytes) (k : ℕ) → Stripped ds k (ds, neg_ℕ k)
unchanged ds k = record {
  kept = ds;
  places = k;
  zeros = 0;
  result = refl;
  exponent = omega arith;
  same_value = omega arith;
  fewer = omega arith;
  still_digits = λ d. d;
}

one_more :
    (c : ℕ) (s : Bytes) (k : ℕ) (out : Bytes × ℤ)
    → (last_byte (c ∷ s) == 48) ≡ true
    → Stripped (take (length s) (c ∷ s)) k out
    → Stripped (c ∷ s) (suc k) out
one_more c s k out zero_last t = record {
  kept = t.kept;
  places = t.places;
  zeros = suc t.zeros;
  result = t.result;
  exponent = omega (arith, t.exponent);
  same_value =
      last-zero c s zero_last
      ∙ ap (λ n. n * 10) t.same_value
      ∙ mul_assoc (value_after 0 t.kept) (10 ^ t.zeros) 10
      ∙ ap (λ n. value_after 0 t.kept * n) (sym (pow-suc 10 t.zeros));
  fewer = omega (arith, length-init c s, t.fewer);
  still_digits = λ d. t.still_digits (take-IsDigits (length s) (c ∷ s) d);
}

pub strip_zeros-Stripped :
    (fuel k : ℕ) (ds : Bytes) → k ≤ 2 ^ 30 → Stripped ds k (strip_zeros fuel ds (neg_ℕ k))
unfolding strip_zeros
strip_zeros-Stripped zero k ds h = unchanged ds k
strip_zeros-Stripped (suc fuel) zero ds h = elim (Bool-cases (ltb 1 (length ds))) [
  | inl longer ↦ rw longer (unchanged ds 0)
  | inr single ↦ rw single (unchanged ds 0)
]
strip_zeros-Stripped (suc fuel) (suc k) [] h = unchanged [] (suc k)
strip_zeros-Stripped (suc fuel) (suc k) (c ∷ s) h =
    let negative : ltb 0 (0 + suc k) ≡ true = ground arith in
    let one_less : suc (length s) - 1 ≡ length s = omega arith in
    elim (Bool-cases (ltb 1 (suc (length s)))) [
      | inl longer ↦ elim (Bool-cases (last_byte (c ∷ s) == 48)) [
        | inl zero_last ↦
            rw (longer, negative, zero_last, one_less, next_exponent k (omega arith))
              (one_more c s k _ zero_last
                (strip_zeros-Stripped fuel k (take (length s) (c ∷ s)) (omega arith)))
        | inr other ↦ rw (longer, negative, other) (unchanged (c ∷ s) (suc k))
      ]
      | inr single ↦ rw single (unchanged (c ∷ s) (suc k))
    ]

pub strip_zeros-whole : (fuel : ℕ) (ds : Bytes) (n : ℕ) → strip_zeros fuel ds (pos n) ≡ (ds, pos n)
unfolding strip_zeros
strip_zeros-whole zero ds n = refl
strip_zeros-whole (suc fuel) ds n =
    let not_negative : ltb_ℤ (pos n) (pos 0) ≡ false = ground arith in
    elim (Bool-cases (ltb 1 (length ds))) [
      | inl longer ↦ rw (longer, not_negative) refl
      | inr single ↦ rw single refl
    ]
