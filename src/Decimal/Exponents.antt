-- ===== src/Decimal/Exponents.antt =====
-- decimal.go `NewFromString`: the exponent of the decimal that it reads.
use payment_processing.Prelude.{
  ℕ, ◌-◌, ◌^◌, ◌≤◌, ◌≡◌, refl, Bool, true, false, arith, if◌then◌else◌, some, none, Bytes, Result,
  ok, err, ◌>>=◌, ◌||◌, Option,
}
use payment_processing.Prelude.Int.{ℤ, pos, negsuc, pos_part, neg_part, ltb_ℤ, neg_ℕ}
use payment_processing.Decimal.{Decimal}
use payment_processing.Decimal.Parse.{
  ParseError, fraction_too_long, exponent_exceeds, new_from_string, check_exponent, split_point,
  parse_digits, find_marks, split_exponent,
}

abbrev pub HasSmallExponent : Result ParseError Decimal → Type 0
HasSmallExponent (ok d) = (pos_part d.exp ≤ 1000) × (neg_part d.exp ≤ 1000)
HasSmallExponent (err e) = Unit

bind-HasSmallExponent :
    {A : Type 0} (r : Result ParseError A) (f : A → Result ParseError Decimal)
    → ((a : A) → HasSmallExponent (f a))
    → HasSmallExponent (r >>= f)
bind-HasSmallExponent (ok a) f h = h a
bind-HasSmallExponent (err e) f h = tt

checked-HasSmallExponent :
    (wraps exceeds : Bool) (v e : ℤ)
    → (exceeds ≡ false → (pos_part e ≤ 1000) × (neg_part e ≤ 1000))
    → HasSmallExponent (
        if wraps
        then err fraction_too_long
        else if exceeds
        then err exponent_exceeds
        else ok (record { value = some v; exp = e }))
checked-HasSmallExponent true exceeds v e h = tt
checked-HasSmallExponent false true v e h = tt
checked-HasSmallExponent false false v e h = h refl

check_exponent-HasSmallExponent : (v e : ℤ) → HasSmallExponent (check_exponent v e)
unfolding check_exponent
check_exponent-HasSmallExponent v e =
    checked-HasSmallExponent (ltb_ℤ e (neg_ℕ (2 ^ 31)) || ltb_ℤ (pos (2 ^ 31 - 1)) e)
      (ltb_ℤ e (neg_ℕ 1000) || ltb_ℤ (pos 1000) e) v e (small e)
  where
    small :
        (e : ℤ)
        → (ltb_ℤ e (neg_ℕ 1000) || ltb_ℤ (pos 1000) e) ≡ false
        → (pos_part e ≤ 1000) × (neg_part e ≤ 1000)
    small (pos n) h = ground arith
    small (negsuc n) h = ground arith

abbrev of_parts : Option ℕ → Bytes × ℤ → Result ParseError Decimal
of_parts p x =
    let (int_string, e) = split_point x.0 x.1 p in
    parse_digits int_string >>= λ v. check_exponent v e

of_parts-HasSmallExponent : (p : Option ℕ) (x : Bytes × ℤ) → HasSmallExponent (of_parts p x)
of_parts-HasSmallExponent p x =
    let (int_string, e) = split_point x.0 x.1 p in
    bind-HasSmallExponent (parse_digits int_string) (λ v. check_exponent v e)
      (λ v. check_exponent-HasSmallExponent v e)

pub new_from_string-HasSmallExponent : (text : Bytes) → HasSmallExponent (new_from_string text)
unfolding new_from_string
new_from_string-HasSmallExponent text =
    bind-HasSmallExponent (find_marks 0 none none text)
      (λ marks. split_exponent text marks.0 >>= of_parts marks.1)
      (λ marks.
        bind-HasSmallExponent (split_exponent text marks.0) (of_parts marks.1)
          (of_parts-HasSmallExponent marks.1))
