-- ===== src/Limiter/Ids.antt =====
-- redis.go, `checkWindow`: requests at different times have different ids.
use payment_processing.Prelude.{
  ◌/◌, ◌≡◌, sym, ap, ◌∙◌, [], ◌∷◌, ◌++◌, Bytes, ◌==◌, if◌then◌else◌, arith, false, refl,
}
use payment_processing.Domain.{Time}
use payment_processing.Decimal.{digits}
use payment_processing.Decimal.Digits.{value_after, value-digits, IsDigits, digits-IsDigits}
use payment_processing.Limiter.{request_id_at, second}

-- What stands behind the first dash.
after_dash : Bytes → Bytes
after_dash [] = []
after_dash (c ∷ s) = if c == b'-' then s else after_dash s

after_dash-digits : (s rest : Bytes) → IsDigits s → after_dash (s ++ (b'-' ∷ rest)) ≡ rest
unfolding after_dash
after_dash-digits [] rest h = refl
after_dash-digits (c ∷ s) rest h =
    let digit : (c == b'-') ≡ false = ground (arith, h.0.0) in
    rw digit (after_dash-digits s rest h.1)

pub request_id_at-injective : (a b : Time) → request_id_at a ≡ request_id_at b → a ≡ b
request_id_at-injective a b h =
    let of = λ (t : Time).
      after_dash-digits (digits (t / second)) (digits t) (digits-IsDigits (t / second)) in
    let same : digits a ≡ digits b = sym (of a) ∙ ap after_dash h ∙ of b in
    sym (value-digits a) ∙ ap (value_after 0) same ∙ value-digits b
