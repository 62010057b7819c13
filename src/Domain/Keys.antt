-- ===== src/Domain/Keys.antt =====
-- internal/domain/transactions.go: `ValidateIdempotencyKey` against the key's grammar.
use payment_processing.Prelude.{
  ℕ, ◌≤◌, ◌≡◌, refl, ◌⊎◌, inl, inr, ◌↔◌, Bool, true, false, ◌&&◌, ◌||◌, [], ◌∷◌, Bytes, Result, ok,
  err, length, All, ltb, leb, ◌==◌, if◌then◌else◌, Bool-cases, arith,
}
use payment_processing.Domain.Errors.{Error, idempotency_key_required, invalid_idempotency_key}

abbrev pub max_idempotency_key_length : ℕ
max_idempotency_key_length = 128

unfoldable pub key_char : ℕ → Bool
key_char char =
    (leb b'a' char && leb char b'z')
    || (leb b'A' char && leb char b'Z')
    || (leb b'0' char && leb char b'9')
    || (char == b'.')
    || (char == b'_')
    || (char == b':')
    || (char == b'-')

-- The loop over the bytes of the key.
pub check_chars : Bytes → Result Error (Unit {0})
unfolding key_char
check_chars [] = ok tt
check_chars (c ∷ key) =
    let rest = check_chars key in if key_char c then rest else err invalid_idempotency_key

unfoldable pub validate_idempotency_key : Bytes → Result Error (Unit {0})
unfolding check_chars
validate_idempotency_key [] = err idempotency_key_required
validate_idempotency_key (c ∷ key) =
    if ltb max_idempotency_key_length (length (c ∷ key))
    then err invalid_idempotency_key
    else check_chars (c ∷ key)

-- The characters that a key may hold: letters, digits, and one of . _ : -
abbrev pub IsKeyChar : ℕ → Type 0
IsKeyChar c =
    ((97 ≤ c) × (c ≤ 122))
    ⊎ ((65 ≤ c) × (c ≤ 90))
    ⊎ ((48 ≤ c) × (c ≤ 57))
    ⊎ (c ≡ 46)
    ⊎ (c ≡ 95)
    ⊎ (c ≡ 58)
    ⊎ (c ≡ 45)

key_char_iff : (c : ℕ) → (key_char c ≡ true) ↔ IsKeyChar c
unfolding key_char
key_char_iff c = (λ h. ground arith, λ h. ground arith)

check_chars_iff : (key : Bytes) → (check_chars key ≡ ok tt) ↔ All IsKeyChar key
unfolding check_chars
check_chars_iff [] = (λ h. tt, λ h. refl)
check_chars_iff (c ∷ key) = (
  λ h. elim (Bool-cases (key_char c)) [
    | inl good ↦ ((key_char_iff c).0 good, (check_chars_iff key).0 (rw good at h))
    | inr bad ↦ cc (rw bad at h)
  ],
  λ h. rw ((key_char_iff c).1 h.0) ((check_chars_iff key).1 h.1),
)

-- A key is accepted exactly when it has 1 to 128 bytes, each a letter, a digit, or one of . _ :
-- -
pub validate-ok_iff :
    (key : Bytes)
    → (validate_idempotency_key key ≡ ok tt)
      ↔ ((1 ≤ length key) × (length key ≤ max_idempotency_key_length) × All IsKeyChar key)
unfolding validate_idempotency_key
validate-ok_iff [] = (λ h. cc, λ h. absurd (omega arith))
validate-ok_iff (c ∷ key) = (
  λ h. elim (Bool-cases (ltb 128 (length (c ∷ key)))) [
    | inl long ↦ cc (rw long at h)
    | inr short ↦ (omega arith, ground arith, (check_chars_iff (c ∷ key)).0 (rw short at h))
  ],
  λ h.
      let short : ltb 128 (length (c ∷ key)) ≡ false = ground arith in
      rw short ((check_chars_iff (c ∷ key)).1 h.2),
)
