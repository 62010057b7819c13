-- ===== src/Domain/Tests.antt =====
-- The witness on idempotency keys.
use payment_processing.Prelude.{◌≤◌, ◌≡◌, ◌↔◌, codes, ok, length, All}
use payment_processing.Domain.Keys.{
  validate_idempotency_key, validate-ok_iff, IsKeyChar, max_idempotency_key_length,
}

validate-ok_iff_example : (validate_idempotency_key (codes "a:1") ≡ ok tt) ↔ (
    (1 ≤ length (codes "a:1"))
    × (length (codes "a:1") ≤ max_idempotency_key_length)
    × All IsKeyChar (codes "a:1"))
validate-ok_iff_example = validate-ok_iff (codes "a:1")
