-- ===== src/Delivery/Handlers/Health.antt =====
-- internal/delivery/http/handlers/health/health_handler.go. The two bodies always have a JSON form.
use payment_processing.Prelude.{
  ◌≡◌, ◌↔◌, refl, Bool, true, false, some, List, [], ◌∷◌, codes, All, if◌then◌else◌, arith,
}
use payment_processing.Delivery.Responses.{Writer, no_answer, health_body, write_json}

unfoldable pub health : Writer
unfolding write_json
health = (write_json true 200 (health_body (codes "ok")) no_answer).0

-- A check within the two seconds of the request: whether it fails.
unfoldable pub readiness : List Bool → Writer
unfolding write_json
readiness [] = (write_json true 200 (health_body (codes "ready")) no_answer).0
readiness (failed ∷ checks) =
    let rest = readiness checks in
    if failed then (write_json true 503 (health_body (codes "unavailable")) no_answer).0 else rest

-- A server is ready exactly where no check fails.
pub readiness_iff :
    (checks : List Bool) → ((readiness checks).status ≡ some 200) ↔ All (λ c. c ≡ false) checks
unfolding readiness
readiness_iff [] = (λ h. tt, λ h. refl)
readiness_iff (true ∷ checks) = (λ h. absurd (ground arith), λ h. cc)
readiness_iff (false ∷ checks) =
    (λ h. (refl, (readiness_iff checks).0 h), λ h. (readiness_iff checks).1 h.1)
