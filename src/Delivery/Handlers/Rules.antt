-- ===== src/Delivery/Handlers/Rules.antt =====
-- internal/delivery/http/handlers: to show what holds of an answer, follow the checks and the calls
-- of its handler.
use payment_processing.Prelude.{◌≡◌, refl, some, ok, err, arith}
use payment_processing.Domain.{Error, Outcome}
use payment_processing.Storage.Session.{World, M}
use payment_processing.Delivery.Responses.{Writer}
use payment_processing.Delivery.Requests.{Request, Identity}
use payment_processing.Delivery.Handlers.{Answer, checking, calling, identity_from}

module _ {S A : Type 0} (P : Writer × World S → Type 0) where
  pub checking-rule :
      (r : Outcome A) (bad : Error → Writer) (k : A → Answer S) {w : World S}
      → ((e : Error) → r ≡ err e → P (bad e, w))
      → ((a : A) → r ≡ ok a → P (k a w))
      → P (checking r bad k w)
  unfolding checking
  checking-rule (err e) bad k f g = f e refl
  checking-rule (ok a) bad k f g = g a refl

  ran-rule :
      (ran : Outcome A × World S) {bad : Error → Writer} {k : A → Answer S}
      → ((e : Error) (w' : World S) → ran ≡ (err e, w') → P (bad e, w'))
      → ((a : A) (w' : World S) → ran ≡ (ok a, w') → P (k a w'))
      → P (checking ran.0 bad k ran.1)
  unfolding checking
  ran-rule (err e, w') f g = f e w' refl
  ran-rule (ok a, w') f g = g a w' refl

  pub calling-rule :
      (m : M S A) (bad : Error → Writer) (k : A → Answer S) {w : World S}
      → ((e : Error) (w' : World S) → m w ≡ (err e, w') → P (bad e, w'))
      → ((a : A) (w' : World S) → m w ≡ (ok a, w') → P (k a w'))
      → P (calling m bad k w)
  unfolding calling
  calling-rule m bad k {w = w} f g = ran-rule (m w) f g

pub identity_known :
    (r : Request) {who : Identity} → identity_from r ≡ ok who → r.identity ≡ some who
identity_known r h = ground arith
