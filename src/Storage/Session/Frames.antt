-- ===== src/Storage/Session/Frames.antt =====
-- storage.go, `sqlTx`: what an action of a session may change, by the actions that it is made of.
use payment_processing.Prelude.{
  ◌≡◌, refl, subst, ◌∙◌, Bool, true, false, [], ok, err, if◌then◌else◌, arith,
}
use payment_processing.Domain.{Error, Outcome, Time}
use payment_processing.Storage.Tables.{Db}
use payment_processing.Storage.Session.{
  World, M, pure, fail, lift, guard, continue, ◌>>=◌, ◌>>◌, statement, new_tx, commit,
  deferring_rollback, new_uuid, wait_cancelled,
}

-- What no statement touches.
pub record SameOutside {S : Type 0} (w w' : World S) : Type 0 where
  pub db : w'.db ≡ w.db
  pub cache : w'.cache ≡ w.cache
  pub checked : w'.rate_limit_checked ≡ w.rate_limit_checked
  pub clock : w'.clock ≡ w.clock

module _ {S : Type 0} where
  pub SameOutside-refl : (w : World S) → SameOutside w w
  SameOutside-refl w = record { db = refl; cache = refl; checked = refl; clock = refl }

  pub SameOutside-trans : {u v w : World S} → SameOutside u v → SameOutside v w → SameOutside u w
  SameOutside-trans a b = record {
    db = b.db ∙ a.db;
    cache = b.cache ∙ a.cache;
    checked = b.checked ∙ a.checked;
    clock = b.clock ∙ a.clock;
  }

pub record Frame {S A : Type 0} (m : M S A) : Type 0 where
  pub at : (w : World S) → SameOutside w (m w).1

-- An action that leaves alone what `f` reads, however it ends.
pub record Keeps {S A X : Type 0} (f : World S → X) (m : M S A) : Type 0 where
  pub at : (w : World S) → f (m w).1 ≡ f w

abbrev pub committed : {S : Type 0} → World S → Db
committed w = w.db

abbrev pub time_of : {S : Type 0} → World S → Time
time_of w = w.clock

-- An action that, where it fails, has left the committed tables as they were.
pub record Atomic {S A : Type 0} (m : M S A) : Type 0 where
  pub at : (w : World S) (e : Error) → (m w).0 ≡ err e → (m w).1.db ≡ w.db

module _ {S A : Type 0} where
  pub SameOutside-ran :
      (m : M S A)
      → Frame m
      → (w : World S) {r : Outcome A} {w' : World S} → m w ≡ (r, w')
      → SameOutside w w'
  SameOutside-ran m f w h = subst (λ (t : Outcome A × World S). SameOutside w t.1) h (f.at w)

  pub Frame-pure : (a : A) → Frame {S = S} (pure a)
  Frame-pure a = record { at = SameOutside-refl }

  pub Frame-fail : (e : Error) → Frame {S = S} {A = A} (fail e)
  Frame-fail e = record { at = SameOutside-refl }

  pub Frame-lift : (r : Outcome A) → Frame {S = S} (lift r)
  Frame-lift r = record { at = SameOutside-refl }

  pub Frame-if : (b : Bool) (m n : M S A) → Frame m → Frame n → Frame (if b then m else n)
  Frame-if true m n fm fn = fm
  Frame-if false m n fm fn = fn

  pub Frame-statement : (run : Time → Db → Outcome (A × Db)) → Frame {S = S} (statement run)
  unfolding statement
  Frame-statement run = record { at = λ w. ground arith }

  -- A statement that succeeds has run on the tables that the transaction sees.
  pub statement-ok :
      (run : Time → Db → Outcome (A × Db)) (w : World S) {w' : World S} {a : A}
      → statement run w ≡ (ok a, w')
      → run w.clock w.tx_db ≡ ok (a, w'.tx_db)
  unfolding statement
  statement-ok run w h = ground arith

  -- Without an error in store for it, a statement does what it says.
  pub statement-run :
      (run : Time → Db → Outcome (A × Db)) (w : World S) {a : A} {db : Db}
      → w.faults ≡ []
      → run w.clock w.tx_db ≡ ok (a, db)
      → statement run w ≡ (ok a, record w { faults = []; tx_db = db })
  unfolding statement
  statement-run run w q h = ground arith

module _ {S A B : Type 0} where
  pub Frame-continue :
      (r : Outcome A) (f : A → M S B) → ((a : A) → Frame (f a)) → Frame (continue r f)
  Frame-continue (ok a) f k = k a
  Frame-continue (err e) f k = Frame-fail e

  pub Frame-bind : (m : M S A) (f : A → M S B) → Frame m → ((a : A) → Frame (f a)) → Frame (m >>= f)
  Frame-bind m f h k = record {
    at = λ w. let (r, w') = m w in SameOutside-trans (h.at w) ((Frame-continue r f k).at w');
  }

  continue-ok :
      (ran : Outcome A × World S) (f : A → M S B) {w' : World S} {b : B}
      → continue ran.0 f ran.1 ≡ (ok b, w')
      → (a : A) × (u : World S) × (ran ≡ (ok a, u)) × (f a u ≡ (ok b, w'))
  continue-ok (ok a, u) f h = (a, u, refl, h)
  continue-ok (err e, u) f h = cc

  -- A successful chain: its first part succeeded, and so did the rest from there.
  pub bind-ok :
      (m : M S A) (f : A → M S B) (w : World S) {w' : World S} {b : B}
      → (m >>= f) w ≡ (ok b, w')
      → (a : A) × (u : World S) × (m w ≡ (ok a, u)) × (f a u ≡ (ok b, w'))
  bind-ok m f w h = continue-ok (m w) f h

  -- To run a chain forwards.
  pub bind-run :
      (m : M S A) (f : A → M S B) (w : World S) {u : World S} {a : A}
      → m w ≡ (ok a, u)
      → (m >>= f) w ≡ f a u
  bind-run m f w h = rw h

  pub bind-err :
      (m : M S A) (f : A → M S B) (w : World S) {e : Error}
      → (m w).0 ≡ err e
      → ((m >>= f) w).0 ≡ err e
  bind-err m f w h = rw h

  continue-db :
      (r : Outcome A) (f : A → M S B) (w : World S) (e : Error)
      → ((a : A) → Atomic (f a))
      → (continue r f w).0 ≡ err e
      → (continue r f w).1.db ≡ w.db
  continue-db (ok a) f w e k h = (k a).at w e h
  continue-db (err e') f w e k h = refl

  pub Atomic-bind :
      (m : M S A) (f : A → M S B) → Keeps committed m → ((a : A) → Atomic (f a)) → Atomic (m >>= f)
  Atomic-bind m f h k = record {
    at = λ w e p. let (r, w') = m w in continue-db r f w' e k p ∙ h.at w;
  }

module _ {S A : Type 0} where
  pub Frame-committed : (m : M S A) → Frame m → Keeps committed m
  Frame-committed m h = record { at = λ w. (h.at w).db }

  pub Frame-time : (m : M S A) → Frame m → Keeps time_of m
  Frame-time m h = record { at = λ w. (h.at w).clock }

  pub Keeps-Atomic : (m : M S A) → Keeps committed m → Atomic m
  Keeps-Atomic m h = record { at = λ w e p. h.at w }

  pub Keeps-deferring : (m : M S A) → Keeps time_of m → Keeps time_of (deferring_rollback m)
  unfolding deferring_rollback
  Keeps-deferring m h = record { at = h.at }

  pub deferring-ok :
      (m : M S A) (w : World S) {a : A} {w' : World S}
      → deferring_rollback m w ≡ (ok a, w')
      → (u : World S) × (m w ≡ (ok a, u)) × (w'.db ≡ u.db)
  unfolding deferring_rollback
  deferring-ok m w h = ((m w).1, ground arith, ground arith)

  -- COMMIT, and a value computed after it.
  pub Atomic-commit : (a : A) → Atomic {S = S} (commit >> pure a)
  unfolding commit
  Atomic-commit a = record { at = λ w e p. ground arith }

  pub Atomic-deferring_rollback : (m : M S A) → Atomic m → Atomic (deferring_rollback m)
  unfolding deferring_rollback
  Atomic-deferring_rollback m h = record { at = h.at }

module _ {S A B X : Type 0} {f : World S → X} where
  pub Keeps-bind :
      (m : M S A) (k : A → M S B) → Keeps f m → ((a : A) → Keeps f (k a)) → Keeps f (m >>= k)
  Keeps-bind m k h kept = record { at = λ w. let (r, w') = m w in continue-keeps r w' ∙ h.at w }
    where
      continue-keeps : (r : Outcome A) (w : World S) → f (continue r k w).1 ≡ f w
      continue-keeps (ok a) w = (kept a).at w
      continue-keeps (err e) w = refl

module _ {S : Type 0} where
  pub Keeps-commit : Keeps {S = S} time_of commit
  unfolding commit
  Keeps-commit = record { at = λ w. ground arith }

  pub Frame-guard : (b : Bool) (e : Error) → Frame {S = S} (guard b e)
  Frame-guard true e = Frame-pure tt
  Frame-guard false e = Frame-fail e

  pub guard-ok :
      (b : Bool) (e : Error) (w : World S) {w' : World S}
      → guard b e w ≡ (ok tt, w')
      → (b ≡ true) × (w ≡ w')
  guard-ok true e w h = (refl, cc)
  guard-ok false e w h = cc

  pub Frame-new_tx : Frame {S = S} new_tx
  unfolding new_tx
  Frame-new_tx = record { at = λ w. ground arith }

  pub Frame-new_uuid : Frame {S = S} new_uuid
  unfolding new_uuid
  Frame-new_uuid = record { at = λ w. ground arith }

  pub Frame-wait_cancelled : Frame {S = S} wait_cancelled
  unfolding wait_cancelled
  Frame-wait_cancelled = record { at = λ w. ground arith }

  pub commit-ok : (w : World S) {w' : World S} → commit w ≡ (ok tt, w') → w'.db ≡ w.tx_db
  unfolding commit
  commit-ok w h = ground arith

  pub new_tx-ok :
      (w : World S) {w' : World S} → new_tx w ≡ (ok tt, w') → (w'.tx_db ≡ w.db) × (w'.locked ≡ [])
  unfolding new_tx
  new_tx-ok w h = ground arith

pub ruleset frame_rules = (
  Frame-pure, Frame-fail, Frame-lift, Frame-if, Frame-statement, Frame-bind, Frame-guard,
  Frame-new_tx, Frame-new_uuid, Frame-wait_cancelled,
)
