-- ===== src/Storage/Session/Preserves.antt =====
-- Predicates on tables that whatever a session does leaves true, however it ends.
use payment_processing.Prelude.{◌≡◌, refl, Bool, true, false, [], ok, err, if◌then◌else◌}
use payment_processing.Domain.{Error, Outcome, Time}
use payment_processing.Storage.Tables.{Db}
use payment_processing.Storage.Session.{
  World, M, pure, fail, lift, guard, continue, ◌>>=◌, statement, settle, first_fault, later, new_tx,
  commit, rollback, deferring_rollback, new_uuid,
}

-- The predicate holds of what is committed and of what the open transaction sees.
abbrev pub Holds : {S : Type 0} → (Db → Type 0) → World S → Type 0
Holds P w = P w.db × P w.tx_db

pub record Preserves {S A : Type 0} (P : Db → Type 0) (m : M S A) : Type 0 where
  pub at : (w : World S) → Holds P w → Holds P (m w).1

module _ {S A : Type 0} {P : Db → Type 0} where
  pub Preserves-pure : (a : A) → Preserves {S = S} P (pure a)
  Preserves-pure a = record { at = λ w h. h }

  pub Preserves-fail : (e : Error) → Preserves {S = S} {A = A} P (fail e)
  Preserves-fail e = record { at = λ w h. h }

  pub Preserves-lift : (r : Outcome A) → Preserves {S = S} P (lift r)
  Preserves-lift r = record { at = λ w h. h }

  pub Preserves-if :
      (b : Bool) (m n : M S A) → Preserves P m → Preserves P n → Preserves P (if b then m else n)
  Preserves-if true m n pm pn = pm
  Preserves-if false m n pm pn = pn

  pub Preserves-deferring : (m : M S A) → Preserves P m → Preserves P (deferring_rollback m)
  unfolding deferring_rollback rollback
  Preserves-deferring m h = record { at = λ w k. ((h.at w k).0, (h.at w k).0) }

  pub Preserves-mapped :
      {B : Type 0} (f : Outcome B → Outcome A) (m : M S B)
      → Preserves P m
      → Preserves P (λ w. let (r, w') = m w in (f r, w'))
  Preserves-mapped f m h = record { at = λ w k. h.at w k }

  settled :
      (r : Outcome (A × Db)) (w : World S)
      → Holds P w
      → ((a : A) (db : Db) → r ≡ ok (a, db) → P db)
      → Holds P (settle r w).1
  settled (ok (a, db)) w h k = (h.0, k a db refl)
  settled (err e) w h k = h

  after_fault :
      (f : Outcome (Unit {0})) (run : Time → Db → Outcome (A × Db)) (w : World S)
      → Holds P w
      → ((now : Time) (db : Db) (a : A) (db' : Db) → P db → run now db ≡ ok (a, db') → P db')
      → Holds P (continue f (λ _ v. settle (run v.clock v.tx_db) v) w).1
  after_fault (ok _) run w h k =
      settled (run w.clock w.tx_db) w h (λ a db e. k w.clock w.tx_db a db h.1 e)
  after_fault (err e) run w h k = h

  pub Preserves-statement :
      (run : Time → Db → Outcome (A × Db))
      → ((now : Time) (db : Db) (a : A) (db' : Db) → P db → run now db ≡ ok (a, db') → P db')
      → Preserves {S = S} P (statement run)
  unfolding statement
  Preserves-statement run k = record {
    at = λ w h. after_fault (first_fault w.faults) run (record w { faults = later w.faults }) h k;
  }

module _ {S A B : Type 0} {P : Db → Type 0} where
  pub Preserves-continue :
      (r : Outcome A) (f : A → M S B) → ((a : A) → Preserves P (f a)) → Preserves P (continue r f)
  Preserves-continue (ok a) f k = k a
  Preserves-continue (err e) f k = Preserves-fail e

  pub Preserves-bind :
      (m : M S A) (f : A → M S B)
      → Preserves P m
      → ((a : A) → Preserves P (f a))
      → Preserves P (m >>= f)
  Preserves-bind m f h k = record {
    at = λ w p. let (r, w') = m w in (Preserves-continue r f k).at w' (h.at w p);
  }

module _ {S : Type 0} where
  new_tx-Holds :
      (P : Db → Type 0) (f : Outcome (Unit {0})) (w : World S)
      → Holds P w
      → Holds P (continue f (λ _ v. (ok tt, record v { tx_db = v.db; locked = [] })) w).1
  new_tx-Holds P (ok _) w h = (h.0, h.0)
  new_tx-Holds P (err e) w h = h

  commit-Holds :
      (P : Db → Type 0) (f : Outcome (Unit {0})) (w : World S)
      → Holds P w
      → Holds P (continue f (λ _ v. (ok tt, record v { db = v.tx_db; locked = [] })) w).1
  commit-Holds P (ok _) w h = (h.1, h.1)
  commit-Holds P (err e) w h = h

module _ {S : Type 0} {P : Db → Type 0} where
  pub Preserves-guard : (b : Bool) (e : Error) → Preserves {S = S} P (guard b e)
  Preserves-guard true e = Preserves-pure tt
  Preserves-guard false e = Preserves-fail e

  pub Preserves-new_tx : Preserves {S = S} P new_tx
  unfolding new_tx
  Preserves-new_tx = record {
    at = λ w h. new_tx-Holds P (first_fault w.faults) (record w { faults = later w.faults }) h;
  }

  pub Preserves-commit : Preserves {S = S} P commit
  unfolding commit
  Preserves-commit = record {
    at = λ w h. commit-Holds P (first_fault w.faults) (record w { faults = later w.faults }) h;
  }

  pub Preserves-new_uuid : Preserves {S = S} P new_uuid
  unfolding new_uuid
  Preserves-new_uuid = record { at = λ w h. h }

pub ruleset preserve_rules = (
  Preserves-pure, Preserves-fail, Preserves-lift, Preserves-if, Preserves-bind, Preserves-guard,
  Preserves-new_tx, Preserves-commit, Preserves-new_uuid, Preserves-deferring,
)
