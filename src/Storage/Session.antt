-- ===== src/Storage/Session.antt =====
-- storage.go `sqlTx`, `uowFactory`: a database session of one request, and what surrounds it. Every
-- statement, BEGIN and COMMIT first takes what the environment has in store for it: nothing, or an
-- error. A failed COMMIT commits nothing.
pub mod Frames
pub mod Preserves
use payment_processing.Prelude.{Bool, true, false, Option, none, some, List, [], ◌∷◌, ok, err}
use payment_processing.Domain.{Error, other_error, Outcome, Uuid, Time}
use payment_processing.Storage.Tables.{Db}

pub record World (S : Type 0) : Type 0 where
  -- What is committed, and what the open transaction sees.
  pub db : Db
  pub tx_db : Db
  -- The accounts that the open transaction has locked, in the order of locking.
  pub locked : List Uuid
  -- The environment: errors of coming statements, generated UUIDs (`none`: the generator fails),
  -- whether the request is cancelled at its coming waits, and the time.
  pub faults : List (Option Error)
  pub ids : List (Option Uuid)
  pub cancels : List Bool
  pub clock : Time
  -- The state of the rate limiter, and the flag that a transfer hands to its attempts by pointer.
  pub cache : S
  pub rate_limit_checked : Bool

abbrev pub M : Type 0 → Type 0 → Type 0
M S A = World S → Outcome A × World S

module _ {S A : Type 0} where
  abbrev pub pure : A → M S A
  pure a w = (ok a, w)

  abbrev pub fail : Error → M S A
  fail e w = (err e, w)

  abbrev pub lift : Outcome A → M S A
  lift r w = (r, w)

module _ {S A B : Type 0} where
  abbrev pub continue : Outcome A → (A → M S B) → M S B
  continue (ok a) f w = f a w
  continue (err e) f w = (err e, w)

  infixl 5 ◌>>=◌
  abbrev pub ◌>>=◌ : M S A → (A → M S B) → M S B
  ◌>>=◌ m f w = let (r, w') = m w in continue r f w'

module _ {S B : Type 0} where
  infixl 5 ◌>>◌
  abbrev pub ◌>>◌ : M S (Unit {0}) → M S B → M S B
  m >> k = m >>= λ _. k

abbrev pub guard : {S : Type 0} → Bool → Error → M S (Unit {0})
guard true e w = (ok tt, w)
guard false e w = (err e, w)

abbrev fault_outcome : Option Error → Outcome (Unit {0})
fault_outcome none = ok tt
fault_outcome (some e) = err e

abbrev pub first_fault : List (Option Error) → Outcome (Unit {0})
first_fault [] = ok tt
first_fault (f ∷ fs) = fault_outcome f

abbrev pub later {ℓ} : {A : Type ℓ} → List A → List A
later [] = []
later (f ∷ fs) = fs

abbrev next_fault : {S : Type 0} → M S (Unit {0})
next_fault w = (first_fault w.faults, record w { faults = later w.faults })

abbrev pub settle : {S A : Type 0} → Outcome (A × Db) → M S A
settle (ok (a, db)) w = (ok a, record w { tx_db = db })
settle (err e) w = (err e, w)

abbrev on_tx : {S A : Type 0} → (Time → Db → Outcome (A × Db)) → M S A
on_tx run w = settle (run w.clock w.tx_db) w

-- A statement on the open transaction: `run` says what it does at the given time.
unfoldable pub statement : {S A : Type 0} → (Time → Db → Outcome (A × Db)) → M S A
statement run = next_fault >> on_tx run

-- uowFactory.NewTX.
unfoldable pub new_tx : {S : Type 0} → M S (Unit {0})
new_tx = next_fault >> λ w. (ok tt, record w { tx_db = w.db; locked = [] })

-- sqlTx.Commit.
unfoldable pub commit : {S : Type 0} → M S (Unit {0})
commit = next_fault >> λ w. (ok tt, record w { db = w.tx_db; locked = [] })

-- sqlTx.Rollback, which has nothing left to undo after a commit.
unfoldable pub rollback : {S : Type 0} → World S → World S
rollback w = record w { tx_db = w.db; locked = [] }

-- `defer uow.Rollback()` over the rest of a function.
unfoldable pub deferring_rollback : {S A : Type 0} → M S A → M S A
unfolding rollback
deferring_rollback m w = let (r, w') = m w in (r, rollback w')

abbrev id_outcome : Option Uuid → Outcome Uuid
id_outcome none = err other_error
id_outcome (some id) = ok id

abbrev first_id : List (Option Uuid) → Outcome Uuid
first_id [] = err other_error
first_id (i ∷ is) = id_outcome i

-- uuid.NewUUID, uuid.New, uuid.NewRandom.
unfoldable pub new_uuid : {S : Type 0} → M S Uuid
new_uuid w = (first_id w.ids, record w { ids = later w.ids })

abbrev pub first_cancel : List Bool → Bool
first_cancel [] = false
first_cancel (c ∷ cs) = c

-- A wait on a timer and on ctx.Done: whether the request was cancelled.
unfoldable pub wait_cancelled : {S : Type 0} → M S Bool
wait_cancelled w = (ok (first_cancel w.cancels), record w { cancels = later w.cancels })
