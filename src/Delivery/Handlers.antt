-- ===== src/Delivery/Handlers.antt =====
-- internal/delivery/http/handlers: what the handlers share, and app/app.go. A handler is a chain of
-- checks and calls; the first that fails answers, and ends it. Logging is left out.
pub mod Transactions
pub mod Accounts
pub mod Auth
pub mod Health
pub mod Rules
use payment_processing.Prelude.{ℕ, Bool, Option, none, some, List, [], Bytes, ok, err}
use payment_processing.Domain.{Error, Outcome, Uuid, Transaction, other_error}
use payment_processing.Storage.Session.{World, M}
use payment_processing.Usecase.Transfers.{Platform}
use payment_processing.Usecase.Auth.{Services}
use payment_processing.Delivery.Jwt.{Library, Manager}
use payment_processing.Delivery.Responses.{Body, Writer, no_answer, write_error, write_json}
use payment_processing.Delivery.Requests.{Request, Identity, Codecs, uuid_outcome}

-- The services with the codecs and the tokens of the HTTP layer. `no_query` is what the database
-- answers to a query of no text.
pub record App (S : Type 0) : Type 0 where
  pub platform : Platform S
  pub services : Services S
  pub no_query : Outcome (List Transaction)
  pub codecs : Codecs
  pub library : Library
  pub manager : Manager

abbrev pub Answer : Type 0 → Type 0
Answer S = World S → Writer × World S

module _ {S A : Type 0} where
  -- A check that answers by `bad` where it fails.
  unfoldable pub checking : Outcome A → (Error → Writer) → (A → Answer S) → Answer S
  checking (err e) bad k w = (bad e, w)
  checking (ok a) bad k w = k a w

  -- A call of a service.
  unfoldable pub calling : M S A → (Error → Writer) → (A → Answer S) → Answer S
  unfolding checking
  calling m bad k w = let (r, w') = m w in checking r bad k w'

  infixl 5 ◌>>=◌
  abbrev pub ◌>>=◌ : ((A → Answer S) → Answer S) → (A → Answer S) → Answer S
  ◌>>=◌ step k = step k

-- WriteError on a writer that nothing was sent to.
abbrev pub answer_error : ℕ → Bool → Error → Writer
answer_error code flag e = write_error code e flag no_answer

abbrev pub sending : {S : Type 0} → Writer → Answer S
sending answer w = (answer, w)

-- IdentityFrom.
abbrev identity_outcome : Option Identity → Outcome Identity
identity_outcome none = err other_error
identity_outcome (some who) = ok who

abbrev pub identity_from : Request → Outcome Identity
identity_from r = identity_outcome r.identity

-- uuid.Parse.
abbrev pub uuid_of : Codecs → Bytes → Outcome Uuid
uuid_of c text = uuid_outcome (c.parse_uuid text)

-- WriteJSON on a writer, whose error is only logged.
abbrev pub answer_json : Codecs → ℕ → Body → Writer
answer_json c code b = (write_json (c.encoded b) code b no_answer).0
