-- ===== src/Lib.antt =====
-- A payment service in Go, module `processing`: accounts, transfers between them under idempotency
-- keys, and login sessions, over PostgreSQL and Redis.
--
-- How the parts work together. The HTTP handlers (internal/delivery) call the services
-- (internal/usecase). A service asks the rate limiter (internal/infrastructure/cache), opens a
-- database transaction (`NewTX`), calls the repositories of internal/infrastructure/storage, and
-- commits; `defer uow.Rollback()` undoes what was not committed. Amounts are decimals of
-- internal/decimal, and the entities and errors are those of internal/domain.
--
-- Which file models which part:
--   Prelude            shared names, Boolean tests, lists, byte strings, results; Prelude/Int: ℤ
--   Decimal            internal/decimal/decimal.go: the type, arithmetic, comparison, FitsNumeric;
--                      Decimal/Text: String and Value; Decimal/Parse: NewFromString and Scan;
--                      Decimal/Json: MarshalJSON and UnmarshalJSON
--   Domain             internal/domain: entities; Domain/Errors: errors; Domain/Keys:
--                      ValidateIdempotencyKey
--   Storage/Tables     migrations/*.sql: the tables with their constraints
--   Storage/Session    storage.go, sqlTx and uowFactory: `World` is a session and its environment,
--                      `M` an action on it; Frames and Preserves: what an action leaves alone
--   Storage/Accounts   accountRepo; Storage/Transfers and Storage/Idempotency: txRepo;
--                      Storage/Tokens: txToken; Storage/Filter: helper.go and GetTransactions
--   Limiter            internal/infrastructure/cache/redis.go: the windows and the flags
--   Usecase/Transfers  transactions.go: Transfer; Usecase/Queries: its two readers
--   Usecase/Accounts   accounts.go
--   Usecase/Auth       auth.go; Usecase/Auth/Credentials: its checks of emails, passwords, names
--   Config             internal/infrastructure/config/config.go: the settings and both Validate;
--                      Config/Load: Load and LoadPostgres with the readers of variables
--   Delivery/Jwt       internal/delivery/http/jwt/jwt.go: the token manager
--   Delivery/Requests  what a request holds, and its readers: DecodeJSON and ClientIP of helpers/
--                      httputil/httputil.go, request.go, requestctx/context.go, the bodies
--   Delivery/Responses the rest of httputil.go: statuses, errors, JSON answers, cookies
--   Delivery/Middleware  middleware.go
--   Delivery/Handlers  the handlers, each with the calls of its service: Transactions, Accounts,
--                      Auth and Health below it
--   Delivery/Router    router.go: which handler serves a method and a path, behind which middleware
--
-- State and operations. A table is the list of its rows, oldest first. `World` holds the committed
-- tables, the tables that the open transaction sees, the locks it has, the state of the rate
-- limiter, and the environment: an error or none for each coming statement, BEGIN and COMMIT, the
-- generated UUIDs (or a failure of the generator), whether the request is cancelled at its waits,
-- and the time. A method of a repository is a statement on the open transaction: it first takes
-- what the environment has for it, then runs on the tables, and answers a broken constraint by the
-- SQLSTATE that PostgreSQL gives. A COMMIT that fails commits nothing. A function of the source
-- has its name in snake_case here; two that differ in name: `insert` is txRepo.Transaction, and
-- `create_account` is AccountsService.Create.
--
-- Numbers. A NUMERIC(36,18) is the integer number of its units of 10^-18, and a statement rounds
-- a decimal to it half away from zero, as PostgreSQL does. The exponent of a decimal is an int32
-- that wraps where the source computes with it. A UUID is its 128-bit number, a time is in
-- nanoseconds. Errors wrapped by %w are the errors that they wrap, since the code reads errors by
-- errors.Is and errors.As only.
--
-- Loops. The retry loop of Transfer has three rounds and is recursive in the rounds that are left,
-- so it ends; the digits of a number recur on the number itself (Decimal/Digits has the fuel); the
-- loop of FitsNumeric recurs on the length of the digits. All else recurs on lists.
--
-- Parameters. `Platform` and `Services` hold what the services call: uuid.UUID.String, SHA-256,
-- bcrypt, the rate limiter over a state of its own, and the token manager, of which `IsTokenManager`
-- says what it promises. `Library` of Delivery/Jwt is golang-jwt, and `IsLibrary` of
-- Delivery/Jwt/Laws says what it promises: a signed token is believed with its secret until it
-- expires, then refused as expired, and its claims are those that were signed. The codecs of Delivery/Requests
-- are encoding/json, uuid.Parse and time.Parse; `JsonTexts` is the former for a decimal. The
-- platform of Config/Load is godotenv.Load and time.ParseDuration. `no_query` is the answer of the
-- database to a query of no text.
--
-- Not modelled: logging; statements of other sessions between those of one (the transfers and
-- requests of a history follow one another, as row locks make them); errors of RowsAffected and
-- lengths of VARCHAR columns; texts that are not ASCII in TrimSpace, ToLower and LOWER; the clock
-- of Redis apart from that of the service. PostgresDSN only escapes a URL by net/url; the header
-- Content-Type, the texts of errors and the encoding of bodies are those of net/http and
-- encoding/json, as is the choice among routes. The rest is wiring, commands, scripts and generated
-- mocks.
pub mod Prelude
pub mod Config
pub mod Decimal
pub mod Delivery
pub mod Domain
pub mod Limiter
pub mod Storage
pub mod Usecase
