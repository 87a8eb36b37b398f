-- ===== src/Lib.antt =====
-- Socle, an authentication API written in Rust on axum, PostgreSQL and Valkey: a model of its
-- services, its handlers and the statements that they send to the database, and theorems on them.
--
-- The program. A request passes the rate limiter (four of the endpoints) and the extractors that
-- decode its bearer token, and reaches a handler, which calls the services; the services run SQL
-- statements and commands of Valkey. Every handler and every operation of a service is an `Action`:
-- a function of the world (the database, Valkey's store and the number of external calls made)
-- that gives a value, an error or a panic, and the world that it leaves, after an error too.
--
--   Base          equality and order tests, pieces of `str`, tables of rows under constraints
--   Config        src/config.rs: `Config`, `OAuthProvider`, the defaults, `from_env`
--   Models        src/models.rs: roles, claims, rows, requests, responses
--   Errors        src/errors.rs: `AppError`, `OAuthError`, statuses, codes, messages, responses
--   External      what is not in the repository, as records of functions that the model is over
--   Db            migrations/ and the SQL of src/services/user.rs and src/services/token.rs: the
--                 tables, and one function per statement with the constraints it can violate
--   Program       the shape of an `async fn`: `Action`, `?`, `map_err`, statements, transactions;
--                 below it what actions keep (Keeps), the errors they end with (Fails), what a run
--                 that returned shows (Inversion), and actions that look (Still) or commit
--                 (Transaction)
--   Users         src/services/user.rs: `UserService`
--   Tokens        src/services/token.rs: `TokenService` and the password functions; Registry is an
--                 abstract view of the table of refresh tokens, Steps is `rotate_refresh_token` one
--                 statement at a time
--   Auth          src/services/auth.rs and src/services/admin.rs
--   OauthStore    src/services/oauth.rs: `StateStore`, the flow with the providers, the profiles
--   RateLimit     src/rate_limit.rs: `RateLimiter`; Keys is the endpoints that it counts
--   Middleware    src/middleware.rs, and what src/routes/auth.rs reads of a request
--   Routes        src/routes/: the handlers, `route` from an endpoint to its handler, and `serve`
--                 for requests that come one after the other; Documented is the `#[utoipa::path]`
--                 attributes, Overlap is two rotations whose statements other requests come between
--   Main          src/main.rs and src/shutdown.rs: what the start-up comes to, and the `select!` of
--                 serving and the timer
--   Valkey        the documented behaviour of SETEX, GETDEL, INCR and EXPIRE, and a store that has it
--   Sample, Tests a concrete world, runs in it, and the theorems at concrete inputs
--
-- A module X/Keeps shows that the operations of X keep every property of the database that all
-- statements keep: `Db.Statements.Statements` is the interface, which the constraints of the schema
-- (Db/Schema), the facts on a stored token (Tokens/Spent) and the steps of the registry
-- (Tokens/Registry/Refinement) fill. A module X/Fails names the errors of the operations of X.
--
-- The parameters. argon2, HMAC, jsonwebtoken, hex, serde_json, the clock, random bytes, the OAuth
-- providers and Valkey are fields of `Env`. What varies from call to call is a function of the
-- number of the call; every call of the database, of the pool and of Valkey may fail of itself. A
-- theorem that relies on a promise of theirs has it as a hypothesis: `Valkey.IsStore`,
-- `Valkey.Counters.IsCounter`, `Tokens.Access.IsJwt`, `Auth.Welcome.IsHasher`, that serde_json reads
-- back what it writes, that no call fails.
--
-- Numbers. Times of the database are nanoseconds since the epoch, those of tokens and of Valkey are
-- seconds. `u64` arithmetic keeps its wrap-around (`% 2 ^ 64`). Identifiers are 128-bit numbers, as
-- ℕ. `to_decimal` prints with fuel for the twenty digits that a `u64` can have. Nothing else
-- recurses but on the lists and texts themselves.
--
-- Failures. A statement or a command that fails of itself has done nothing; only a `COMMIT` that
-- reports an error may have taken effect. The clock is never before the epoch, so that the `expect`
-- of `unix_now` holds; that of getrandom may panic.
--
-- Time. `NOW()` is the time of its statement, and in `create` that of the transaction's start. In
-- `Main.Step` a second passes only while the timer is not due: this is an assumption on tokio,
-- which wakes a timer that is due, and no code of src/main.rs. In `RateLimit.Window` the clock
-- stays in one window for three calls per request at most: the clock's, `INCR` and `EXPIRE`.
--
-- Not modelled. axum's matching of paths and serde's parsing of requests: an `Endpoint` holds the
-- parsed arguments. The status of a redirect, which axum chooses. The columns that the program
-- never reads. Log lines. The constructors in src/state.rs, the delivery of signals, what axum does
-- when the signal's future panics, and the builders of the OpenAPI document. Requests that overlap,
-- but for rotations: `serve` runs requests in sequence.
pub mod Base
pub mod Config
pub mod Models
pub mod Errors
pub mod External
pub mod Db
pub mod Program
pub mod Users
pub mod Tokens
pub mod Auth
pub mod OauthStore
pub mod RateLimit
pub mod Middleware
pub mod Routes
pub mod Main
pub mod Valkey
pub mod Sample
pub mod Tests
