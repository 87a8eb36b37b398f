-- ===== src/Main.antt =====
-- main.rs and shutdown.rs: what a start-up comes to, and the life of the server after it.
pub mod Life
use yaima.Base.{ℕ, zero, suc, ◌≤◌, ◌<◌, String, ◌≡◌, Bool, true, false, ◌||◌, Option, none, some}
use yaima.Config.{Config}

-- What the steps of `main` up to the listener give: the configuration, and the errors, if any, of the
-- connection to the database, the migrations, the two users of Valkey and the listener.
pub record StartUp : Type 0 where
  pub config : Option Config
  pub connect_error : Option String
  pub migrate_error : Option String
  pub state_store_error : Option String
  pub rate_limiter_error : Option String
  pub bind_error : Option String

pub data Started : Type 0 where
  listening : Config → Started
  failed : String → Started
  panicked : Started

-- `?`
abbrev attempt : Option String → Started → Started
attempt none next = next
attempt (some e) next = failed e

-- `expect`
abbrev expected : Option String → Started → Started
expected none next = next
expected (some e) next = panicked

abbrev with_config : StartUp → Option Config → Started
with_config s none = panicked
with_config s (some config) = attempt s.connect_error (
    attempt s.migrate_error (
      expected s.state_store_error
        (expected s.rate_limiter_error (attempt s.bind_error (listening config)))))

-- `main` up to `axum::serve`.
abbrev pub start_up : StartUp → Started
start_up s = with_config s s.config

-- A future that is polled.
pub data Poll : Type 0 where
  pending ready aborted : Poll

-- `tokio::select!` of two: the branch that is polled first, and the other if that one is pending.
abbrev select : Poll → Poll → Poll
select ready other = ready
select aborted other = aborted
select pending other = other

-- `signal` on Unix, from what `ctrl_c()` has given, which may be an error, and from what `recv()` has
-- given of the SIGTERM handler, if that could be installed.
abbrev signal_future : Option (Option String) → Option Bool → Poll
signal_future interrupt none = aborted
signal_future interrupt (some true) = ready
signal_future none (some false) = pending
signal_future (some result) (some false) = ready

abbrev receiver : Bool → Poll
receiver true = ready
receiver false = pending

-- `shutdown_signal`, with the receiver's state if there is a receiver. `select!` takes its branches
-- in either order.
abbrev pub shutdown_signal :
    Option Bool → (receiver_first : Bool) → Option (Option String) → Option Bool → Poll
shutdown_signal none order interrupt terminate = signal_future interrupt terminate
shutdown_signal (some received) true interrupt terminate =
    select (receiver received) (signal_future interrupt terminate)
shutdown_signal (some received) false interrupt terminate =
    select (signal_future interrupt terminate) (receiver received)

-- A server that accepts connections, or one that only ends those that it has.
pub data Phase : Type 0 where
  serving draining : Phase

-- A server in the `select!`, with its connections and the seconds since the `select!` began; one that
-- has left it; and one whose pools are closed.
pub data Server : Type 0 where
  running : Phase → (connections elapsed : ℕ) → Server
  leaving stopped : Server

-- What can happen next. The `select!` ends when the server has drained, or when the timer of
-- `shutdown_timeout_secs` is due, which no further second waits for.
pub data Step (config : Config) : Server → Server → Type 0 where
  accept : {n t : ℕ} → Step config (running serving n t) (running serving (suc n) t)
  hang_up : {p : Phase} {n t : ℕ} → Step config (running p (suc n) t) (running p n t)
  signal :
      {n t : ℕ} (order : Bool) (interrupt : Option (Option String)) (terminate : Option Bool)
      → shutdown_signal none order interrupt terminate ≡ ready
      → Step config (running serving n t) (running draining n t)
  drained : {t : ℕ} → Step config (running draining zero t) leaving
  timed_out :
      {p : Phase} {n t : ℕ} → config.shutdown_timeout_secs ≤ t → Step config (running p n t) leaving
  second :
      {p : Phase} {n t : ℕ}
      → t < config.shutdown_timeout_secs
      → Step config (running p n t) (running p n (suc t))
  close_pools : Step config leaving stopped

-- The server as `main` starts it.
abbrev pub fresh : Server
fresh = running serving 0 0
