-- ===== src/Main/Life.antt =====
-- main.rs: how long the server runs.
use yaima.Base.{ℕ, zero, suc, ◌+◌, ◌-◌, ◌≤◌, ◌≡◌, arith}
use yaima.Config.{Config}
use yaima.Main.{
  Phase, Server, running, leaving, stopped, Step, accept, hang_up, signal, drained, timed_out,
  second, close_pools, fresh,
}

-- A step that no signal, no client and no connection takes part in.
abbrev pub IsQuiet : {config : Config} {s s' : Server} → Step config s s' → Type 0
IsQuiet accept = ⊥
IsQuiet hang_up = ⊥
IsQuiet (signal order i t h) = ⊥
IsQuiet drained = ⊥
IsQuiet (timed_out h) = Unit
IsQuiet (second h) = Unit
IsQuiet close_pools = Unit

module _ (config : Config) where
  pub data Run : Server → Server → Type 0 where
    here : {s : Server} → Run s s
    next : {s t u : Server} → Run s t → Step config t u → Run s u

  pub data QuietRun : Server → Server → Type 0 where
    quiet_end : {s : Server} → QuietRun s s
    quietly : {s t u : Server} (step : Step config s t) → IsQuiet step → QuietRun t u → QuietRun s u

  -- The timer is not overdue.
  abbrev pub InTime : Server → Type 0
  InTime (running p n t) = t ≤ config.shutdown_timeout_secs
  InTime leaving = Unit
  InTime stopped = Unit

  Step-InTime : {s s' : Server} → Step config s s' → InTime s → InTime s'
  Step-InTime accept h = h
  Step-InTime hang_up h = h
  Step-InTime (signal order i t e) h = h
  Step-InTime drained h = tt
  Step-InTime (timed_out due) h = tt
  Step-InTime (second early) h = omega (arith, early)
  Step-InTime close_pools h = tt

  Run-InTime : {s s' : Server} → Run s s' → InTime s → InTime s'
  Run-InTime here h = h
  Run-InTime (next r step) h = Step-InTime step (Run-InTime r h)

  wait :
      (left t : ℕ) (p : Phase) (n : ℕ)
      → t + left ≡ config.shutdown_timeout_secs
      → QuietRun (running p n t) stopped
  wait zero t p n h = quietly (timed_out (omega (arith, h))) tt (quietly close_pools tt quiet_end)
  wait (suc left) t p n h =
      quietly (second (omega (arith, h))) tt (wait left (suc t) p n (omega (arith, h)))

  Quiet-stops : (s : Server) → InTime s → QuietRun s stopped
  Quiet-stops (running p n t) h = wait (config.shutdown_timeout_secs - t) t p n (omega (arith, h))
  Quiet-stops leaving h = quietly close_pools tt quiet_end
  Quiet-stops stopped h = quiet_end

  -- From its start the server is never up for longer than `shutdown_timeout_secs`, whatever signals
  -- and connections come, where no second passes over a timer that is due; and wherever it is, the
  -- timer alone brings it to stop, without a signal, also while it serves.
  pub server_stops : (s : Server) → Run fresh s → InTime s × QuietRun s stopped
  server_stops s r = let in_time = Run-InTime r (omega arith) in (in_time, Quiet-stops s in_time)
