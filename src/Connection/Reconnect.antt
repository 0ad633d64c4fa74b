-- ===== src/Connection/Reconnect.antt =====
-- ConnectionManager::Run, Start, Stop and Send of
-- fptn/src/fptn-protocol-lib/connection/connection_manager/connection_manager.cpp. Run is a loop over turns:
-- a turn says what the clock shows and at which of its readings of running_ Stop has cleared it.
-- Times are nanoseconds.
pub mod Bounded
use ftpn.Prelude.{
  ℕ, zero, suc, ◌+◌, ◌-◌, ◌*◌, ◌≤◌, ◌<◌, ◌≡◌, refl, Bool, true, false, not, ◌&&◌, Option, none,
  some, List, [], ◌∷◌, ◌++◌, arith, ltb, leb, length, if◌then◌else◌,
}

-- strategies::ConnectionStrategy
pub data ConnectionStrategy : Type 0 where
  single_rolling_tunnel dual_rolling_tunnel triple_rolling_tunnel browser_mimicry :
      ConnectionStrategy

-- The class that Run makes an object of: a rolling tunnel with its number of connections, or the mimicry.
pub data StrategyClass : Type 0 where
  rolling_tunnel : ℕ → StrategyClass
  mimicry : StrategyClass

pub record Strategy : Type 0 where
  pub number : ℕ
  pub class : StrategyClass

-- `created`, `started` and `stopped` are the objects made and those that Start and Stop were called on,
-- the last one first.
pub record Runner : Type 0 where
  pub running : Bool
  pub reconnection_attempts : ℕ
  pub window_start_time : ℕ
  pub strategy_connection : Option Strategy
  pub created : List Strategy
  pub started : List Strategy
  pub stopped : List Strategy

-- `cleared_at` is the first reading of running_ in the turn that finds it false, if one does. The readings
-- are 0 to make the object, 1 to start it, 2 behind the start, 3 to clean up and 4 at the loop's head.
pub record Turn : Type 0 where
  pub cleared_at : Option ℕ
  pub current_time : ℕ

abbrev pub reconnection_window : ℕ
reconnection_window = 120_000_000_000

abbrev pub runs_at : Option ℕ → ℕ → Bool
runs_at none i = true
runs_at (some n) i = ltb i n

unfoldable pub class_of : ConnectionStrategy → StrategyClass
class_of ConnectionStrategy.single_rolling_tunnel = rolling_tunnel 1
class_of ConnectionStrategy.dual_rolling_tunnel = rolling_tunnel 2
class_of ConnectionStrategy.triple_rolling_tunnel = rolling_tunnel 3
class_of ConnectionStrategy.browser_mimicry = mimicry

abbrev pub live : Option Strategy → List Strategy
live none = []
live (some o) = o ∷ []

-- strategy_connection_->Stop() and reset(), whose destructor calls Stop() again.
unfoldable pub stop_strategy : Option Strategy → Runner → Runner
stop_strategy none s = s
stop_strategy (some o) s = record s { strategy_connection = none; stopped = o ∷ o ∷ s.stopped }

unfoldable pub count_attempt : ℕ → Runner → Runner
count_attempt now s =
    if leb reconnection_window (now - s.window_start_time)
    then record s { reconnection_attempts = 0; window_start_time = now }
    else record s { reconnection_attempts = s.reconnection_attempts + 1 }

unfoldable pub start_strategy : Turn → Runner → Runner
start_strategy t s =
    if runs_at t.cleared_at 1
    then record s { started = live s.strategy_connection ++ s.started }
    else s

-- The loop body from the clean-up on.
unfoldable pub clean_up : Turn → Runner → Runner
unfolding stop_strategy count_attempt
clean_up t s =
    let cleaned = if runs_at t.cleared_at 3 then stop_strategy s.strategy_connection s else s in
    record (count_attempt t.current_time cleaned) { running = runs_at t.cleared_at 4 }

module _ (connection_strategy_type : ConnectionStrategy) where
  unfoldable pub create_strategy : Turn → Runner → Runner
  unfolding class_of
  create_strategy t s =
      let o : Strategy = record {
        number = length s.created;
        class = class_of connection_strategy_type;
      } in
      if runs_at t.cleared_at 0
      then record s { strategy_connection = some o; created = o ∷ s.created }
      else s

  -- The loop body of Run; `true` is its `break`.
  unfoldable pub run_turn : Turn → Runner → Runner × Bool
  unfolding create_strategy start_strategy clean_up
  run_turn t s =
      let s' = start_strategy t (create_strategy t s) in
      if runs_at t.cleared_at 2
      then (clean_up t s', false)
      else (record s' { running = false }, true)

  module _ (max_reconnections : ℕ) where
    unfoldable pub goes_on : Runner → Bool
    goes_on s = s.running && ltb s.reconnection_attempts max_reconnections

    -- The loop of Run over its turns; `none` if it still runs behind the last one.
    unfoldable pub run_loop : List Turn → Runner → Option Runner
    unfolding run_turn goes_on
    run_loop [] s = if goes_on s then none else some (record s { running = false })
    run_loop (t ∷ ts) s =
        let turn = run_turn t s in
        let rest = run_loop ts turn.0 in
        if goes_on s
        then if turn.1 then some (record turn.0 { running = false }) else rest
        else some (record s { running = false })

    -- Run, entered at a time.
    unfoldable pub run : ℕ → List Turn → Runner → Option Runner
    unfolding run_loop
    run start ts s = run_loop ts (record s { reconnection_attempts = 0; window_start_time = start })

-- Stop, with the thread of Run ended.
unfoldable pub stop : Runner → Runner × Bool
unfolding stop_strategy
stop s = (record (stop_strategy s.strategy_connection s) { running = false }, s.running)

-- Send hands the packet on exactly if it returns true.
unfoldable pub send : Runner → Bool
send s = elim s.strategy_connection [ none ↦ false | some o ↦ s.running ]

-- What Start leaves to Run on a new object.
abbrev pub started_state : Runner
started_state = record {
  running = true;
  reconnection_attempts = 0;
  window_start_time = 0;
  strategy_connection = none;
  created = [];
  started = [];
  stopped = [];
}
