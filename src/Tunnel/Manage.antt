-- ===== src/Tunnel/Manage.antt =====
-- The coroutines of the same file: ManageCoroutine with the steps it calls, and RepairConnection. What
-- a clock or a client answers is an argument. A step goes up to the next co_await; the spawned coroutines are
-- in the state until they run.
pub mod Counts
pub mod Places
pub mod History
pub mod Alive
pub mod Slots
mod Runs
use ftpn.Tunnel.Pool.{
  Channel, Answers, Repair, Opening, Tunnel, size_limit, client_of, client_started, any_ready,
  is_pool_empty,
}
use ftpn.Tunnel.Lifetime.{next_lifetime_seconds}
use ftpn.Prelude.{
  ℕ, zero, suc, ◌+◌, ◌-◌, ◌*◌, ◌%◌, Bool, true, false, not, ◌&&◌, ◌||◌, Option, none, some, List,
  [], ◌∷◌, ◌++◌, length, ltb, leb, ◌==◌, if◌then◌else◌,
}

abbrev pub replacement_lead_seconds : ℕ
replacement_lead_seconds = 60

abbrev pub second : ℕ
second = 1000000000

-- Stop() of the client, if the pointer is not null.
abbrev pub stop_client : Option ℕ → List ℕ → List ℕ
stop_client none stopped = stopped
stop_client (some c) stopped = c ∷ stopped

-- Stop() of each channel's client, in the order of the pool.
unfoldable pub stop_all : List (Option Channel) → List ℕ → List ℕ
stop_all [] stopped = stopped
stop_all (c ∷ cs) stopped = stop_all cs (stop_client (client_of c) stopped)

unfoldable pub is_dead : Answers → ℕ → Option Channel → Bool
is_dead a now none = true
is_dead a now (some c) = elim c.client [
  | none ↦ true
  | some k ↦ a.is_stopped k || leb c.close_at now
]

-- The channels that stay and those that go.
unfoldable pub split_dead :
    Answers → ℕ → List (Option Channel) → List (Option Channel) × List (Option Channel)
unfolding is_dead
split_dead a now [] = ([], [])
split_dead a now (c ∷ cs) =
    let (alive, dead) = split_dead a now cs in
    if is_dead a now c then (alive, c ∷ dead) else (c ∷ alive, dead)

-- A coroutine is spawned that stops the channels, if there are any.
unfoldable pub spawn :
    List (Option Channel) → List (List (Option Channel)) → List (List (Option Channel))
spawn [] retiring = retiring
spawn (c ∷ cs) retiring = retiring ++ (c ∷ cs) ∷ []

unfoldable pub remove_closed_connections : Answers → ℕ → Tunnel → Tunnel
unfolding split_dead spawn
remove_closed_connections a now t =
    let (alive, dead) = split_dead a now t.connections in
    record t { connections = alive; retiring = spawn dead t.retiring }

-- The first of the spawned coroutines that stop channels runs.
unfoldable pub run_spawned : List (List (Option Channel)) → Tunnel → Tunnel
unfolding stop_all
run_spawned [] t = t
run_spawned (cs ∷ rest) t = record t { retiring = rest; stopped = stop_all cs t.stopped }

-- healthy_count, and replaced_id with replaced_close_at.
pub record Health : Type 0 where
  pub healthy_count : ℕ
  pub replaced_id : ℕ
  pub replaced_close_at : ℕ

unfoldable pub health_pass : Answers → ℕ → Option Channel → Health → Health
health_pass a deadline none h = h
health_pass a deadline (some c) h =
    if not (client_started a c.client)
    then h
    else if ltb deadline c.close_at
    then record h { healthy_count = h.healthy_count + 1 }
    else if h.replaced_id == 0 || ltb c.close_at h.replaced_close_at
    then record h { replaced_id = c.connection_id; replaced_close_at = c.close_at }
    else h

unfoldable pub health_loop : Answers → ℕ → List (Option Channel) → Health → Health
unfolding health_pass
health_loop a deadline [] h = h
health_loop a deadline (c ∷ cs) h = health_loop a deadline cs (health_pass a deadline c h)

-- The readings of the clocks: the system clock in StartRepairIfNeeded and in NextLifetimeSeconds, and
-- the steady clock.
pub record Readings : Type 0 where
  pub now : ℕ
  pub lifetime_now : ℕ
  pub steady_now : ℕ

unfoldable pub notify_connected_once : Answers → Tunnel → Tunnel
unfolding any_ready
notify_connected_once a t =
    if t.connected_notified
    then t
    else if not (any_ready a t.connections)
    then t
    else record t { connected_notified = true; notifications = t.notifications + 1 }

-- ConnectionCount, LifetimeSeconds and StaggerSeconds.
module _ (connection_count lifetime_seconds stagger_seconds : ℕ) where
  unfoldable pub start_repair_if_needed : Answers → Readings → Tunnel → Tunnel
  unfolding health_loop
  start_repair_if_needed a r t =
      let h =
        health_loop a (r.now + replacement_lead_seconds * second) t.connections
          (record { healthy_count = 0; replaced_id = 0; replaced_close_at = 0 }) in
      if not t.running || t.repair_in_flight
      then t
      else if leb connection_count h.healthy_count
      then t
      else if ltb 0 stagger_seconds
          && ltb (r.steady_now - t.last_spawn_time) (stagger_seconds * second)
      then t
      else record t {
        repair_in_flight = true;
        repairs =
            record {
              lifetime_seconds =
                  next_lifetime_seconds connection_count lifetime_seconds r.lifetime_now
                    t.connections;
              replaced_id = h.replaced_id;
            }
            ∷ t.repairs;
      }

  -- The body of the loop of ManageCoroutine.
  unfoldable pub manage : Answers → ℕ → Readings → Tunnel → Tunnel
  unfolding remove_closed_connections start_repair_if_needed notify_connected_once is_pool_empty
  manage a now r t =
      if not t.running
      then t
      else let u = start_repair_if_needed a r (remove_closed_connections a now t) in
        if is_pool_empty u && not u.repair_in_flight
        then record u { running = false }
        else notify_connected_once a u

-- CreateNewConnection up to its first co_await, with the client's number.
unfoldable pub create_new_connection : ℕ → ℕ → ℕ → Tunnel → Tunnel
create_new_connection client now lifetime t =
    let id = (t.connection_id_counter + 1) % size_limit in
    let channel : Channel = record {
      connection_id = id;
      close_at = now + lifetime * second;
      client = some client;
    } in
    record t {
      connection_id_counter = id;
      created = client ∷ t.created;
      opening = some (record { channel = channel; polls = 0 });
    }

-- What the new client answers to IsStarted and IsStopped.
pub record Poll : Type 0 where
  pub started : Bool
  pub gave_up : Bool

pub data PollResult : Type 0 where
  ready failed waiting : PollResult

-- A pass of the polling loop, of which there are 20.
unfoldable pub poll : Poll → ℕ → PollResult
poll p polls =
    if leb 20 polls
    then PollResult.failed
    else if p.started
    then PollResult.ready
    else if p.gave_up
    then PollResult.failed
    else PollResult.waiting

abbrev pub id_of : Option Channel → ℕ
id_of none = 0
id_of (some c) = c.connection_id

-- The channel found by find_if and its place taken by the new one; `none` if none is found.
unfoldable pub exchange :
    ℕ → Channel → List (Option Channel) → Option (Option Channel × List (Option Channel))
exchange id new [] = none
exchange id new (c ∷ cs) =
    let rest = exchange id new cs in
    if not (id == 0) && id_of c == id
    then some (c, some new ∷ cs)
    else elim rest [ none ↦ none | some (old, pool) ↦ some (old, c ∷ pool) ]

-- `if (retired && retired->client)`
abbrev pub spawn_retired :
    Option ℕ → Option Channel → List (List (Option Channel)) → List (List (Option Channel))
spawn_retired none old retiring = retiring
spawn_retired (some client) old retiring = retiring ++ (old ∷ []) ∷ []

-- RepairConnection behind CreateNewConnection, on a channel that is not null.
unfoldable pub install : ℕ → Channel → Tunnel → Tunnel
unfolding exchange
install replaced_id new t =
    if not t.running
    then record t { stopped = stop_client new.client t.stopped }
    else elim (exchange replaced_id new t.connections) [
      | none ↦ record t { connections = t.connections ++ some new ∷ [] }
      | some (old, pool) ↦ record t {
        connections = pool;
        retiring = spawn_retired (client_of old) old t.retiring;
      }
    ]

-- A repair ends: the first of those spawned.
unfoldable pub end_repair : ℕ → List Repair → Tunnel → Tunnel
end_repair steady_now rest t = record t {
  last_spawn_time = steady_now;
  repair_in_flight = false;
  repairs = rest;
}

-- The repair goes on behind a wait: it polls its client, and then waits again or ends.
unfoldable pub repair_connection : PollResult → ℕ → Repair → List Repair → Opening → Tunnel → Tunnel
unfolding install end_repair
repair_connection PollResult.ready steady_now repair rest o t =
    end_repair steady_now rest (install repair.replaced_id o.channel (record t { opening = none }))
repair_connection PollResult.failed steady_now repair rest o t =
    end_repair steady_now rest
      (record t { opening = none; stopped = stop_client o.channel.client t.stopped })
repair_connection PollResult.waiting steady_now repair rest o t = record t {
  opening = some (record o { polls = o.polls + 1 });
}

abbrev pub opening_client : Option Opening → Option ℕ
opening_client none = none
opening_client (some o) = o.channel.client

-- An exception ends the repair; the channel that it opened is dropped.
unfoldable pub drop_connection : ℕ → List Repair → Tunnel → Tunnel
unfolding end_repair
drop_connection steady_now rest t =
    end_repair steady_now rest
      (record t { opening = none; lost = stop_client (opening_client t.opening) t.lost })

-- Stop
unfoldable pub stop : Tunnel → Tunnel
unfolding stop_all
stop t = record t { running = false; stopped = stop_all t.connections t.stopped; connections = [] }
