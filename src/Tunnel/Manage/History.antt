-- ===== src/Tunnel/Manage/History.antt =====
-- What holds of a tunnel after any history of its steps.
use ftpn.Packet.{IpPacket}
use ftpn.Tunnel.Pool.{Answers, Tunnel, send}
use ftpn.Tunnel.Manage.{
  run_spawned, Readings, manage, Poll, repair_connection, drop_connection, stop,
}
use ftpn.Tunnel.Manage.Counts.{clients, count_retiring}
use ftpn.Prelude.{ℕ, inl, refl, true, false, Option, none, List, [], ◌∷◌, arith}
use ftpn.Tunnel.Manage.Places.{
  open_first, poll_first, drop_first, Inv, send-Inv, manage-Inv, stop-Inv, open_first-Inv,
  poll_first-Inv, drop_first-Inv, run_spawned-Inv,
}

-- A step: a packet sent, a turn of ManageCoroutine, the repair makes its client, it polls that and ends or
-- waits again, an exception ends it, a spawned coroutine stops its channels, Stop.
pub data Event : Type 0 where
  sent : Answers → Option IpPacket → Event
  managed : Answers → ℕ → Readings → Event
  opened : ℕ → ℕ → Event
  polled : Poll → ℕ → Event
  threw : ℕ → Event
  retired : Event
  halted : Event

-- Start on a new object.
abbrev pub start_state : Tunnel
start_state = record {
  running = true;
  connections = [];
  connected_notified = false;
  repair_in_flight = false;
  connection_id_counter = 0;
  round_robin_cursor = 0;
  last_spawn_time = 0;
  repairs = [];
  created = [];
  stopped = [];
  lost = [];
  opening = none;
  retiring = [];
  notifications = 0;
}

start_state-Inv : Inv start_state
unfolding clients count_retiring
start_state-Inv = record {
  accounted = λ k. omega arith;
  one_repair = refl;
  opened_by_repair = inl refl;
  notified_once = refl;
}

module _ (connection_count lifetime_seconds stagger_seconds : ℕ) where
  unfoldable pub step : Event → Tunnel → Tunnel
  unfolding open_first poll_first drop_first repair_connection drop_connection
  step (sent a p) t = (send a p t).0
  step (managed a now r) t = manage connection_count lifetime_seconds stagger_seconds a now r t
  step (opened client now) t = open_first client now t.repairs t.opening t
  step (polled p steady) t = poll_first p steady t.repairs t.opening t
  step (threw steady) t = drop_first steady t.repairs t
  step retired t = run_spawned t.retiring t
  step halted t = stop t

  unfoldable pub run : List Event → Tunnel → Tunnel
  unfolding step
  run [] t = t
  run (e ∷ es) t = run es (step e t)

  run-Inv : (es : List Event) (t : Tunnel) → Inv t → Inv (run es t)
  unfolding run
  run-Inv [] t v = v
  run-Inv (sent a p ∷ es) t v = run-Inv es _ (send-Inv a p t v)
  run-Inv (managed a now r ∷ es) t v =
      run-Inv es _ (manage-Inv connection_count lifetime_seconds stagger_seconds a now r t v)
  run-Inv (opened client now ∷ es) t v =
      run-Inv es _ (open_first-Inv client now t.repairs t.opening t v refl refl)
  run-Inv (polled p steady ∷ es) t v =
      run-Inv es _ (poll_first-Inv p steady t.repairs t.opening t v refl refl)
  run-Inv (threw steady ∷ es) t v = run-Inv es _ (drop_first-Inv steady t.repairs t v refl)
  run-Inv (retired ∷ es) t v = run-Inv es _ (run_spawned-Inv t.retiring t v refl)
  run-Inv (halted ∷ es) t v = run-Inv es _ (stop-Inv t v)

  -- After any history of packets, turns of ManageCoroutine, steps of repairs, exceptions in them, steps of
  -- the spawned coroutines that stop channels, and Stop, whatever the clocks and the clients answer: each
  -- client is, as often as it was made, in the pool, with the repair that opens it, with a spawned
  -- coroutine that has not run, among the stopped or dropped by an exception; a repair is marked in flight
  -- exactly while one is spawned, there are never two, and only then a client is being opened; and the
  -- callback was called once if at all.
  pub run-start_state : (es : List Event) → Inv (run es start_state)
  run-start_state es = run-Inv es start_state start_state-Inv
