-- ===== src/Tunnel/Manage/Runs.antt =====
-- A tunnel of two connections.
use ftpn.Tunnel.Pool.{Channel, Answers, Tunnel}
use ftpn.Tunnel.Manage.{Readings, manage, Poll, install}
use ftpn.Tunnel.Manage.Slots.{Replaced, OtherId, install-Replaced}
use ftpn.Tunnel.Manage.History.{
  Event, managed, opened, polled, threw, retired, halted, start_state, run, run-start_state,
}
use ftpn.Tunnel.Manage.Places.{Inv}
use ftpn.Tunnel.Manage.Alive.{AliveOrStopped, manage-running}
use ftpn.Prelude.{ℕ, ◌≡◌, ◌⊎◌, refl, true, false, some, List, [], ◌∷◌, ◌++◌, All, length}

abbrev answers : Answers
answers = record { is_started = λ c. true; is_stopped = λ c. false }

abbrev at : ℕ → Readings
at n = record { now = n; lifetime_now = n; steady_now = n }

abbrev coming : Poll
coming = record { started = false; gave_up = false }

abbrev up : Poll
up = record { started = true; gave_up = false }

-- Two connections come up at their second poll; the first is replaced 60 seconds before its end.
abbrev events : List Event
events =
    managed answers 1000000000000 (at 1000000000000)
    ∷ opened 7 1000000000000
    ∷ polled coming 1000500000000
    ∷ polled up 1001000000000
    ∷ managed answers 1030000000000 (at 1030000000000)
    ∷ opened 8 1030000000000
    ∷ polled up 1031000000000
    ∷ managed answers 1250000000000 (at 1250000000000)
    ∷ opened 9 1250000000000
    ∷ polled up 1251000000000
    ∷ retired
    ∷ []

run-start_state_example : Inv (run 2 600 15 events start_state)
run-start_state_example = run-start_state 2 600 15 events

first_replaced :
    ((run 2 600 15 events start_state).stopped ≡ 7 ∷ [])
    × (length (run 2 600 15 events start_state).connections ≡ 2)
unfolding run manage ftpn.Tunnel.Manage.repair_connection ftpn.Tunnel.Manage.create_new_connection
    ftpn.Tunnel.Manage.poll ftpn.Tunnel.Manage.run_spawned
    ftpn.Tunnel.Lifetime.next_lifetime_seconds
first_replaced = (refl, refl)

-- Stop while the repair waits: its client is stopped when that goes on, or never, if it does not.
abbrev stopped_early : List Event
stopped_early =
    managed answers 1000000000000 (at 1000000000000) ∷ opened 7 1000000000000 ∷ halted ∷ []

late_client :
    ((run 2 600 15 stopped_early start_state).stopped ≡ [])
    × ((run 2 600 15 (stopped_early ++ polled up 1000500000000 ∷ []) start_state).stopped ≡ 7 ∷ [])
    × ((run 2 600 15 (stopped_early ++ threw 1000500000000 ∷ []) start_state).lost ≡ 7 ∷ [])
unfolding run manage ftpn.Tunnel.Manage.repair_connection ftpn.Tunnel.Manage.create_new_connection
    ftpn.Tunnel.Manage.poll ftpn.Tunnel.Manage.drop_connection ftpn.Tunnel.Manage.stop
    ftpn.Tunnel.Lifetime.next_lifetime_seconds
late_client = (refl, refl, refl)

running_before : (run 2 600 15 events start_state).running ≡ true
unfolding run manage ftpn.Tunnel.Manage.repair_connection ftpn.Tunnel.Manage.create_new_connection
    ftpn.Tunnel.Manage.poll ftpn.Tunnel.Manage.run_spawned
    ftpn.Tunnel.Lifetime.next_lifetime_seconds
running_before = refl

manage-running_example :
    AliveOrStopped
      (manage 2 600 15 answers 1252000000000 (at 1252000000000) (run 2 600 15 events start_state))
manage-running_example =
    manage-running 2 600 15 events answers 1252000000000 (at 1252000000000) running_before

abbrev new_channel : Channel
new_channel = record { connection_id = 4; close_at = 9; client = some 10 }

abbrev before : Tunnel
before = record start_state {
  connections =
      some (record { connection_id = 1; close_at = 5; client = some 7 })
      ∷ some (record { connection_id = 2; close_at = 8; client = some 8 })
      ∷ [];
}

install-Replaced_example :
    Replaced 1 new_channel before.connections (install 1 new_channel before).connections
    ⊎ (All (OtherId 1) before.connections
        × ((install 1 new_channel before).connections
            ≡ before.connections ++ some new_channel ∷ []))
install-Replaced_example = install-Replaced 1 new_channel before refl
