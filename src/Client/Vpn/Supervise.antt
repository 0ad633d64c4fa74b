-- ===== src/Client/Vpn/Supervise.antt =====
-- VpnManager::Supervise of fptn/src/fptn-client/vpn/vpn_manager.cpp, over what each pass of its loop sees.
use ftpn.Client.Vpn.{routes_apply, routes_clean, http_start, http_stop, backoff, VpnManager}
use ftpn.Prelude.{
  ℕ, zero, suc, ◌+◌, Bool, true, false, not, Option, none, some, List, [], ◌∷◌, ltb, leb, ◌==◌,
  if◌then◌else◌,
}

-- `cleared_at` is the first reading of running_ in the pass that finds it false, if one does: 0 behind the
-- wait, 1 behind the backoff, 2 at the loop's head. The others are what the HTTP client answers.
pub record Sight : Type 0 where
  pub cleared_at : Option ℕ
  pub http_connected : Bool
  pub http_started : Bool

abbrev pub runs_at : Option ℕ → ℕ → Bool
runs_at none i = true
runs_at (some n) i = ltb i n

abbrev pub max_full_restarts : ℕ
max_full_restarts = 10

-- In seconds.
unfoldable pub reconnect_backoff : ℕ → ℕ
reconnect_backoff n = if n == 1 then 2 else if n == 2 then 5 else if n == 3 then 15 else 30

abbrev pub at_least_one : ℕ → ℕ
at_least_one zero = 1
at_least_one (suc n) = suc n

unfoldable pub mark_reconnecting : VpnManager → VpnManager
mark_reconnecting m =
    if m.ever_connected
    then record m { reconnect_attempt = at_least_one m.full_restart_count; reconnecting = true }
    else m

unfoldable pub give_up : VpnManager → VpnManager
give_up m = record m { calls = routes_clean ∷ m.calls; reconnecting = false; gave_up = true }

-- A full restart; `true` if it is left in the backoff.
unfoldable pub restart : Sight → VpnManager → VpnManager × Bool
unfolding reconnect_backoff
restart o m =
    let n = m.full_restart_count + 1 in
    let down = record m {
      full_restart_count = n;
      reconnect_attempt = n;
      calls = backoff (reconnect_backoff n) ∷ routes_clean ∷ http_stop ∷ m.calls;
    } in
    if runs_at o.cleared_at 1
    then (
      record down {
        running = runs_at o.cleared_at 2;
        calls = http_start ∷ routes_apply ∷ down.calls;
      },
      false,
    )
    else (record down { running = false }, true)

-- The loop body; `true` is its `break`.
unfoldable pub supervise_pass : Sight → VpnManager → VpnManager × Bool
unfolding mark_reconnecting give_up restart
supervise_pass o m =
    if not (runs_at o.cleared_at 0)
    then (record m { running = false }, true)
    else if o.http_connected
    then (
      record m {
        ever_connected = true;
        full_restart_count = 0;
        reconnecting = false;
        reconnect_attempt = 0;
        running = runs_at o.cleared_at 2;
      },
      false,
    )
    else let marked = mark_reconnecting m in
      if o.http_started
      then (record marked { running = runs_at o.cleared_at 2 }, false)
      else if leb max_full_restarts m.full_restart_count
      then (give_up marked, true)
      else restart o marked

-- Supervise over a sequence of sights. `true` if it has ended.
unfoldable pub supervise_loop : List Sight → VpnManager → VpnManager × Bool
unfolding supervise_pass
supervise_loop [] m = (m, not m.running)
supervise_loop (o ∷ os) m =
    let pass = supervise_pass o m in
    let rest = supervise_loop os pass.0 in
    if not m.running then (m, true) else if pass.1 then (pass.0, true) else rest

unfoldable pub supervise : List Sight → VpnManager → VpnManager × Bool
unfolding supervise_loop
supervise os m = supervise_loop os (record m { full_restart_count = 0 })
