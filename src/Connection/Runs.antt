-- ===== src/Connection/Runs.antt =====
-- A login that is granted at the third request, and a manager that reconnects twice.
use ftpn.Connection.Login.{Response, Field, failed, present, KeyName, Manager, login}
use ftpn.Connection.Login.Attempts.{LoginEnds, login-LoginEnds}
use ftpn.Connection.Reconnect.{ConnectionStrategy, Turn, run, stop, started_state}
use ftpn.Connection.Reconnect.Bounded.{twice, EndsWithin, run-EndsWithin, IfEnded, stop-run}
use ftpn.Prelude.{ℕ, ◌≡◌, refl, true, false, none, some, List, [], ◌∷◌, arith, ◌==◌, if◌then◌else◌}

-- Bodies are "t", which has every key with the text "t", or no JSON.
abbrev field : List ℕ → KeyName → Field
field [] k = failed (b'!' ∷ [])
field (c ∷ s) k = present (c ∷ s)

-- Codes 503 and 200 with no JSON, and then 200.
abbrev responses : ℕ → Response
responses i = record {
  body = if i == 2 then b't' ∷ [] else [];
  code = if i == 0 then 503 else 200;
  errmsg = [];
}

abbrev empty : Manager
empty = record {
  jwt_access_token = [];
  latest_error = [];
  latest_error_code = 0;
  dns_ipv4 = none;
  dns_ipv6 = none;
}

granted_at_third :
    ((login field responses empty).1 ≡ true)
    × ((login field responses empty).2 ≡ 3)
    × ((login field responses empty).0.jwt_access_token ≡ b't' ∷ [])
unfolding login
granted_at_third = (refl, refl, refl)

refused : (login field (λ i. record { body = []; code = 403; errmsg = [] }) empty).2 ≡ 1
unfolding login
refused = refl

login-LoginEnds_example : LoginEnds field responses empty (login field responses empty)
login-LoginEnds_example = login-LoginEnds field responses empty

abbrev turn : ℕ → Turn
turn now = record { cleared_at = none; current_time = now }

abbrev turns : List Turn
turns = turn 3_000_000_000 ∷ turn 9_000_000_000 ∷ []

-- Stop comes between the start of the first strategy and its end.
abbrev stopped_turn : Turn
stopped_turn = record { cleared_at = some 2; current_time = 1 }

one_left :
    IfEnded
      (λ s. s.stopped ≡ [])
      (run ConnectionStrategy.dual_rolling_tunnel 2 0 (stopped_turn ∷ []) started_state)
unfolding run
one_left = refl

run-EndsWithin_example :
    EndsWithin 2 (run ConnectionStrategy.dual_rolling_tunnel 2 0 turns started_state)
run-EndsWithin_example =
    run-EndsWithin ConnectionStrategy.dual_rolling_tunnel 2 0 turns (omega arith) (omega arith)

stop-run_example :
    IfEnded
      (λ s.
        (s.running ≡ false)
        × ((stop s).0.stopped ≡ twice s.created)
        × ((stop s).0.strategy_connection ≡ none))
      (run ConnectionStrategy.dual_rolling_tunnel 2 0 turns started_state)
stop-run_example = stop-run ConnectionStrategy.dual_rolling_tunnel 2 0 turns
