-- ===== src/Tunnel/Lifetime/Runs.antt =====
-- Three connections with 600 seconds each, of which two are left with 500 and 40 seconds.
use ftpn.Tunnel.Pool.{Channel}
use ftpn.Tunnel.Lifetime.{sort, remaining, next_lifetime_seconds}
use ftpn.Tunnel.Lifetime.Spacing.{Staggers, next_lifetime_seconds-Staggers}
use ftpn.Prelude.{◌≡◌, refl, Option, none, some, List, [], ◌∷◌, arith}

abbrev pool : List (Option Channel)
pool =
    some (record { connection_id = 1; close_at = 500000000000; client = some 4 })
    ∷ some (record { connection_id = 2; close_at = 40000000000; client = some 5 })
    ∷ none
    ∷ []

next_lifetime_seconds-Staggers_example :
    Staggers 3 600
      (next_lifetime_seconds 3 600 0 pool)
      (remaining 600 0 pool)
      (sort (remaining 600 0 pool))
next_lifetime_seconds-Staggers_example = next_lifetime_seconds-Staggers 3 600 0 pool (omega arith)

-- The middle of the gap from 40 to 500.
widest_gap_halved : next_lifetime_seconds 3 600 0 pool ≡ 270
unfolding next_lifetime_seconds
widest_gap_halved = refl
