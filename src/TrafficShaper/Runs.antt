-- ===== src/TrafficShaper/Runs.antt =====
-- A bucket of 1000 bytes per second and some packets.
use ftpn.TrafficShaper.{LeakyBucket, Packet, construct, offer}
use ftpn.Prelude.{◌≡◌, refl, List, [], ◌∷◌}

abbrev bucket : LeakyBucket
bucket = construct 0 8000

abbrev early : List Packet
early = record { time = 1; size = 600 } ∷ record { time = 2; size = 600 } ∷ []

-- The second packet starts an interval and is not counted.
abbrev late : List Packet
late = record { time = 1; size = 600 } ∷ record { time = 1000000002; size = 600 } ∷ []

late_counted : ((offer late bucket).inside ≡ 600) × ((offer late bucket).starting ≡ 600)
unfolding offer construct
late_counted = (refl, refl)
