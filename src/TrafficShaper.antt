-- ===== src/TrafficShaper.antt =====
-- fptn/src/fptn-server/traffic_shaper/leaky_bucket: the rate limit of a session's direction. Amounts
-- are size_t, times are nanoseconds of the steady clock.
mod Runs
use native.Mathlib.Nat.{mod-eq_of_lt}
use ftpn.Prelude.{
  ℕ, zero, suc, ◌+◌, ◌-◌, ◌*◌, ◌/◌, ◌%◌, ◌^◌, ◌≤◌, ◌<◌, ◌≡◌, refl, ap, ◌⊎◌, inl, inr, Bool, true,
  false, ◌&&◌, List, [], ◌∷◌, arith, ltb, if◌then◌else◌, Bool-cases, All,
}

pub record LeakyBucket : Type 0 where
  pub current_amount : ℕ
  pub max_bytes_per_second : ℕ
  pub last_leak_time : ℕ
  pub full_data_amount : ℕ

abbrev pub size_limit : ℕ
size_limit = 18446744073709551616

unfoldable pub construct : ℕ → ℕ → LeakyBucket
construct now max_bites_per_second = record {
  current_amount = 0;
  max_bytes_per_second = max_bites_per_second / 8;
  last_leak_time = now;
  full_data_amount = 0;
}

-- The milliseconds since the last leak are less than 1000.
abbrev pub in_interval : ℕ → LeakyBucket → Bool
in_interval now b = ltb ((now - b.last_leak_time) / 1000000) 1000

unfoldable pub check_speed_limit : ℕ → ℕ → LeakyBucket → LeakyBucket × Bool
check_speed_limit now packet_size b =
    let filled = (b.current_amount + packet_size) % size_limit in
    if in_interval now b
    then (if ltb filled b.max_bytes_per_second
        then (
          record b {
            current_amount = filled;
            full_data_amount = (b.full_data_amount + packet_size) % size_limit;
          },
          true,
        )
        else (b, false))
    else (record b { last_leak_time = now; current_amount = packet_size }, true)

-- A packet of a size at a time.
pub record Packet : Type 0 where
  pub time : ℕ
  pub size : ℕ

-- Packets one after another: the bucket behind them, the bytes let through inside an interval and the
-- bytes let through by a packet that starts an interval.
pub record Tally : Type 0 where
  pub bucket : LeakyBucket
  pub inside : ℕ
  pub starting : ℕ

abbrev pub total : List Packet → ℕ
total [] = 0
total (p ∷ ps) = p.size + total ps

unfoldable pub offer : List Packet → LeakyBucket → Tally
unfolding check_speed_limit
offer [] b = record { bucket = b; inside = 0; starting = 0 }
offer (p ∷ ps) b =
    let (b', passed) = check_speed_limit p.time p.size b in
    let rest = offer ps b' in
    let kept = if passed then p.size else 0 in
    if in_interval p.time b
    then record rest { inside = kept + rest.inside }
    else record rest { starting = kept + rest.starting }

no_wrap : (n : ℕ) → n < size_limit → n % size_limit ≡ n
no_wrap n h = mod-eq_of_lt h

-- FullDataAmount counts the bytes that were let through inside an interval, and not those of the
-- packets that start an interval (no count reaches 2 ^ 64).
pub full_data_amount-offer :
    (ps : List Packet) (b : LeakyBucket)
    → b.full_data_amount + total ps < size_limit
    → (offer ps b).bucket.full_data_amount ≡ b.full_data_amount + (offer ps b).inside
unfolding offer
full_data_amount-offer [] b h = omega arith
full_data_amount-offer (p ∷ ps) b h = ground (
  arith,
  full_data_amount-offer ps (check_speed_limit p.time p.size b).0,
  no_wrap (b.full_data_amount + p.size),
)

abbrev pub AllInside : LeakyBucket → List Packet → Type 0
AllInside b = All (λ p. in_interval p.time b ≡ true)

inside_one :
    (now size : ℕ) (b : LeakyBucket)
    → in_interval now b ≡ true
    → b.current_amount + size < size_limit
    → let r = check_speed_limit now size b in
      (r.0.last_leak_time ≡ b.last_leak_time)
      × (r.0.max_bytes_per_second ≡ b.max_bytes_per_second)
      × (r.0.current_amount ≡ b.current_amount + (if r.1 then size else 0))
      × ((r.0.current_amount < b.max_bytes_per_second) ⊎ (r.0.current_amount ≡ b.current_amount))
unfolding check_speed_limit
inside_one now size b h small = ground (arith, no_wrap (b.current_amount + size) small)

offer_inside :
    (p : Packet) (ps : List Packet) (b : LeakyBucket)
    → in_interval p.time b ≡ true
    → let r = check_speed_limit p.time p.size b in
      ((offer (p ∷ ps) b).inside ≡ (if r.1 then p.size else 0) + (offer ps r.0).inside)
      × ((offer (p ∷ ps) b).bucket ≡ (offer ps r.0).bucket)
unfolding offer
offer_inside p ps b h = rw (h, offer) (refl, refl)

AllInside-later :
    (ps : List Packet) (b b' : LeakyBucket)
    → b'.last_leak_time ≡ b.last_leak_time
    → AllInside b ps
    → AllInside b' ps
AllInside-later [] b b' e h = tt
AllInside-later (p ∷ ps) b b' e h = (ground (arith, h.0, e), AllInside-later ps b b' e h.1)

-- Packets inside one interval: the amount is what it was and what was let through since, and if
-- anything was let through it is below the limit of bytes in a second (no amount reaches 2 ^ 64).
pub current_amount-offer :
    (ps : List Packet) (b : LeakyBucket)
    → AllInside b ps
    → b.current_amount + total ps < size_limit
    → let t = offer ps b in
      (t.bucket.current_amount ≡ b.current_amount + t.inside)
      × ((t.bucket.current_amount < b.max_bytes_per_second) ⊎ (t.inside ≡ 0))
current_amount-offer [] b h small = unfold offer in (omega arith, inr refl)
current_amount-offer (p ∷ ps) b h small =
    let one = inside_one p.time p.size b h.0 (omega arith) in
    let b' = (check_speed_limit p.time p.size b).0 in
    let step = offer_inside p ps b h.0 in
    let later =
      current_amount-offer ps b' (AllInside-later ps b b' one.0 h.1) (ground (arith, one)) in
    ground (arith, one, step.0, ap (λ t. t.current_amount) step.1, later)
