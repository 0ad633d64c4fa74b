-- ===== src/Tunnel/Lifetime.antt =====
-- RollingTunnel::NextLifetimeSeconds of the same file: when a new connection is to close.
pub mod Sorting
pub mod Spacing
mod Runs
use ftpn.Tunnel.Pool.{Channel}
use ftpn.Prelude.{
  ℕ, zero, suc, ◌+◌, ◌-◌, ◌*◌, ◌/◌, ◌%◌, Bool, true, false, not, ◌&&◌, ◌||◌, Option, none, some,
  List, [], ◌∷◌, length, ltb, leb, ◌==◌, if◌then◌else◌,
}

-- std::ranges::sort on numbers.
unfoldable pub insert : ℕ → List ℕ → List ℕ
insert x [] = x ∷ []
insert x (y ∷ ys) = let rest = insert x ys in if leb x y then x ∷ y ∷ ys else y ∷ rest

unfoldable pub sort : List ℕ → List ℕ
unfolding insert
sort [] = []
sort (x ∷ xs) = insert x (sort xs)

-- The last element; the first argument if there is none.
abbrev pub back : ℕ → List ℕ → ℕ
back x [] = x
back x (y ∷ ys) = back y ys

-- The loop over the gaps: the element in front, the elements left, the widest gap so far and the
-- middle of it.
unfoldable pub gap_loop : ℕ → List ℕ → ℕ → ℕ → ℕ
gap_loop before [] widest_gap lifetime = lifetime
gap_loop before (r ∷ rs) widest_gap lifetime =
    let wider = ltb widest_gap (r - before) in
    gap_loop r rs (if wider then r - before else widest_gap)
      (if wider then before + (r - before) / 2 else lifetime)

module _ (lifetime_seconds : ℕ) where
  -- The whole seconds that are left to each channel.
  unfoldable pub remaining : ℕ → List (Option Channel) → List ℕ
  remaining now [] = []
  remaining now (none ∷ pool) = remaining now pool
  remaining now (some c ∷ pool) =
      let seconds = (c.close_at - now) / 1000000000 in
      let rest = remaining now pool in
      if ltb 0 seconds && leb seconds lifetime_seconds then seconds ∷ rest else rest

-- ConnectionCount and LifetimeSeconds.
module _ (connection_count lifetime_seconds : ℕ) where
  abbrev pub slot_seconds : ℕ
  slot_seconds = lifetime_seconds / connection_count

  unfoldable pub choose : List ℕ → ℕ
  unfolding gap_loop
  choose [] = slot_seconds
  choose (front ∷ rs) =
      if connection_count == 1
      then slot_seconds
      else if leb (back front rs + slot_seconds) lifetime_seconds
      then back front rs + slot_seconds
      else gap_loop front rs front (front / 2)

  unfoldable pub next_lifetime_seconds : ℕ → List (Option Channel) → ℕ
  unfolding choose remaining sort
  next_lifetime_seconds now pool = choose (sort (remaining lifetime_seconds now pool))
