-- ===== src/Tunnel/Lifetime/Spacing.antt =====
-- The connections of a pool are closed apart from each other.
use native.Mathlib.Nat.{div-le_self, zero-add, mul-le-mul_left}
use ftpn.Tunnel.Pool.{Channel}
use ftpn.Tunnel.Lifetime.{
  sort, back, gap_loop, slot_seconds, remaining, choose, next_lifetime_seconds,
}
use ftpn.Tunnel.Lifetime.Sorting.{Ascending, All-sort, All-sort_back, length-sort, Ascending-sort}
use ftpn.Prelude.{
  ℕ, ◌+◌, ◌-◌, ◌*◌, ◌/◌, ◌≤◌, ◌<◌, ◌≡◌, ◌⊎◌, inl, inr, refl, Bool, true, false, Option, none, some,
  List, [], ◌∷◌, arith, length, ltb, leb, ◌==◌, if◌then◌else◌, All, Bool-cases,
}

-- No number lies less than `d` away from `x`.
abbrev pub Apart : ℕ → ℕ → List ℕ → Type 0
Apart d x = All (λ r. (r + d ≤ x) ⊎ (x + d ≤ r))

-- Two neighbours of the list, with `before` in front of it, are at most `w` apart.
abbrev pub GapsWithin : ℕ → ℕ → List ℕ → Type 0
GapsWithin w before [] = Unit
GapsWithin w before (r ∷ rs) = (r ≤ before + w) × GapsWithin w r rs

-- A gap of width `w` behind `lo` whose middle is `x`, with no number of the list in it.
record Gap (x before : ℕ) (rs : List ℕ) : Type 0 where
  pub lo : ℕ
  pub w : ℕ
  pub middle : x ≡ lo + w / 2
  pub below : lo + w ≤ back before rs
  pub free : All (λ r. (r ≤ lo) ⊎ (lo + w ≤ r)) (before ∷ rs)
  pub widest : back before rs ≤ before + length rs * w
  pub neighbours : GapsWithin w before rs

abbrev GapFrom : ℕ → ℕ → List ℕ → ℕ → ℕ → Type 0
GapFrom x before rs lo w =
    (g : Gap x before rs) × (w ≤ g.w) × (((g.lo ≡ lo) × (g.w ≡ w)) ⊎ (before ≤ g.lo))

-- One element more in front.
GapFrom-cons :
    (x before r : ℕ) (rs : List ℕ) (lo' w' lo w : ℕ)
    → before ≤ r
    → r ≤ before + w
    → lo' + w' ≤ before
    → w' ≤ w
    → ((lo ≡ lo') × (w ≡ w')) ⊎ (before ≤ lo)
    → GapFrom x r rs lo w
    → GapFrom x before (r ∷ rs) lo' w'
GapFrom-cons x before r rs lo' w' lo w up near old grows side (g, wide, from) = (
  record {
    lo = g.lo;
    w = g.w;
    middle = g.middle;
    below = g.below;
    free = (ground (arith, side, from), g.free);
    widest = grind (arith, g.widest, near, wide);
    neighbours = (omega (arith, near, wide), g.neighbours);
  },
  omega (arith, wide, grows),
  ground (arith, side, from),
)

gap_loop-Gap :
    (before : ℕ) (rs : List ℕ) (lo w : ℕ)
    → Ascending before rs
    → lo + w ≤ before
    → GapFrom (gap_loop before rs w (lo + w / 2)) before rs lo w
unfolding gap_loop
gap_loop-Gap before [] lo w asc le = (
  record {
    lo = lo;
    w = w;
    middle = refl;
    below = le;
    free = (inr le, tt);
    widest = omega arith;
    neighbours = tt;
  },
  omega arith,
  inl (refl, refl),
)
gap_loop-Gap before (r ∷ rs) lo w asc le = elim (Bool-cases (ltb w (r - before))) [
  | inl e ↦ rw e (
      GapFrom-cons _ before r rs lo w before (r - before) asc.0 (omega arith) le (ground (arith, e))
        (inr (omega arith)) (gap_loop-Gap r rs before (r - before) asc.1 (omega (arith, asc.0))))
  | inr e ↦ rw e (
      GapFrom-cons _ before r rs lo w lo w asc.0 (ground (arith, e)) le (omega arith)
        (inl (refl, refl)) (gap_loop-Gap r rs lo w asc.1 (omega (arith, asc.0, le))))
]

-- Half of the gap's width away from every number of the list.
Gap-Apart : (x before : ℕ) (rs : List ℕ) (g : Gap x before rs) → Apart (g.w / 2) x (before ∷ rs)
Gap-Apart x before rs g = half (before ∷ rs) g.free
  where
    half : (ys : List ℕ) → All (λ r. (r ≤ g.lo) ⊎ (g.lo + g.w ≤ r)) ys → Apart (g.w / 2) x ys
    half [] h = tt
    half (y ∷ ys) h = (ground (arith, h.0, g.middle), half ys h.1)

-- A number `d` or more behind the last one.
back-Apart :
    (before : ℕ) (rs : List ℕ) (d : ℕ)
    → Ascending before rs
    → Apart d (back before rs + d) (before ∷ rs) × (before ≤ back before rs)
back-Apart before [] d asc = ((inl (omega arith), tt), omega arith)
back-Apart before (r ∷ rs) d asc =
    let rest = back-Apart r rs d asc.1 in
    ((inl (omega (arith, asc.0, rest.1)), rest.0), omega (arith, asc.0, rest.1))

back-All : (P : ℕ → Type 0) (before : ℕ) (rs : List ℕ) → All P (before ∷ rs) → P (back before rs)
back-All P before [] h = h.0
back-All P before (r ∷ rs) h = back-All P r rs h.1

module _ (lifetime_seconds : ℕ) where
  remaining-All :
      (now : ℕ) (pool : List (Option Channel))
      → All (λ r. r ≤ lifetime_seconds) (remaining lifetime_seconds now pool)
  unfolding remaining
  remaining-All now [] = tt
  remaining-All now (none ∷ pool) = remaining-All now pool
  remaining-All now (some c ∷ pool) = ground (arith, remaining-All now pool)

module _ (connection_count lifetime_seconds : ℕ) where
  -- `x` is a lifetime at least `d` seconds away from those that are left, where `d` is a slot, or else half
  -- of the widest gap between neighbours of the sorted list with 0 in front, which `n` numbers bound below.
  abbrev pub Staggers : ℕ → List ℕ → List ℕ → Type 0
  Staggers x left sorted =
      (d : ℕ) × (d ≤ x)
      × (x ≤ lifetime_seconds)
      × Apart d x left
      × ((slot_seconds connection_count lifetime_seconds ≤ d)
          ⊎ ((w : ℕ) × (d ≡ w / 2)
              × GapsWithin w 0 sorted
              × (lifetime_seconds
                  < slot_seconds connection_count lifetime_seconds + length left * (2 * d + 1))))

  choose_none :
      choose connection_count lifetime_seconds [] ≡ slot_seconds connection_count lifetime_seconds
  unfolding choose
  choose_none = refl

  choose_some :
      (front : ℕ) (rs : List ℕ) (fits : Bool)
      → (connection_count == 1) ≡ false
      → leb (back front rs + slot_seconds connection_count lifetime_seconds) lifetime_seconds ≡ fits
      → choose connection_count lifetime_seconds (front ∷ rs) ≡ (
          if fits
          then back front rs + slot_seconds connection_count lifetime_seconds
          else gap_loop front rs front (front / 2))
  unfolding choose
  choose_some front rs fits several e = rw (several, e) refl

  Staggers-same : {x y : ℕ} (left : List ℕ) → x ≡ y → Staggers y left left → Staggers x left left
  Staggers-same left e h = rw e h

  choose-Staggers :
      (left : List ℕ)
      → 1 < connection_count
      → Ascending 0 left
      → All (λ r. r ≤ lifetime_seconds) left
      → Staggers (choose connection_count lifetime_seconds left) left left
  choose-Staggers [] many asc h = Staggers-same [] choose_none (
    slot_seconds connection_count lifetime_seconds,
    omega arith,
    div-le_self _ _,
    tt,
    inl (omega arith),
  )
  choose-Staggers (front ∷ rs) many asc h =
      let slot = slot_seconds connection_count lifetime_seconds in
      elim (Bool-cases (connection_count == 1)) [
        | inl e ↦ absurd (ground (arith, e))
        | inr several ↦ elim (Bool-cases (leb (back front rs + slot) lifetime_seconds)) [
          | inl e ↦ Staggers-same (front ∷ rs) (choose_some front rs true several e) (
            slot,
            omega arith,
            ground (arith, e),
            (back-Apart front rs slot asc.1).0,
            inl (omega arith),
          )
          | inr e ↦
              let (g, wide, from) =
                rw (zero-add (front / 2)) at (gap_loop-Gap front rs 0 front asc.1 (omega arith)) in
              Staggers-same (front ∷ rs) (choose_some front rs false several e)
                (widest_gap front rs g (ground (arith, e)) (back-All _ front rs h) wide)
        ]
      ]
    where
      widest_gap :
          (front : ℕ) (rs : List ℕ) (g : Gap (gap_loop front rs front (front / 2)) front rs)
          → lifetime_seconds < back front rs + slot_seconds connection_count lifetime_seconds
          → back front rs ≤ lifetime_seconds
          → front ≤ g.w
          → Staggers (gap_loop front rs front (front / 2)) (front ∷ rs) (front ∷ rs)
      widest_gap front rs g over top wide =
          let half : g.w ≤ 2 * (g.w / 2) + 1 = omega arith in
          let sum : length rs * g.w ≤ length rs * (2 * (g.w / 2) + 1) =
            mul-le-mul_left (length rs) half in
          (
            g.w / 2,
            omega (arith, g.middle),
            omega (arith, g.middle, g.below, top),
            Gap-Apart _ front rs g,
            inr (
              g.w,
              refl,
              (omega (arith, wide), g.neighbours),
              grind (arith, over, g.widest, sum, half, wide),
            ),
          )

  pub next_lifetime_seconds-Staggers :
      (now : ℕ) (pool : List (Option Channel))
      → 1 < connection_count
      → Staggers
          (next_lifetime_seconds connection_count lifetime_seconds now pool)
          (remaining lifetime_seconds now pool)
          (sort (remaining lifetime_seconds now pool))
  unfolding next_lifetime_seconds
  next_lifetime_seconds-Staggers now pool many =
      let left = remaining lifetime_seconds now pool in
      let (d, le, top, apart, wide) =
        choose-Staggers (sort left) many (Ascending-sort left)
          (All-sort _ left (remaining-All lifetime_seconds now pool)) in
      (d, le, top, All-sort_back _ left apart, rw (length-sort left) at wide)
