-- ===== src/Tunnel/Manage/Slots.antt =====
-- A replacement leaves the other slots of the pool as they are.
use ftpn.Tunnel.Pool.{Channel, Tunnel}
use ftpn.Tunnel.Manage.{id_of, exchange, install}
use ftpn.Prelude.{
  ℕ, zero, suc, ◌≡◌, ◌≢◌, ◌⊎◌, inl, inr, refl, ap, true, false, not, ◌&&◌, Option, none, some, List,
  [], ◌∷◌, ◌++◌, arith, length, get_elem?, All, ◌==◌, ==_iff, Bool-cases, Option-cases,
}

-- `pool` is `cs` with slot `i`, whose channel has the id, taken by `new`.
pub record Replaced (id : ℕ) (new : Channel) (cs pool : List (Option Channel)) : Type 0 where
  pub slot : ℕ
  pub old : Channel
  pub found : get_elem? cs slot ≡ some (some old)
  pub same_id : old.connection_id ≡ id
  pub taken : get_elem? pool slot ≡ some (some new)
  pub others : (j : ℕ) → j ≢ slot → get_elem? pool j ≡ get_elem? cs j
  pub same_length : length pool ≡ length cs

abbrev pub OtherId : ℕ → Option Channel → Type 0
OtherId id c = (id ≡ 0) ⊎ (id_of c ≢ id)

abbrev ExchangeHolds :
    ℕ → Channel → List (Option Channel) → Option (Option Channel × List (Option Channel)) → Type 0
ExchangeHolds id new cs none = All (OtherId id) cs
ExchangeHolds id new cs (some (old, pool)) = Replaced id new cs pool

Replaced-here :
    (id : ℕ) (new : Channel) (c : Option Channel) (cs : List (Option Channel))
    → (not (id == 0) && id_of c == id) ≡ true
    → Replaced id new (c ∷ cs) (some new ∷ cs)
Replaced-here id new none cs e = absurd (ground (arith, e, ==_iff 0 id))
Replaced-here id new (some old) cs e = record {
  slot = 0;
  old = old;
  found = refl;
  same_id = ground (arith, e);
  taken = refl;
  others = behind;
  same_length = refl;
}
  where
    behind : (j : ℕ) → j ≢ 0 → get_elem? (some new ∷ cs) j ≡ get_elem? (some old ∷ cs) j
    behind zero h = absurd (h refl)
    behind (suc j) h = refl

Replaced-behind :
    (id : ℕ) (new : Channel) (c : Option Channel) (cs pool : List (Option Channel))
    → Replaced id new cs pool
    → Replaced id new (c ∷ cs) (c ∷ pool)
Replaced-behind id new c cs pool r = record {
  slot = suc r.slot;
  old = r.old;
  found = r.found;
  same_id = r.same_id;
  taken = r.taken;
  others = behind;
  same_length = ap suc r.same_length;
}
  where
    behind : (j : ℕ) → j ≢ suc r.slot → get_elem? (c ∷ pool) j ≡ get_elem? (c ∷ cs) j
    behind zero h = refl
    behind (suc j) h = r.others j λ e. h (ap suc e)

exchange-ExchangeHolds :
    (id : ℕ) (new : Channel) (cs : List (Option Channel))
    → ExchangeHolds id new cs (exchange id new cs)
unfolding exchange
exchange-ExchangeHolds id new [] = tt
exchange-ExchangeHolds id new (c ∷ cs) = elim (Bool-cases (not (id == 0) && id_of c == id)) [
  | inl e ↦ rw e (Replaced-here id new c cs e)
  | inr e ↦ rw e (elim (Option-cases (exchange id new cs)) [
    | inl n ↦ rw n (other e, rw n at (exchange-ExchangeHolds id new cs))
    | inr ((old, pool), h) ↦
        rw h (Replaced-behind id new c cs pool (rw h at (exchange-ExchangeHolds id new cs)))
  ])
]
  where
    other : (not (id == 0) && id_of c == id) ≡ false → OtherId id c
    other e = ground (arith, e)

-- On a running tunnel a connection that is ready takes the slot of the one it replaces, and every
-- other slot keeps its channel; if no channel has that id, or the id is 0, it gets a new slot behind
-- all others.
pub install-Replaced :
    (id : ℕ) (new : Channel) (t : Tunnel)
    → t.running ≡ true
    → Replaced id new t.connections (install id new t).connections
      ⊎ (All (OtherId id) t.connections
          × ((install id new t).connections ≡ t.connections ++ some new ∷ []))
unfolding install
install-Replaced id new t run = elim (Option-cases (exchange id new t.connections)) [
  | inl n ↦ rw (run, n) (inr (rw n at (exchange-ExchangeHolds id new t.connections), refl))
  | inr ((old, pool), h) ↦ rw (run, h) (inl (rw h at (exchange-ExchangeHolds id new t.connections)))
]
