-- ===== src/Prelude/Maps.antt =====
-- The standard library's maps as association lists. `find_key`, `emplace`, `assign` and `erase_key`
-- are `find`, `insert`, `operator[] =` and `erase`.
use Prim.Native.Nat.{ℕ}
use Prim.Native.String.{String}
use mathlib.Core.Path.{◌≡◌}
use mathlib.Core.Logic.{◌↔◌}
use mathlib.Core.List.{List, [], ◌∷◌}
use mathlib.Core.Bool.{Bool, true}
use mathlib.Core.Option.{Option, none, some}
use native.Mathlib.Omega.{arith}
use text.Mathlib.Text.{◌==◌ as str_eq}
use text.Mathlib.TextEquality.{eq_iff}
use ftpn.Prelude.Tests.{◌==◌, if◌then◌else◌, ==_iff}

-- The equality test of a map's keys.
pub record Key {ℓ} (K : Type ℓ) : Type ℓ where
  pub same : K → K → Bool
  pub same_iff : (a b : K) → (same a b ≡ true) ↔ (a ≡ b)

instance abbrev pub number_key : Key ℕ
number_key = record { same = ◌==◌; same_iff = ==_iff }

instance abbrev pub string_key : Key String
string_key = record { same = str_eq; same_iff = eq_iff }

module _ {ℓ κ} {K : Type ℓ} {V : Type κ} ⦃k : Key K⦄ where
  unfoldable pub find_key : K → List (K × V) → Option V
  find_key a [] = none
  find_key a ((b, v) ∷ m) = if k.same b a then some v else find_key a m

  unfoldable pub erase_key : K → List (K × V) → List (K × V)
  erase_key a [] = []
  erase_key a ((b, v) ∷ m) = let rest = erase_key a m in if k.same b a then rest else (b, v) ∷ rest

  -- `insert` of a key that is there changes nothing.
  unfoldable pub emplace : K → V → List (K × V) → List (K × V)
  unfolding find_key
  emplace a v m = elim (find_key a m) [ none ↦ (a, v) ∷ m | some _ ↦ m ]

  unfoldable pub assign : K → V → List (K × V) → List (K × V)
  unfolding erase_key
  assign a v m = (a, v) ∷ erase_key a m

  pub find_key-erase_key :
      (a b : K) (m : List (K × V))
      → find_key b (erase_key a m) ≡ (if k.same a b then none else find_key b m)
  unfolding find_key erase_key
  find_key-erase_key a b [] = ground arith
  find_key-erase_key a b ((c, v) ∷ m) =
      ground (arith, k.same_iff c a, k.same_iff c b, k.same_iff a b, find_key-erase_key a b m)

  pub find_key-emplace :
      (a b : K) (v : V) (m : List (K × V))
      → find_key a m ≡ none
      → find_key b (emplace a v m) ≡ (if k.same a b then some v else find_key b m)
  unfolding find_key emplace
  find_key-emplace a b v m h = ground arith

  pub find_key-emplace_old :
      (a b : K) (v w : V) (m : List (K × V))
      → find_key a m ≡ some w
      → find_key b (emplace a v m) ≡ find_key b m
  unfolding emplace
  find_key-emplace_old a b v w m h = ground arith

  pub find_key-assign :
      (a b : K) (v : V) (m : List (K × V))
      → find_key b (assign a v m) ≡ (if k.same a b then some v else find_key b m)
  unfolding find_key assign
  find_key-assign a b v m = ground (arith, find_key-erase_key a b m, k.same_iff a b)
