-- ===== src/Tunnel/Lifetime/Sorting.antt =====
-- The sort of the remaining lifetimes gives an ascending list of the same numbers.
use ftpn.Tunnel.Lifetime.{insert, sort}
use ftpn.Prelude.{
  ℕ, suc, ◌≤◌, ◌≡◌, inl, inr, refl, ap, ◌∙◌, List, [], ◌∷◌, arith, length, leb, All, Bool-cases,
}

-- In ascending order, from a number on.
abbrev pub Ascending : ℕ → List ℕ → Type 0
Ascending x [] = Unit
Ascending x (y ∷ ys) = (x ≤ y) × Ascending y ys

module _ (P : ℕ → Type 0) where
  pub All-insert : (x : ℕ) (xs : List ℕ) → P x → All P xs → All P (insert x xs)
  unfolding insert
  All-insert x [] p h = (p, tt)
  All-insert x (y ∷ ys) p h = ground (arith, p, h, All-insert x ys p h.1)

  pub All-insert_rest : (x : ℕ) (xs : List ℕ) → All P (insert x xs) → P x × All P xs
  unfolding insert
  All-insert_rest x [] h = h
  All-insert_rest x (y ∷ ys) h = elim (Bool-cases (leb x y)) [
    | inl e ↦ rw e at h
    | inr e ↦ let g = rw e at h in let r = All-insert_rest x ys g.1 in (r.0, (g.0, r.1))
  ]

  pub All-sort : (xs : List ℕ) → All P xs → All P (sort xs)
  unfolding sort
  All-sort [] h = tt
  All-sort (x ∷ xs) h = All-insert x (sort xs) h.0 (All-sort xs h.1)

  pub All-sort_back : (xs : List ℕ) → All P (sort xs) → All P xs
  unfolding sort
  All-sort_back [] h = tt
  All-sort_back (x ∷ xs) h = let r = All-insert_rest x (sort xs) h in (r.0, All-sort_back xs r.1)

pub length-insert : (x : ℕ) (xs : List ℕ) → length (insert x xs) ≡ suc (length xs)
unfolding insert
length-insert x [] = refl
length-insert x (y ∷ ys) = ground (arith, length-insert x ys)

pub length-sort : (xs : List ℕ) → length (sort xs) ≡ length xs
unfolding sort
length-sort [] = refl
length-sort (x ∷ xs) = length-insert x (sort xs) ∙ ap suc (length-sort xs)

pub Ascending-insert : (a x : ℕ) (xs : List ℕ) → a ≤ x → Ascending a xs → Ascending a (insert x xs)
unfolding insert
Ascending-insert a x [] le h = (le, tt)
Ascending-insert a x (y ∷ ys) le h = elim (Bool-cases (leb x y)) [
  | inl e ↦ rw e (le, (ground (arith, e), h.1))
  | inr e ↦ rw e (h.0, Ascending-insert y x ys (ground (arith, e)) h.1)
]

pub Ascending-sort : (xs : List ℕ) → Ascending 0 (sort xs)
unfolding sort
Ascending-sort [] = tt
Ascending-sort (x ∷ xs) = Ascending-insert 0 x (sort xs) (omega arith) (Ascending-sort xs)
