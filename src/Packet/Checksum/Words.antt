-- ===== src/Packet/Checksum/Words.antt =====
-- The sum of the words of a list, with one word set.
use native.Mathlib.Nat.{zero-add, suc-add, mod-eq_of_lt}
use ftpn.Packet.Checksum.{u32_limit, set_u16, sum_words}
use ftpn.Prelude.{
  ℕ, zero, suc, ◌+◌, ◌*◌, ◌≤◌, ◌<◌, ◌≡◌, ◌⊎◌, refl, ap, ◌∙◌, List, [], ◌∷◌, arith, length, All,
  IsByte, take, drop, byte,
}

-- Twice a number, as the words count.
abbrev pub double : ℕ → ℕ
double zero = 0
double (suc j) = suc (suc (double j))

-- The sum without the bound of 32 bits.
unfoldable pub word_sum : List ℕ → ℕ
word_sum [] = 0
word_sum (a ∷ []) = a * 256
word_sum (a ∷ b ∷ bs) = a * 256 + b + word_sum bs

pub word_sum-bound : (xs : List ℕ) → All IsByte xs → word_sum xs ≤ length xs * 65536
unfolding word_sum
word_sum-bound [] h = omega arith
word_sum-bound (a ∷ []) h = omega (arith, h.0)
word_sum-bound (a ∷ b ∷ bs) h = omega (arith, h.0, h.1.0, word_sum-bound bs h.1.1)

-- Below the bound the code's sum is this one.
pub sum_words-word_sum :
    (xs : List ℕ) (sum : ℕ) → sum + word_sum xs < u32_limit → sum_words xs sum ≡ sum + word_sum xs
unfolding sum_words word_sum
sum_words-word_sum [] sum h = omega arith
sum_words-word_sum (a ∷ []) sum h = mod-eq_of_lt h
sum_words-word_sum (a ∷ b ∷ bs) sum h =
    ap (sum_words bs) (mod-eq_of_lt {n = sum + (a * 256 + b)} {m = u32_limit} (omega (arith, h)))
    ∙ sum_words-word_sum bs (sum + (a * 256 + b)) (omega (arith, h))
    ∙ omega arith

pub length-set_u16 : (xs : List ℕ) (k v : ℕ) → length (set_u16 xs k v) ≡ length xs
unfolding set_u16
length-set_u16 [] k v = refl
length-set_u16 (x ∷ xs) (suc k) v = ap suc (length-set_u16 xs k v)
length-set_u16 (x ∷ []) zero v = refl
length-set_u16 (x ∷ y ∷ xs) zero v = refl

-- Setting a word adds what setting it to 0 leaves out.
pub word_sum-set_u16 :
    (j : ℕ) (xs : List ℕ) (v : ℕ)
    → double j + 1 < length xs
    → word_sum (set_u16 xs (double j) v) ≡ word_sum (set_u16 xs (double j) 0) + v
unfolding word_sum set_u16
word_sum-set_u16 j [] v h = absurd (omega arith)
word_sum-set_u16 j (x ∷ []) v h = absurd (omega arith)
word_sum-set_u16 zero (x ∷ y ∷ xs) v h = omega arith
word_sum-set_u16 (suc j) (x ∷ y ∷ xs) v h = omega (arith, word_sum-set_u16 j xs v (omega arith))

pub set_u16-set_u16 : (xs : List ℕ) (k u v : ℕ) → set_u16 (set_u16 xs k u) k v ≡ set_u16 xs k v
unfolding set_u16
set_u16-set_u16 [] k u v = refl
set_u16-set_u16 (x ∷ xs) (suc k) u v = ap (◌∷◌ x) (set_u16-set_u16 xs k u v)
set_u16-set_u16 (x ∷ []) zero u v = refl
set_u16-set_u16 (x ∷ y ∷ xs) zero u v = refl

pub IsByte-set_u16 :
    (xs : List ℕ) (k v : ℕ) → v < 65536 → All IsByte xs → All IsByte (set_u16 xs k v)
unfolding set_u16
IsByte-set_u16 [] k v lt h = h
IsByte-set_u16 (x ∷ xs) (suc k) v lt h = (h.0, IsByte-set_u16 xs k v lt h.1)
IsByte-set_u16 (x ∷ []) zero v lt h = h
IsByte-set_u16 (x ∷ y ∷ xs) zero v lt h = (omega arith, (omega arith, h.1.1))

-- The part of a list with a word set.
pub take-set_u16 :
    (n : ℕ) (xs : List ℕ) (k v : ℕ) → k + 1 < n → take n (set_u16 xs k v) ≡ set_u16 (take n xs) k v
unfolding set_u16
take-set_u16 zero xs k v h = absurd (omega arith)
take-set_u16 (suc n) [] k v h = refl
take-set_u16 (suc n) (x ∷ xs) (suc k) v h = ap (◌∷◌ x) (take-set_u16 n xs k v (omega arith))
take-set_u16 (suc zero) (x ∷ xs) zero v h = absurd (omega arith)
take-set_u16 (suc (suc n)) (x ∷ []) zero v h = refl
take-set_u16 (suc (suc n)) (x ∷ y ∷ xs) zero v h = refl

pub drop-set_u16 :
    (n : ℕ) (xs : List ℕ) (k v : ℕ) → drop n (set_u16 xs (n + k) v) ≡ set_u16 (drop n xs) k v
unfolding set_u16
drop-set_u16 zero xs k v = ap (λ (m : ℕ). set_u16 xs m v) (zero-add k)
drop-set_u16 (suc n) [] k v = refl
drop-set_u16 (suc n) (x ∷ xs) k v =
    ap (λ (m : ℕ). drop (suc n) (set_u16 (x ∷ xs) m v)) (suc-add n k) ∙ drop-set_u16 n xs k v

-- A byte in front of the word.
pub byte-set_u16 : (xs : List ℕ) (i k v : ℕ) → i < k → byte (set_u16 xs k v) i ≡ byte xs i
unfolding set_u16
byte-set_u16 [] i k v lt = refl
byte-set_u16 (x ∷ xs) i zero v lt = absurd (omega arith)
byte-set_u16 (x ∷ xs) zero (suc k) v lt = refl
byte-set_u16 (x ∷ xs) (suc i) (suc k) v lt = byte-set_u16 xs i k v (omega arith)

-- A byte beside the word.
pub byte-set_u16_other :
    (xs : List ℕ) (i k v : ℕ) → (i < k) ⊎ (k + 1 < i) → byte (set_u16 xs k v) i ≡ byte xs i
unfolding set_u16
byte-set_u16_other [] i k v h = refl
byte-set_u16_other (x ∷ xs) zero zero v h = absurd (omega arith)
byte-set_u16_other (x ∷ xs) zero (suc k) v h = refl
byte-set_u16_other (x ∷ xs) (suc i) (suc k) v h = byte-set_u16_other xs i k v (ground (arith, h))
byte-set_u16_other (x ∷ []) (suc i) zero v h = refl
byte-set_u16_other (x ∷ y ∷ xs) (suc zero) zero v h = absurd (ground (arith, h))
byte-set_u16_other (x ∷ y ∷ xs) (suc (suc i)) zero v h = refl

pub IsByte-take : (n : ℕ) (xs : List ℕ) → All IsByte xs → All IsByte (take n xs)
IsByte-take zero xs h = tt
IsByte-take (suc n) [] h = tt
IsByte-take (suc n) (x ∷ xs) h = (h.0, IsByte-take n xs h.1)

pub IsByte-drop : (n : ℕ) (xs : List ℕ) → All IsByte xs → All IsByte (drop n xs)
IsByte-drop zero xs h = h
IsByte-drop (suc n) [] h = tt
IsByte-drop (suc n) (x ∷ xs) h = IsByte-drop n xs h.1
