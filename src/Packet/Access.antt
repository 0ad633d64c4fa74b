-- ===== src/Packet/Access.antt =====
-- Reads from a buffer as the packet parsers make them: through a pointer, with no test of their own.
-- A read behind the last byte is `out_of_bounds`, undefined behaviour of the source.
use ftpn.Prelude.{
  ℕ, zero, suc, ◌+◌, ◌*◌, ◌≤◌, ◌<◌, ◌≡◌, refl, ap, sym, ◌∙◌, ◌++◌, Bool, true, false, Option, none,
  some, List, [], ◌∷◌, arith, length, if◌then◌else◌,
}
use mathlib.Core.Path.{subst}
use native.Mathlib.Nat.{zero-add, suc-add, add_assoc, add-zero}

pub data Access {ℓ} (A : Type ℓ) : Type ℓ where
  ok : A → Access A
  out_of_bounds : Access A

infixl 20 ◌>>=◌
abbrev pub ◌>>=◌ {ℓ κ} : {A : Type ℓ} {B : Type κ} → Access A → (A → Access B) → Access B
x >>= k = elim x [ ok a ↦ k a | out_of_bounds ↦ out_of_bounds ]

unfoldable pub read : List ℕ → ℕ → Access ℕ
read [] i = out_of_bounds
read (b ∷ p) zero = ok b
read (b ∷ p) (suc i) = read p i

-- ReadU16Be
unfoldable pub read_u16 : List ℕ → ℕ → Access ℕ
unfolding read
read_u16 p i = do high ← read p i; low ← read p (i + 1); ok (high * 256 + low)

-- The `k` bytes from `i` on.
unfoldable pub read_bytes : List ℕ → ℕ → ℕ → Access (List ℕ)
unfolding read
read_bytes p i zero = ok []
read_bytes p i (suc k) = do b ← read p i; bs ← read_bytes p (i + 1) k; ok (b ∷ bs)

-- What a pass of a loop decides: leave it with a result, or go round again.
pub data Pass {ℓ κ} (A : Type ℓ) (S : Type κ) : Type (ℓ ⊔ κ) where
  leave : A → Pass A S
  again : S → Pass A S

abbrev pub turn {ℓ κ} : {A : Type ℓ} {S : Type κ} → Pass A S → (S → Access A) → Access A
turn (leave a) k = ok a
turn (again s) k = k s

-- `if (!x) return d;` and then the rest.
abbrev pub or_return {ℓ κ} : {A : Type ℓ} {S : Type κ} → Option S → A → (S → Access A) → Access A
or_return none d k = ok d
or_return (some s) d k = k s

-- The value of a parser that never reads out of bounds; the other argument is not used then.
abbrev pub value_or {ℓ} : {A : Type ℓ} → A → Access A → A
value_or d (ok a) = a
value_or d out_of_bounds = d

-- The computation reads inside the buffer only, and its value satisfies `P`.
pub record Returns {ℓ κ} {A : Type ℓ} (x : Access A) (P : A → Type κ) : Type (ℓ ⊔ κ) where
  pub value : A
  pub returns : x ≡ ok value
  pub holds : P value

module _ {ℓ κ} {A : Type ℓ} {P : A → Type κ} where
  pub Returns-ok : (a : A) → P a → Returns (ok a) P
  Returns-ok a h = record { value = a; returns = refl; holds = h }

  pub Returns-bind {ℓ' κ'} :
      {B : Type ℓ'} {Q : B → Type κ'} (x : Access A) (k : A → Access B)
      → Returns x P
      → ((a : A) → P a → Returns (k a) Q)
      → Returns (x >>= k) Q
  Returns-bind x k r h = rw r.returns (h r.value r.holds)

  pub Returns-if :
      (b : Bool) (x y : Access A)
      → (b ≡ true → Returns x P)
      → (b ≡ false → Returns y P)
      → Returns (if b then x else y) P
  Returns-if true x y hx hy = hx refl
  Returns-if false x y hx hy = hy refl

-- A pass whose result, or whose next state, satisfies a condition.
abbrev pub PassHolds {ℓ κ ℓ'} :
    {A : Type ℓ} {S : Type κ} → (A → Type ℓ') → (S → Type ℓ') → Pass A S → Type ℓ'
PassHolds P Q (leave a) = P a
PassHolds P Q (again s) = Q s

pub Returns-turn {ℓ κ ℓ'} :
    {A : Type ℓ} {S : Type κ} {P : A → Type ℓ'} {Q : S → Type ℓ'} (pass : Pass A S)
    (k : S → Access A)
    → PassHolds P Q pass
    → ((s : S) → Q s → Returns (k s) P)
    → Returns (turn pass k) P
Returns-turn (leave a) k h hk = Returns-ok a h
Returns-turn (again s) k h hk = hk s h

-- A pointer that is null or satisfies a condition.
abbrev pub NullOr {κ ℓ'} : {S : Type κ} → (S → Type ℓ') → Option S → Type ℓ'
NullOr Q none = Unit
NullOr Q (some s) = Q s

pub Returns-or_return {ℓ κ ℓ' κ'} :
    {A : Type ℓ} {S : Type κ} {P : A → Type ℓ'} {Q : S → Type κ'} (x : Option S) (d : A)
    (k : S → Access A)
    → NullOr Q x
    → P d
    → ((s : S) → Q s → Returns (k s) P)
    → Returns (or_return x d k) P
Returns-or_return none d k h hd hk = Returns-ok d hd
Returns-or_return (some s) d k h hd hk = hk s h

-- The value is the one that the computation returns.
pub Returns-with {ℓ κ} :
    {A : Type ℓ} {P : A → Type κ} {x : Access A} → Returns x P → Returns x (λ a. P a × (x ≡ ok a))
Returns-with r = record { value = r.value; returns = r.returns; holds = (r.holds, r.returns) }

pub Returns-weaken {ℓ κ κ'} :
    {A : Type ℓ} {P : A → Type κ} {Q : A → Type κ'} {x : Access A}
    → Returns x P
    → ((a : A) → P a → Q a)
    → Returns x Q
Returns-weaken r h = record { value = r.value; returns = r.returns; holds = h r.value r.holds }

pub Returns-both {ℓ κ κ'} :
    {A : Type ℓ} {P : A → Type κ} {Q : A → Type κ'} {x : Access A}
    → Returns x P
    → Returns x Q
    → Returns x (λ a. P a × Q a)
Returns-both {Q = Q} r s =
    let same : s.value ≡ r.value = ap (value_or r.value) (sym s.returns ∙ r.returns) in
    record { value = r.value; returns = r.returns; holds = (r.holds, subst Q same s.holds) }

-- The value carries no condition.
abbrev pub Any {ℓ} : {A : Type ℓ} → A → Type 0
Any a = Unit

pub read-Returns : (p : List ℕ) (i : ℕ) → i < length p → Returns (read p i) Any
unfolding read
read-Returns [] i lt = absurd (omega arith)
read-Returns (b ∷ p) zero lt = Returns-ok b tt
read-Returns (b ∷ p) (suc i) lt = read-Returns p i (omega arith)

pub read_u16-Returns : (p : List ℕ) (i : ℕ) → i + 1 < length p → Returns (read_u16 p i) Any
unfolding read_u16
read_u16-Returns p i lt =
    Returns-bind _ _ (read-Returns p i (omega arith))
      λ high _. Returns-bind _ _ (read-Returns p (i + 1) lt) λ low _. Returns-ok _ tt

pub read_bytes-Returns :
    (p : List ℕ) (i k : ℕ) → i + k ≤ length p → Returns (read_bytes p i k) (λ bs. length bs ≡ k)
unfolding read_bytes
read_bytes-Returns p i zero le = Returns-ok [] refl
read_bytes-Returns p i (suc k) le = Returns-bind _ _ (read-Returns p i (omega arith)) λ b _.
    Returns-bind _ _ (read_bytes-Returns p (i + 1) k (omega arith))
      λ bs h. Returns-ok (b ∷ bs) (ap suc h)

pub read-append_front : (xs ys : List ℕ) (i : ℕ) → i < length xs → read (xs ++ ys) i ≡ read xs i
unfolding read
read-append_front [] ys i lt = absurd (omega arith)
read-append_front (x ∷ xs) ys zero lt = refl
read-append_front (x ∷ xs) ys (suc i) lt = read-append_front xs ys i (omega arith)

pub read-append_back : (xs ys : List ℕ) (i : ℕ) → read (xs ++ ys) (length xs + i) ≡ read ys i
unfolding read
read-append_back [] ys i = ap (read ys) (zero-add i)
read-append_back (x ∷ xs) ys i =
    ap (read (x ∷ xs ++ ys)) (suc-add (length xs) i) ∙ read-append_back xs ys i

-- Reading behind a front part is reading the rest.
read_bytes-append_back :
    (xs ys : List ℕ) (i k : ℕ) → read_bytes (xs ++ ys) (length xs + i) k ≡ read_bytes ys i k
unfolding read_bytes
read_bytes-append_back xs ys i zero = refl
read_bytes-append_back xs ys i (suc k) =
    rw (read-append_back xs ys i, add_assoc (length xs) i 1, read_bytes-append_back xs ys (i + 1) k)

read_bytes-append_front : (ys zs : List ℕ) → read_bytes (ys ++ zs) 0 (length ys) ≡ ok ys
unfolding read_bytes
read_bytes-append_front [] zs = refl
read_bytes-append_front (y ∷ ys) zs =
    rw (read_bytes-append_back (y ∷ []) (ys ++ zs) 0 (length ys), read_bytes-append_front ys zs)

-- The bytes of a part of a list, read from where the part starts.
pub read_bytes-append :
    (xs ys zs : List ℕ) → read_bytes (xs ++ (ys ++ zs)) (length xs) (length ys) ≡ ok ys
read_bytes-append xs ys zs =
    ap (λ i. read_bytes (xs ++ (ys ++ zs)) i (length ys)) (sym (add-zero (length xs)))
    ∙ read_bytes-append_back xs (ys ++ zs) 0 (length ys)
    ∙ read_bytes-append_front ys zs
