-- ===== src/Prelude/Bytes.antt =====
-- Bytes: numbers below 256, their exclusive or, and words of two and four bytes in network order.
use Prim.Native.Nat.{ℕ, zero, suc, ◌+◌, ◌*◌, ◌<◌, bit_xor}
use mathlib.Core.Path.{◌≡◌, refl, ap₂}
use mathlib.Core.Bool.{Bool, true, false}
use mathlib.Core.List.{List, [], ◌∷◌}
use native.Mathlib.Omega.{arith}
use ftpn.Prelude.Tests.{if◌then◌else◌, ◌==◌, ==_iff}
use ftpn.Prelude.Lists.{length, get_or, All}

abbrev pub IsByte : ℕ → Type 0
IsByte b = b < 256

-- The element at an offset; 0 behind the end.
abbrev pub byte : List ℕ → ℕ → ℕ
byte p i = get_or p i 0

-- A word in network order, at an offset.
abbrev pub read_u16_be : List ℕ → ℕ → ℕ
read_u16_be p i = byte p i * 256 + byte p (i + 1)

abbrev pub read_u32_be : List ℕ → ℕ → ℕ
read_u32_be p i =
    byte p i * 16777216 + byte p (i + 1) * 65536 + byte p (i + 2) * 256 + byte p (i + 3)

-- The test on each number below a limit.
each_below : (ℕ → Bool) → ℕ → Bool
each_below test zero = true
each_below test (suc limit) = let rest = each_below test limit in if test limit then rest else false

each_below-get :
    (test : ℕ → Bool) (limit n : ℕ) → n < limit → each_below test limit ≡ true → test n ≡ true
unfolding each_below
each_below-get test zero n below h = absurd (omega arith)
each_below-get test (suc limit) n below h = ground (arith, each_below-get test limit n)

-- A byte is what it was after the same key was applied twice.
abbrev key_cancels : ℕ → ℕ → Bool
key_cancels k x = bit_xor (bit_xor x k) k == x

keys_cancel : each_below (λ k. each_below (key_cancels k) 256) 256 ≡ true
unfolding each_below
keys_cancel = refl

pub xor_twice : (k x : ℕ) → k < 256 → x < 256 → bit_xor (bit_xor x k) k ≡ x
xor_twice k x hk hx =
    let of_key = each_below-get (λ j. each_below (key_cancels j) 256) 256 k hk keys_cancel in
    (==_iff _ x).0 (each_below-get (key_cancels k) 256 x hx of_key)

-- ApplyXorTransform
unfoldable pub xor_bytes : ℕ → List ℕ → List ℕ
xor_bytes key [] = []
xor_bytes key (b ∷ bs) = bit_xor b key ∷ xor_bytes key bs

pub length-xor_bytes : (key : ℕ) (bs : List ℕ) → length (xor_bytes key bs) ≡ length bs
unfolding xor_bytes
length-xor_bytes key [] = refl
length-xor_bytes key (b ∷ bs) = omega (arith, length-xor_bytes key bs)

pub xor_bytes-xor_bytes :
    (key : ℕ) (bs : List ℕ) → key < 256 → All IsByte bs → xor_bytes key (xor_bytes key bs) ≡ bs
unfolding xor_bytes
xor_bytes-xor_bytes key [] hk h = refl
xor_bytes-xor_bytes key (b ∷ bs) hk h =
    ap₂ ◌∷◌ (xor_twice key b hk h.0) (xor_bytes-xor_bytes key bs hk h.1)
