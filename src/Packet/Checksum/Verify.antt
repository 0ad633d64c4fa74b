-- ===== src/Packet/Checksum/Verify.antt =====
-- A checksum that was written verifies: the folded sum over the part with it is 0xFFFF, which the
-- code's function gives as 0.
use ftpn.Packet.Access.{ok, read_bytes, Returns, Returns-both, read_bytes-append}
use ftpn.Packet.{ipv4_ihl}
use ftpn.Packet.Checksum.{
  u32_limit, set_u16, fold_sum, rfc1071_of, rfc1071, put_checksum, checksum_ipv4_header,
  recalculate_checksums,
}
use ftpn.Packet.Checksum.Fold.{Folded, fold_sum-Folded}
use ftpn.Packet.Checksum.Words.{
  double, word_sum, word_sum-bound, sum_words-word_sum, length-set_u16, word_sum-set_u16,
  set_u16-set_u16, IsByte-set_u16, take-set_u16, drop-set_u16, IsByte-take, IsByte-drop,
}
use ftpn.Packet.Checksum.Safety.{
  Shape-ihl, read-byte, put_checksum-Returns, write_u16-set_u16, rfc1071_of-bound,
  checksum_transport_ipv4-Returns,
}
use ftpn.Prelude.{
  ℕ, ◌+◌, ◌-◌, ◌*◌, ◌/◌, ◌%◌, ◌≤◌, ◌<◌, ◌≡◌, inl, inr, refl, ap, ◌∙◌, Bool, false, ◌&&◌, List, ◌++◌,
  arith, length, byte, take, drop, take-append-drop, length-take, length-drop, ◌==◌, if◌then◌else◌,
  All, IsByte, Bool-cases,
}

read_bytes-take :
    (p : List ℕ) (i len : ℕ) → i + len ≤ length p → read_bytes p i len ≡ ok (take len (drop i p))
read_bytes-take p i len le =
    let start : length (take i p) ≡ i = omega (arith, length-take i p) in
    let size : length (take len (drop i p)) ≡ len =
      omega (arith, length-take len (drop i p), length-drop i p) in
    let whole : take i p ++ (take len (drop i p) ++ drop len (drop i p)) ≡ p =
      ap (◌++◌ (take i p)) (take-append-drop len (drop i p)) ∙ take-append-drop i p in
    rw (whole, start, size) at
      (read_bytes-append (take i p) (take len (drop i p)) (drop len (drop i p)))

rfc1071-take :
    (p : List ℕ) (i len sum : ℕ)
    → i + len ≤ length p
    → rfc1071 p i len sum ≡ ok (rfc1071_of (take len (drop i p)) sum)
unfolding rfc1071
rfc1071-take p i len sum le = rw (read_bytes-take p i len le) refl

-- What is written for a folded sum `f`.
abbrev written : Bool → ℕ → ℕ
written ones ck = if ones && ck == 0 then 65535 else ck

complement_cancels :
    (ones : Bool) (sum f g : ℕ)
    → Folded sum f
    → Folded (sum + written ones (65535 - f % 65536)) g
    → 65535 - g % 65536 ≡ 0
complement_cancels ones sum f g a b = elim (Bool-cases (f == 65535)) [
  | inl e ↦ ground (arith, a, b, e)
  | inr e ↦ elim (Bool-cases (f == 0)) [
    | inl z ↦ ground (arith, a, b, z)
    | inr n ↦ ground (arith, a, b, e, n)
  ]
]

written-bound : (ones : Bool) (ck : ℕ) → ck < 65536 → written ones ck < 65536
written-bound ones ck lt = ground (arith, lt)

rfc1071_of-sum :
    (xs : List ℕ) (sum : ℕ)
    → All IsByte xs
    → sum + length xs * 65536 < u32_limit
    → rfc1071_of xs sum ≡ 65535 - fold_sum 2 (sum + word_sum xs) % 65536
unfolding rfc1071_of
rfc1071_of-sum xs sum h small =
    ap (λ s. 65535 - fold_sum 2 s % 65536)
      (sum_words-word_sum xs sum (omega (arith, small, word_sum-bound xs h)))

set_u16-verifies :
    (ones : Bool) (xs : List ℕ) (j sum : ℕ)
    → All IsByte xs
    → double j + 1 < length xs
    → sum + length xs * 65536 + 65536 < u32_limit
    → rfc1071_of
        (set_u16 xs (double j) (written ones (rfc1071_of (set_u16 xs (double j) 0) sum)))
        sum
      ≡ 0
set_u16-verifies ones xs j sum h there small =
    let k = double j in
    let zeroed = set_u16 xs k 0 in
    let total = sum + word_sum zeroed in
    let len = length-set_u16 xs k 0 in
    let bytes = IsByte-set_u16 xs k 0 (omega arith) h in
    let ck = rfc1071_of-sum zeroed sum bytes (omega (arith, small, len)) in
    let w = written ones (rfc1071_of zeroed sum) in
    let w_small : w < 65536 = written-bound ones _ (rfc1071_of-bound zeroed sum) in
    let bytes' = IsByte-set_u16 xs k w w_small h in
    let again =
      rfc1071_of-sum (set_u16 xs k w) sum bytes' (omega (arith, small, length-set_u16 xs k w)) in
    let bound : total < 4294967296 - 65536 =
      omega (arith, small, len, word_sum-bound zeroed bytes) in
    let c = 65535 - fold_sum 2 total % 65536 in
    let c_small : written ones c < 65536 = written-bound ones c (omega arith) in
    let sums : sum + word_sum (set_u16 xs k w) ≡ total + w =
      omega (arith, word_sum-set_u16 j xs w there) in
    again
    ∙ ap (λ s. 65535 - fold_sum 2 s % 65536) sums
    ∙ ap (λ d. 65535 - fold_sum 2 (total + written ones d) % 65536) ck
    ∙ complement_cancels ones total (fold_sum 2 total) _
        (fold_sum-Folded total (omega (arith, bound)))
        (fold_sum-Folded (total + written ones c) (omega (arith, bound, c_small)))

part_set :
    (p : List ℕ) (i len k v : ℕ)
    → k + 1 < len
    → take len (drop i (set_u16 p (i + k) v)) ≡ set_u16 (take len (drop i p)) k v
part_set p i len k v lt = ap (take len) (drop-set_u16 i p k v) ∙ take-set_u16 len (drop i p) k v lt

-- The part at `i` of a packet with the written checksum sums to 0.
put_checksum-verifies :
    (ones : Bool) (p : List ℕ) (i len j sum : ℕ)
    → All IsByte p
    → i + len ≤ length p
    → double j + 1 < len
    → sum + len * 65536 + 65536 < u32_limit
    → Returns (put_checksum ones p i len (double j) sum) (λ q. rfc1071 q i len sum ≡ ok 0)
unfolding put_checksum
put_checksum-verifies ones p i len j sum h fits there small =
    let k = double j in
    let part = take len (drop i p) in
    let size : length part ≡ len = omega (arith, length-take len (drop i p), length-drop i p) in
    let cleared = set_u16 p (i + k) 0 in
    let c = rfc1071_of (set_u16 part k 0) sum in
    let zeroed : take len (drop i cleared) ≡ set_u16 part k 0 = part_set p i len k 0 there in
    let first = write_u16-set_u16 p (i + k) 0 (omega (arith, fits, there)) in
    let middle = rfc1071-take cleared i len sum (omega (arith, fits, length-set_u16 p (i + k) 0)) in
    let w = written ones c in
    let last =
      write_u16-set_u16 cleared (i + k) w
        (omega (arith, fits, there, length-set_u16 p (i + k) 0)) in
    let q = set_u16 cleared (i + k) w in
    let same : q ≡ set_u16 p (i + k) w = set_u16-set_u16 p (i + k) 0 w in
    record {
      value = q;
      returns = rw (first, middle, zeroed, last) refl;
      holds =
          ap (λ r. rfc1071 r i len sum) same
          ∙ rfc1071-take (set_u16 p (i + k) w) i len sum
              (omega (arith, fits, length-set_u16 p (i + k) w))
          ∙ ap (λ r. ok (rfc1071_of r sum)) (part_set p i len k w there)
          ∙ ap ok (
              set_u16-verifies ones part j sum (IsByte-take len (drop i p) (IsByte-drop i p h))
                (omega (arith, there, size)) (omega (arith, small, size)));
    }

pub recalculate_checksums-verifies :
    (p : List ℕ)
    → All IsByte p
    → byte p 0 / 16 ≡ 4
    → 20 ≤ ipv4_ihl p
    → ipv4_ihl p ≤ length p
    → Returns (recalculate_checksums p) (λ q. rfc1071 q 0 (ipv4_ihl q) 0 ≡ ok 0)
unfolding recalculate_checksums checksum_ipv4_header
recalculate_checksums-verifies p h version long fits =
    let first = read-byte p 0 (omega (arith, long, fits)) in
    let t = checksum_transport_ipv4-Returns p (omega (arith, long, fits)) in
    let q = t.value in
    let ihl = Shape-ihl p q t.holds in
    let put =
      Returns-both
        (put_checksum-verifies false q 0 (ipv4_ihl q) 5 0 (t.holds.still_bytes h)
          (omega (arith, t.holds.same_length, ihl, fits)) (omega (arith, ihl, long)) (omega arith))
        (put_checksum-Returns false q 0 (ipv4_ihl q) 10 0 (omega arith, inl (omega arith))
          (omega (arith, t.holds.same_length, long, fits))
          (omega (arith, t.holds.same_length, ihl, fits))) in
    record {
      value = put.value;
      returns =
          rw (first.returns, first.holds, version, t.returns, put.returns)
            (ground (arith, long, fits));
      holds = rw (Shape-ihl q put.value put.holds.1) put.holds.0;
    }
