-- ===== src/Packet/Checksum/Safety.antt =====
-- Which packets the checksum code reads or writes outside of.
use ftpn.Packet.Access.{
  ok, out_of_bounds, read, read_bytes, Returns, Returns-ok, Returns-bind, Returns-if,
  Returns-weaken, Any, read-Returns, read_u16-Returns, read_bytes-Returns,
}
use ftpn.Packet.{ipv4_ihl}
use ftpn.Packet.Checksum.{
  set_u16, write_u16, rfc1071_of, rfc1071, put_checksum, checksum_ipv4_header, Transport, tcp, udp,
  icmp, icmpv6, pseudo_sum_ipv4, pseudo_sum_ipv6, checksum_ipv4, checksum_ipv6,
  checksum_transport_ipv4, recalculate_checksums,
}
use ftpn.Packet.Checksum.Words.{length-set_u16, IsByte-set_u16, byte-set_u16, byte-set_u16_other}
use ftpn.Prelude.{
  ℕ, zero, suc, ◌+◌, ◌-◌, ◌*◌, ◌/◌, ◌%◌, ◌≤◌, ◌<◌, ◌≡◌, ◌≢◌, ◌⊎◌, inl, inr, refl, ap, ◌∙◌, min,
  Bool, true, false, ◌&&◌, List, [], ◌∷◌, arith, length, byte, ltb, leb, ◌==◌, if◌then◌else◌, All,
  IsByte, Bool-cases,
}

-- The packet keeps its length, its first byte and, if its header length field says 20 at least, the 20
-- bytes of an IPv4 header but for the checksum; bytes stay bytes.
pub record Shape (p q : List ℕ) : Type 0 where
  pub same_length : length q ≡ length p
  pub same_first : byte q 0 ≡ byte p 0
  pub same_header : (i : ℕ) → 20 ≤ ipv4_ihl p → i < 20 → i ≢ 10 → i ≢ 11 → byte q i ≡ byte p i
  pub still_bytes : All IsByte p → All IsByte q

-- The header's length is that of the first byte.
pub Shape-ihl : (p q : List ℕ) → Shape p q → ipv4_ihl q ≡ ipv4_ihl p
Shape-ihl p q s = ap (λ b. b % 16 * 4) s.same_first

Shape-refl : (p : List ℕ) → Shape p p
Shape-refl p = record {
  same_length = refl;
  same_first = refl;
  same_header = λ i _ _ _ _. refl;
  still_bytes = λ h. h;
}

Shape-trans : (p q r : List ℕ) → Shape p q → Shape q r → Shape p r
Shape-trans p q r a b = record {
  same_length = b.same_length ∙ a.same_length;
  same_first = b.same_first ∙ a.same_first;
  same_header = λ i ihl lt h h'.
      b.same_header i (omega (arith, ihl, Shape-ihl p q a)) lt h h' ∙ a.same_header i ihl lt h h';
  still_bytes = λ h. b.still_bytes (a.still_bytes h);
}

-- A word that is the header's checksum, or stands behind the header.
abbrev Field : List ℕ → ℕ → Type 0
Field p k = (0 < k) × ((k ≡ 10) ⊎ (20 ≤ ipv4_ihl p → 20 ≤ k))

Shape-set_u16 : (p : List ℕ) (k v : ℕ) → Field p k → v < 65536 → Shape p (set_u16 p k v)
Shape-set_u16 p k v (pos, at) lt = record {
  same_length = length-set_u16 p k v;
  same_first = byte-set_u16 p 0 k v pos;
  same_header = λ i ihl below h h'. elim at [
    | inl e ↦ byte-set_u16_other p i k v (omega arith)
    | inr behind ↦ byte-set_u16 p i k v (omega (arith, behind ihl))
  ];
  still_bytes = IsByte-set_u16 p k v lt;
}

pub write_u16-set_u16 :
    (p : List ℕ) (k v : ℕ) → k + 1 < length p → write_u16 p k v ≡ ok (set_u16 p k v)
unfolding write_u16
write_u16-set_u16 p k v lt = ground (arith, lt)

write_u16-Returns :
    (p : List ℕ) (k v : ℕ)
    → Field p k
    → k + 1 < length p
    → v < 65536
    → Returns (write_u16 p k v) (Shape p)
write_u16-Returns p k v pos lt small = record {
  value = set_u16 p k v;
  returns = write_u16-set_u16 p k v lt;
  holds = Shape-set_u16 p k v pos small;
}

pub rfc1071_of-bound : (bytes : List ℕ) (sum : ℕ) → rfc1071_of bytes sum < 65536
unfolding rfc1071_of
rfc1071_of-bound bytes sum = omega arith

rfc1071-Returns :
    (p : List ℕ) (i len sum : ℕ)
    → i + len ≤ length p
    → Returns (rfc1071 p i len sum) (λ c. c < 65536)
unfolding rfc1071
rfc1071-Returns p i len sum le =
    Returns-bind _ _ (read_bytes-Returns p i len le)
      λ bytes _. Returns-ok _ (rfc1071_of-bound bytes sum)

pub put_checksum-Returns :
    (ones : Bool) (p : List ℕ) (i len k sum : ℕ)
    → Field p (i + k)
    → i + k + 1 < length p
    → i + len ≤ length p
    → Returns (put_checksum ones p i len k sum) (Shape p)
unfolding put_checksum
put_checksum-Returns ones p i len k sum pos there le =
    Returns-bind _ _ (write_u16-Returns p (i + k) 0 pos there (omega arith)) λ q s.
      Returns-bind _ _ (rfc1071-Returns q i len sum (omega (arith, s.same_length, le))) λ ck small.
        Returns-weaken
          (write_u16-Returns q (i + k) _ (pos.0, later q s) (omega (arith, s.same_length, there))
            (bound ck small))
          λ r t. Shape-trans p q r s t
  where
    later : (q : List ℕ) → Shape p q → (i + k ≡ 10) ⊎ (20 ≤ ipv4_ihl q → 20 ≤ i + k)
    later q s = elim pos.1 [
      | inl e ↦ inl e
      | inr h ↦ inr λ ihl. h (omega (arith, ihl, Shape-ihl p q s))
    ]

    bound : (ck : ℕ) → ck < 65536 → (if ones && ck == 0 then 65535 else ck) < 65536
    bound ck lt = ground arith

-- The checksum stands behind the first byte and inside what the header needs.
abbrev Fits : Transport → Type 0
Fits t = (0 < t.field) × (t.field + 1 < t.needed)

checksum_ipv4-Returns :
    (t : Transport) (p : List ℕ) → Fits t → 20 ≤ length p → Returns (checksum_ipv4 t p) (Shape p)
unfolding checksum_ipv4 pseudo_sum_ipv4
checksum_ipv4-Returns t p fits long =
    Returns-if (ltb (length p) (ipv4_ihl p + t.needed)) _ _ (λ _. Returns-ok p (Shape-refl p))
      λ room. Returns-bind _ _ (read_u16-Returns p 2 (omega (arith, long))) λ total _.
        Returns-if (min (total - ipv4_ihl p) (length p - ipv4_ihl p) == 0) _ _
          (λ _. Returns-ok p (Shape-refl p))
          λ _. Returns-bind _ _ (pseudo _) λ sum _.
            put_checksum-Returns t.zero_as_ones p (ipv4_ihl p) _ t.field sum
              (omega (arith, fits), inr λ ihl. omega (arith, ihl)) (ground (arith, room, fits))
              (ground (arith, room))
  where
    pseudo : (len : ℕ) → Returns (pseudo_sum_ipv4 t p len) Any
    pseudo len =
        Returns-if t.has_pseudo_header _ _
          (λ _.
            Returns-bind _ _ (read_bytes-Returns p 12 8 (omega (arith, long)))
              λ a _. Returns-ok _ tt)
          (λ _. Returns-ok _ tt)

checksum_ipv6-Returns :
    (t : Transport) (p : List ℕ) → Fits t → Returns (checksum_ipv6 t p) (Shape p)
unfolding checksum_ipv6 pseudo_sum_ipv6
checksum_ipv6-Returns t p fits =
    Returns-if (ltb (length p) (40 + t.needed)) _ _ (λ _. Returns-ok p (Shape-refl p))
      λ room. Returns-bind _ _ (read_u16-Returns p 4 (ground (arith, room))) λ total _.
        Returns-if (min total (length p - 40) == 0) _ _ (λ _. Returns-ok p (Shape-refl p))
          λ _. Returns-bind _ _ (pseudo _ (ground (arith, room))) λ sum _.
            put_checksum-Returns t.zero_as_ones p 40 _ t.field sum
              (omega (arith, fits), inr λ _. omega arith) (ground (arith, room, fits))
              (ground (arith, room))
  where
    pseudo : (len : ℕ) → 40 ≤ length p → Returns (pseudo_sum_ipv6 t p len) Any
    pseudo len long =
        Returns-bind _ _ (read_bytes-Returns p 8 32 (omega (arith, long))) λ a _. Returns-ok _ tt

pub checksum_transport_ipv4-Returns :
    (p : List ℕ) → 20 ≤ length p → Returns (checksum_transport_ipv4 p) (Shape p)
unfolding checksum_transport_ipv4
checksum_transport_ipv4-Returns p long =
    Returns-bind _ _ (read-Returns p 9 (omega (arith, long))) λ protocol _.
      Returns-if (protocol == 6) _ _
        (λ _. checksum_ipv4-Returns tcp p (omega arith, omega arith) long)
        λ _.
          Returns-if (protocol == 17) _ _
            (λ _. checksum_ipv4-Returns udp p (omega arith, omega arith) long)
            λ _.
              Returns-if (protocol == 1) _ _
                (λ _. checksum_ipv4-Returns icmp p (omega arith, omega arith) long)
                λ _. Returns-ok p (Shape-refl p)

-- An IPv4 packet that has 20 bytes and says that its header is longer than it.
unfoldable pub overruns : List ℕ → Bool
overruns p = byte p 0 / 16 == 4 && leb 20 (length p) && ltb (length p) (ipv4_ihl p)

pub read-byte : (p : List ℕ) (i : ℕ) → i < length p → Returns (read p i) (λ b. b ≡ byte p i)
unfolding read
read-byte [] i lt = absurd (omega arith)
read-byte (b ∷ p) zero lt = Returns-ok b refl
read-byte (b ∷ p) (suc i) lt = read-byte p i (omega arith)

header-Returns :
    (p : List ℕ)
    → 20 ≤ length p
    → ipv4_ihl p ≤ length p
    → Returns (checksum_ipv4_header p) (Shape p)
unfolding checksum_ipv4_header
header-Returns p long le =
    put_checksum-Returns false p 0 (ipv4_ihl p) 10 0 (omega arith, inl (omega arith))
      (omega (arith, long)) (omega (arith, le))

pub recalculate-Returns :
    (p : List ℕ) → overruns p ≡ false → Returns (recalculate_checksums p) (Shape p)
unfolding recalculate_checksums overruns
recalculate-Returns p fine =
    Returns-if (ltb (length p) 1) _ _ (λ _. Returns-ok p (Shape-refl p))
      λ some_byte. Returns-bind _ _ (read-byte p 0 (ground (arith, some_byte))) λ first is_first.
        Returns-if (first / 16 == 4) _ _
          (λ v4.
            Returns-if (ltb (length p) 20) _ _ (λ _. Returns-ok p (Shape-refl p))
              λ long.
                Returns-bind _ _ (checksum_transport_ipv4-Returns p (ground (arith, long))) λ q s.
                  Returns-weaken
                    (header-Returns q (ground (arith, long, s.same_length))
                      (ground (arith, fine, v4, is_first, long, s.same_length, Shape-ihl p q s)))
                    (λ r t. Shape-trans p q r s t))
          (λ _.
            Returns-if (first / 16 == 6) _ _
              (λ _.
                Returns-if (ltb (length p) 40) _ _ (λ _. Returns-ok p (Shape-refl p))
                  λ long. Returns-bind _ _ (read-Returns p 6 (ground (arith, long))) λ next _.
                    Returns-if (next == 6) _ _
                      (λ _. checksum_ipv6-Returns tcp p (omega arith, omega arith))
                      λ _.
                        Returns-if (next == 17) _ _
                          (λ _. checksum_ipv6-Returns udp p (omega arith, omega arith))
                          λ _.
                            Returns-if (next == 58) _ _
                              (λ _. checksum_ipv6-Returns icmpv6 p (omega arith, omega arith))
                              λ _. Returns-ok p (Shape-refl p))
              (λ _. Returns-ok p (Shape-refl p)))

-- Reading more bytes than there are.
read-out : (p : List ℕ) (i : ℕ) → length p ≤ i → read p i ≡ out_of_bounds
unfolding read
read-out [] i le = refl
read-out (b ∷ p) zero le = absurd (omega arith)
read-out (b ∷ p) (suc i) le = read-out p i (omega arith)

read_bytes-out :
    (p : List ℕ) (i k : ℕ) → i ≤ length p → length p < i + k → read_bytes p i k ≡ out_of_bounds
unfolding read_bytes
read_bytes-out p i zero le lt = absurd (omega arith)
read_bytes-out p i (suc k) le lt = elim (Bool-cases (ltb i (length p))) [
  | inl e ↦
      let r = read-byte p i (ground (arith, e)) in
      rw (r.returns, read_bytes-out p (i + 1) k (ground (arith, e)) (omega arith)) refl
  | inr e ↦ rw (read-out p i (ground (arith, e))) refl
]

rfc1071-out : (p : List ℕ) (len sum : ℕ) → length p < len → rfc1071 p 0 len sum ≡ out_of_bounds
unfolding rfc1071
rfc1071-out p len sum lt = rw (read_bytes-out p 0 len (omega arith) (omega arith)) refl

put_checksum-out :
    (ones : Bool) (p : List ℕ) (len k sum : ℕ)
    → 0 + k + 1 < length p
    → length p < len
    → put_checksum ones p 0 len k sum ≡ out_of_bounds
unfolding put_checksum
put_checksum-out ones p len k sum there lt =
    rw
      (
        write_u16-set_u16 p (0 + k) 0 there,
        rfc1071-out (set_u16 p (0 + k) 0) len sum (omega (arith, lt, length-set_u16 p (0 + k) 0)),
      )
      refl

header-out :
    (p : List ℕ) → 20 ≤ length p → length p < ipv4_ihl p → checksum_ipv4_header p ≡ out_of_bounds
unfolding checksum_ipv4_header
header-out p long lt = put_checksum-out false p (ipv4_ihl p) 10 0 (omega arith) lt

recalculate-out : (p : List ℕ) → overruns p ≡ true → recalculate_checksums p ≡ out_of_bounds
unfolding recalculate_checksums overruns
recalculate-out p h =
    let first = read-byte p 0 (ground (arith, h)) in
    let t = checksum_transport_ipv4-Returns p (ground (arith, h)) in
    let out =
      header-out t.value (ground (arith, h, t.holds.same_length))
        (ground (arith, h, t.holds.same_length, Shape-ihl p t.value t.holds)) in
    rw (first.returns, first.holds, t.returns, out) (ground (arith, h))

-- RecalculateChecksums reads and writes inside the packet only, and keeps its length and its first
-- byte, exactly if it is not an IPv4 packet of at least 20 bytes whose header length field is greater
-- than its size; on such a packet it reads behind the last byte.
pub recalculate_checksums_lem :
    (p : List ℕ)
    → ((overruns p ≡ false) × Returns (recalculate_checksums p) (Shape p))
      ⊎ ((overruns p ≡ true) × (recalculate_checksums p ≡ out_of_bounds))
recalculate_checksums_lem p = elim (Bool-cases (overruns p)) [
  | inl e ↦ inr (e, recalculate-out p e)
  | inr e ↦ inl (e, recalculate-Returns p e)
]
