-- ===== src/Packet/Rewrite/Kept.antt =====
-- An IPv4 setter sets the address, keeps the other one, and leaves a header that verifies.
use native.Mathlib.Nat.{add-zero}
use ftpn.Packet.Access.{ok, Returns, Returns-ok, Returns-bind, Returns-both, Returns-if}
use ftpn.Packet.{IpPacket, is_ipv4, ipv4_ihl}
use ftpn.Packet.Checksum.{set_u16, rfc1071}
use ftpn.Packet.Checksum.Words.{length-set_u16, IsByte-set_u16, byte-set_u16, byte-set_u16_other}
use ftpn.Packet.Checksum.Safety.{Shape, Shape-ihl, recalculate-Returns, overruns}
use ftpn.Packet.Checksum.Verify.{recalculate_checksums-verifies}
use ftpn.Packet.Rewrite.{set_words, recalculated, compute_calculate_fields, set_ipv4_address}
use ftpn.Prelude.{
  ℕ, zero, suc, ◌+◌, ◌*◌, ◌/◌, ◌%◌, ◌≤◌, ◌<◌, ◌≡◌, ◌≢◌, ◌⊎◌, inl, refl, ap, ◌∙◌, false, not, ◌||◌,
  List, [], ◌∷◌, arith, length, byte, read_u32_be, ltb, ◌==◌, All, IsByte,
}

byte-set_u16_high : (xs : List ℕ) (k v : ℕ) → k + 1 < length xs → byte (set_u16 xs k v) k ≡ v / 256
unfolding set_u16
byte-set_u16_high [] k v lt = absurd (omega arith)
byte-set_u16_high (x ∷ xs) (suc k) v lt = byte-set_u16_high xs k v (omega arith)
byte-set_u16_high (x ∷ []) zero v lt = absurd (omega arith)
byte-set_u16_high (x ∷ y ∷ xs) zero v lt = refl

byte-set_u16_low :
    (xs : List ℕ) (k v : ℕ) → suc k < length xs → byte (set_u16 xs k v) (suc k) ≡ v % 256
unfolding set_u16
byte-set_u16_low [] k v lt = absurd (omega arith)
byte-set_u16_low (x ∷ xs) (suc k) v lt = byte-set_u16_low xs k v (omega arith)
byte-set_u16_low (x ∷ []) zero v lt = absurd (omega arith)
byte-set_u16_low (x ∷ y ∷ xs) zero v lt = refl

-- A packet whose header verifies can be made of it: bytes, with a header of 20 bytes at least and no
-- more than there are.
pub record WholeIpv4 (p : List ℕ) : Type 0 where
  pub are_bytes : All IsByte p
  pub version : byte p 0 / 16 ≡ 4
  pub long : 20 ≤ ipv4_ihl p
  pub fits : ipv4_ihl p ≤ length p

-- The header of `q` is that of `p` with an address set at `at`.
pub record Readdressed (at address : ℕ) (p q : List ℕ) : Type 0 where
  pub whole : WholeIpv4 q
  pub addressed : read_u32_be q at ≡ address
  pub others : (i : ℕ) → i < 20 → (i < at) ⊎ (at + 3 < i) → i ≢ 10 → i ≢ 11 → byte q i ≡ byte p i

two_words :
    (at address : ℕ) (p : List ℕ)
    → at + 4 ≤ length p
    → address < 4294967296
    → read_u32_be (set_u16 (set_u16 p at (address / 65536 % 65536)) (at + 2) (address % 65536)) at
      ≡ address
two_words at address p le small =
    let high = address / 65536 % 65536 in
    let low = address % 65536 in
    let q = set_u16 p at high in
    let r = set_u16 q (at + 2) low in
    let len = length-set_u16 p at high in
    let b0 : byte r at ≡ high / 256 =
      byte-set_u16 q at (at + 2) low (omega arith)
      ∙ byte-set_u16_high p at high (omega (arith, le)) in
    let b1 : byte r (at + 1) ≡ high % 256 =
      byte-set_u16 q (at + 1) (at + 2) low (omega arith)
      ∙ ap (byte q) (omega arith)
      ∙ byte-set_u16_low p at high (omega (arith, le)) in
    let b2 : byte r (at + 2) ≡ low / 256 =
      byte-set_u16_high q (at + 2) low (omega (arith, le, len)) in
    let b3 : byte r (at + 3) ≡ low % 256 =
      ap (byte r) (omega arith) ∙ byte-set_u16_low q (at + 2) low (omega (arith, le, len)) in
    omega (arith, b0, b1, b2, b3, small)

set_words-Readdressed :
    (at address : ℕ) (p : List ℕ)
    → WholeIpv4 p
    → 12 ≤ at
    → at ≤ 16
    → address < 4294967296
    → Readdressed at address p (set_words 2 p at address)
unfolding set_words
set_words-Readdressed at address p w from to small =
    let high = address / 65536 % 65536 in
    let low = address % 65536 in
    let q = set_u16 p at high in
    let r = set_u16 q (at + 2) low in
    let other : (i : ℕ) → (i < at) ⊎ (at + 3 < i) → byte r i ≡ byte p i = λ i h.
      byte-set_u16_other q i (at + 2) low (ground (arith, h))
      ∙ byte-set_u16_other p i at high (ground (arith, h)) in
    let first = other 0 (inl (omega (arith, from))) in
    let ihl : ipv4_ihl r ≡ ipv4_ihl p = ap (λ b. b % 16 * 4) first in
    let size : length r ≡ length p = length-set_u16 q (at + 2) low ∙ length-set_u16 p at high in
    let bytes : All IsByte r =
      IsByte-set_u16 q (at + 2) low (omega arith)
        (IsByte-set_u16 p at high (omega arith) w.are_bytes) in
    rw (add-zero at) (record {
      whole = record {
        are_bytes = bytes;
        version = rw first w.version;
        long = omega (arith, ihl, w.long);
        fits = omega (arith, ihl, size, w.fits);
      };
      addressed = two_words at address p (omega (arith, w.long, w.fits, to)) small;
      others = λ i _ h _ _. other i h;
    })

Shape-WholeIpv4 : (p q : List ℕ) → WholeIpv4 p → Shape p q → WholeIpv4 q
Shape-WholeIpv4 p q w s = record {
  are_bytes = s.still_bytes w.are_bytes;
  version = rw s.same_first w.version;
  long = omega (arith, w.long, Shape-ihl p q s);
  fits = omega (arith, w.fits, s.same_length, Shape-ihl p q s);
}

WholeIpv4-overruns : (p : List ℕ) → WholeIpv4 p → overruns p ≡ false
unfolding overruns
WholeIpv4-overruns p w = ground (arith, w.fits)

-- Recalculating keeps the address.
Readdressed-Shape :
    (at address : ℕ) (p q r : List ℕ)
    → 12 ≤ at
    → at ≤ 16
    → Readdressed at address p q
    → Shape q r
    → Readdressed at address p r
Readdressed-Shape at address p q r from to d s =
    let kept : (i : ℕ) → i < 20 → i ≢ 10 → i ≢ 11 → byte r i ≡ byte q i =
      λ i lt h h'. s.same_header i d.whole.long lt h h' in
    let b0 = kept at (omega arith) (omega (arith, from)) (omega (arith, from)) in
    let b1 = kept (at + 1) (omega arith) (omega (arith, from)) (omega (arith, from)) in
    let b2 = kept (at + 2) (omega arith) (omega (arith, from)) (omega (arith, from)) in
    let b3 = kept (at + 3) (omega arith) (omega (arith, from)) (omega (arith, from)) in
    record {
      whole = Shape-WholeIpv4 q r d.whole s;
      addressed = omega (arith, b0, b1, b2, b3, d.addressed);
      others = λ i lt h t t'. kept i lt t t' ∙ d.others i lt h t t';
    }

-- The packet with the address set, its header verifying.
pub record Rewritten (at address : ℕ) (p q : IpPacket) : Type 0 where
  pub same_client : q.client_id ≡ p.client_id
  pub readdressed : Readdressed at address p.bytes q.bytes
  pub verifies : rfc1071 q.bytes 0 (ipv4_ihl q.bytes) 0 ≡ ok 0

recalculated-Returns :
    (at address : ℕ) (p q : IpPacket) (bytes : List ℕ)
    → 12 ≤ at
    → at ≤ 16
    → q.client_id ≡ p.client_id
    → Readdressed at address p.bytes bytes
    → Returns (recalculated q bytes) (Rewritten at address p)
recalculated-Returns at address p q bytes from to client d =
    let w = d.whole in
    Returns-bind _ _
      (Returns-both (recalculate-Returns bytes (WholeIpv4-overruns bytes w))
        (recalculate_checksums-verifies bytes w.are_bytes w.version w.long w.fits))
      λ r h. Returns-ok _ (record {
        same_client = client;
        readdressed = Readdressed-Shape at address p.bytes bytes r from to d h.0;
        verifies = h.1;
      })

pub set_ipv4_address-Rewritten :
    (at address : ℕ) (p : IpPacket)
    → WholeIpv4 p.bytes
    → byte p.bytes 8 ≢ 0
    → 12 ≤ at
    → at ≤ 16
    → address < 4294967296
    → Returns (set_ipv4_address at address p) (Rewritten at address p)
unfolding set_ipv4_address is_ipv4
set_ipv4_address-Rewritten at address p w ttl from to small =
    Returns-if (not (is_ipv4 p) || ltb (length p.bytes) 20) _ _
      (λ h. absurd (ground (arith, h, w.version, w.long, w.fits)))
      λ _.
        Returns-if (byte p.bytes 8 == 0) _ _ (λ h. absurd (ttl (ground (arith, h))))
          λ _.
            recalculated-Returns at address p p _ from to refl
              (set_words-Readdressed at address p.bytes w from to small)

pub compute-Rewritten :
    (at address : ℕ) (p q : IpPacket)
    → 12 ≤ at
    → at ≤ 16
    → Rewritten at address p q
    → Returns (compute_calculate_fields q) (Rewritten at address p)
unfolding compute_calculate_fields
compute-Rewritten at address p q from to r =
    Returns-if (ltb (length q.bytes) 20) _ _ (λ _. Returns-ok q r)
      λ _. recalculated-Returns at address p q q.bytes from to r.same_client r.readdressed
