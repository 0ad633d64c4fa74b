-- ===== src/Packet/Dns/Safety.antt =====
-- The DNS name parsers read inside the packet, whatever its bytes are.
use ftpn.Packet.Access.{
  ok, Returns, Returns-ok, Returns-bind, Returns-turn, PassHolds, NullOr, read-Returns,
  read_u16-Returns, read_bytes-Returns,
}
use ftpn.Packet.Dns.{
  NameScan, dns_payload_ptr, dns_ptr, name_pass, name_loop, parse_dns_name, skip_pass, skip_loop,
  skip_dns_name,
}
use ftpn.Prelude.{
  ℕ, zero, suc, ◌+◌, ◌-◌, ◌/◌, ◌≤◌, ◌<◌, not, ◌&&◌, Option, none, List, arith, inl, inr, Bool-cases,
  length, ltb, leb, ◌==◌, if◌then◌else◌,
}

module _ (p : List ℕ) where
  -- The message's 12 bytes of header lie inside the packet.
  abbrev pub InPacket : Option ℕ → Type 0
  InPacket = NullOr (λ dns. dns + 12 ≤ length p)

  dns_payload_ptr-Returns : (udp : ℕ) → Returns (dns_payload_ptr p udp) InPacket
  unfolding dns_payload_ptr
  dns_payload_ptr-Returns udp = elim (Bool-cases (ltb (length p) (udp + 8))) [
    | inl short ↦ rw short (Returns-ok none tt)
    | inr fits ↦ rw fits (
        Returns-bind _ _ (read_u16-Returns p udp (ground arith)) λ src _.
          Returns-bind _ _ (read_u16-Returns p (udp + 2) (ground arith)) λ dst _.
            elim (Bool-cases (not (src == 53) && not (dst == 53))) [
              | inl other ↦ rw other (Returns-ok none tt)
              | inr dns ↦ rw dns (Returns-ok _ (ground arith))
            ])
  ]

  if_udp :
      (udp proto : ℕ) → Returns (if proto == 17 then dns_payload_ptr p udp else ok none) InPacket
  if_udp udp proto = elim (Bool-cases (proto == 17)) [
    | inl e ↦ rw e (dns_payload_ptr-Returns udp)
    | inr e ↦ rw e (Returns-ok none tt)
  ]

  pub dns_ptr-Returns : Returns (dns_ptr p) InPacket
  unfolding dns_ptr
  dns_ptr-Returns = elim (Bool-cases (ltb 0 (length p))) [
    | inr empty ↦ rw empty (Returns-ok none tt)
    | inl some_byte ↦ rw some_byte (
        Returns-bind _ _ (read-Returns p 0 (ground arith)) λ first _.
          elim (Bool-cases (first / 16 == 4 && leb 20 (length p))) [
            | inl ipv4 ↦
                rw ipv4
                  (Returns-bind _ _ (read-Returns p 9 (ground arith)) λ proto _. if_udp _ proto)
            | inr no4 ↦ elim (Bool-cases (first / 16 == 6 && leb 40 (length p))) [
              | inl ipv6 ↦
                  rw (no4, ipv6)
                    (Returns-bind _ _ (read-Returns p 6 (ground arith)) λ next _. if_udp 40 next)
              | inr no6 ↦ rw (no4, no6) (Returns-ok none tt)
            ]
          ])
  ]

  -- The cursor stands at the end or before it, as does the position that the loop looks at.
  abbrev NameInside : NameScan → Type 0
  NameInside s = (s.cur ≤ length p) × (s.ptr ≤ length p)

  name_pass-Returns :
      (base : ℕ) (s : NameScan)
      → NameInside s
      → s.ptr < length p
      → Returns (name_pass p base s) (PassHolds NameInside NameInside)
  unfolding name_pass
  name_pass-Returns base s h lt = Returns-bind _ _ (read-Returns p s.ptr lt) λ len _.
      elim (Bool-cases (len == 0)) [
        | inl e ↦ rw e (Returns-ok _ (ground arith))
        | inr label ↦ elim (Bool-cases (leb 192 len)) [
          | inl jump ↦ elim (Bool-cases (ltb (length p - s.ptr) 2)) [
            | inl e ↦ rw (label, jump, e) (Returns-ok _ h)
            | inr two ↦
                rw (label, jump, two)
                  (Returns-bind _ _ (read-Returns p (s.ptr + 1) (ground arith))
                    λ low _. Returns-ok _ (ground arith))
          ]
          | inr plain ↦ elim (Bool-cases (ltb (length p - (s.ptr + 1)) len)) [
            | inl e ↦ rw (label, plain, e) (Returns-ok _ h)
            | inr fits ↦
                rw (label, plain, fits)
                  (Returns-bind _ _ (read_bytes-Returns p (s.ptr + 1) len (ground arith))
                    λ name _. Returns-ok _ (h.0, ground arith))
          ]
        ]
      ]

  name_loop-Returns :
      (i base : ℕ) (s : NameScan) → NameInside s → Returns (name_loop p i base s) NameInside
  unfolding name_loop
  name_loop-Returns zero base s h = Returns-ok s h
  name_loop-Returns (suc i) base s h = elim (Bool-cases (leb (length p) s.ptr)) [
    | inl e ↦ rw e (Returns-ok s h)
    | inr inside ↦ rw inside (
        Returns-bind _ _ (name_pass-Returns base s h (ground arith))
          λ pass h'. Returns-turn pass _ h' (name_loop-Returns i base))
  ]

  -- Parsing a name that starts inside the packet reads inside the packet only, and leaves the cursor
  -- inside it or at its end.
  pub parse_dns_name-Returns :
      (base cur : ℕ) → cur ≤ length p → Returns (parse_dns_name p base cur) (λ s. s.cur ≤ length p)
  unfolding parse_dns_name
  parse_dns_name-Returns base cur le =
      let r = name_loop-Returns 128 base _ (le, le) in
      record { value = r.value; returns = r.returns; holds = r.holds.0 }

  skip_pass-Returns :
      (cur : ℕ)
      → cur < length p
      → Returns (skip_pass p cur) (PassHolds (λ s. s.cur ≤ length p) (λ next. next ≤ length p))
  unfolding skip_pass
  skip_pass-Returns cur lt =
      Returns-bind _ _ (read-Returns p cur lt) λ len _. Returns-ok _ (ground arith)

  skip_loop-Returns :
      (i cur : ℕ) → cur ≤ length p → Returns (skip_loop p i cur) (λ s. s.cur ≤ length p)
  unfolding skip_loop
  skip_loop-Returns zero cur le = Returns-ok _ le
  skip_loop-Returns (suc i) cur le = elim (Bool-cases (leb (length p) cur)) [
    | inl e ↦ rw e (Returns-ok _ le)
    | inr inside ↦ rw inside (
        Returns-bind _ _ (skip_pass-Returns cur (ground arith))
          λ pass h. Returns-turn pass _ h (skip_loop-Returns i))
  ]

  pub skip_dns_name-Returns :
      (cur : ℕ) → cur ≤ length p → Returns (skip_dns_name p cur) (λ s. s.cur ≤ length p)
  unfolding skip_dns_name
  skip_dns_name-Returns cur le = skip_loop-Returns 256 cur le
