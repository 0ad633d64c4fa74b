-- ===== src/Packet/Dns.antt =====
-- fptn/src/common/network/ip_packet.h: the DNS message of a UDP packet. A pointer of the source is an
-- offset from the packet's first byte, `end` the packet's length. A name is the bytes of its labels
-- with dots between them. The build without libidn2 is modelled (no conversion of punycode).
pub mod Answers
pub mod Safety
use ftpn.Packet.Access.{
  Access, ok, out_of_bounds, ◌>>=◌, read, read_u16, read_bytes, Pass, leave, again, turn,
}
use ftpn.Packet.{ipv4_ihl}
use ftpn.Prelude.{
  ℕ, zero, suc, ◌+◌, ◌-◌, ◌*◌, ◌/◌, ◌%◌, Bool, true, false, not, ◌&&◌, ◌||◌, Option, none, some,
  List, [], ◌∷◌, ◌++◌, map, length, ltb, leb, ◌==◌, if◌then◌else◌,
}

-- The part of ParseDnsName's state that its loop changes.
pub record NameScan : Type 0 where
  pub cur : ℕ
  pub ptr : ℕ
  pub jumped : Bool
  pub name : List ℕ

pub record SkipScan : Type 0 where
  pub found : Bool
  pub cur : ℕ

module _ (p : List ℕ) where
  abbrev end : ℕ
  end = length p

  -- DnsPtr and DnsPayloadPtr; `none` is the null pointer.
  unfoldable pub dns_payload_ptr : ℕ → Access (Option ℕ)
  unfolding read_u16
  dns_payload_ptr udp = if ltb end (udp + 8) then ok none else do
    src ← read_u16 p udp
    dst ← read_u16 p (udp + 2)
    if not (src == 53) && not (dst == 53)
        then ok none
        else ok (if leb (udp + 8 + 12) end then some (udp + 8) else none)

  unfoldable pub dns_ptr : Access (Option ℕ)
  unfolding read dns_payload_ptr
  dns_ptr =
      if ltb 0 end
      then (do
        first ← read p 0
        if first / 16 == 4 && leb 20 end
            then (do
              proto ← read p 9
              if proto == 17 then dns_payload_ptr (first % 16 * 4) else ok none)
            else if first / 16 == 6 && leb 40 end
            then (do next ← read p 6; if next == 17 then dns_payload_ptr 40 else ok none)
            else ok none)
      else ok none

  unfoldable pub extend_name : List ℕ → List ℕ → List ℕ
  extend_name [] label = label
  extend_name (c ∷ name) label = c ∷ name ++ 46 ∷ label

  -- One pass of ParseDnsName's loop, for ptr < end.
  unfoldable pub name_pass : ℕ → NameScan → Access (Pass NameScan NameScan)
  unfolding read read_bytes extend_name
  name_pass base s = do
    len ← read p s.ptr
    if len == 0
        then ok (leave (if s.jumped then s else record s { cur = s.ptr + 1 }))
        else if leb 192 len
        then (if ltb (end - s.ptr) 2 then ok (leave s) else do
          low ← read p (s.ptr + 1)
          let moved = if s.jumped then s.cur else s.ptr + 2
          let offset = len % 64 * 256 + low
          ok (
              if leb (end - base) offset
              then leave (record s { cur = moved; jumped = true })
              else again (record s { cur = moved; jumped = true; ptr = base + offset })))
        else if ltb (end - (s.ptr + 1)) len
        then ok (leave s)
        else do
          label ← read_bytes p (s.ptr + 1) len
          ok (again (record s { ptr = s.ptr + 1 + len; name = extend_name s.name label }))

  unfoldable pub name_loop : ℕ → ℕ → NameScan → Access NameScan
  unfolding name_pass
  name_loop zero base s = ok s
  name_loop (suc i) base s =
      if leb end s.ptr
      then ok s
      else do pass ← name_pass base s; turn pass (λ t. name_loop i base t)

  -- ParseDnsName: at most 128 passes; the cursor behind the name is `cur` of the result.
  unfoldable pub parse_dns_name : ℕ → ℕ → Access NameScan
  unfolding name_loop
  parse_dns_name base cur =
      name_loop 128 base (record { cur = cur; ptr = cur; jumped = false; name = [] })

  -- One pass of SkipDnsName's loop, for cur < end.
  unfoldable pub skip_pass : ℕ → Access (Pass SkipScan ℕ)
  unfolding read
  skip_pass cur = do
    len ← read p cur
    let compressed = leb 192 len
    let step = if compressed then 2 else 1 + len
    ok (
        if len == 0
        then leave (record { found = true; cur = cur + 1 })
        else if ltb (end - cur) step
        then leave (record { found = false; cur = cur })
        else if compressed
        then leave (record { found = true; cur = cur + step })
        else again (cur + step))

  unfoldable pub skip_loop : ℕ → ℕ → Access SkipScan
  unfolding skip_pass
  skip_loop zero cur = ok (record { found = false; cur = cur })
  skip_loop (suc i) cur =
      if leb end cur
      then ok (record { found = false; cur = cur })
      else do pass ← skip_pass cur; turn pass (λ next. skip_loop i next)

  unfoldable pub skip_dns_name : ℕ → Access SkipScan
  unfolding skip_loop
  skip_dns_name cur = skip_loop 256 cur
