-- ===== src/Packet/Dns/Answers.antt =====
-- fptn/src/common/network/ip_packet.h: the question and the address records of a DNS message.
-- The two address getters differ in the record type and the length that they ask for, their
-- arguments here. An address is its bytes (the source prints and parses them again).
pub mod Safety
use ftpn.Packet.Access.{
  Access, ok, out_of_bounds, ◌>>=◌, read, read_u16, read_bytes, Pass, leave, again, turn, or_return,
}
use ftpn.Packet.Dns.{NameScan, SkipScan, dns_ptr, parse_dns_name, skip_dns_name}
use ftpn.Prelude.{
  ℕ, zero, suc, ◌+◌, ◌-◌, ◌*◌, Bool, true, false, not, ◌&&◌, ◌||◌, Option, none, some, List, [],
  ◌∷◌, ◌++◌, map, length, ltb, leb, ◌==◌, if◌then◌else◌,
}

-- ToLowerAscii
unfoldable pub to_lower_ascii : List ℕ → List ℕ
to_lower_ascii [] = []
to_lower_ascii (c ∷ cs) = (if leb 65 c && leb c 90 then c - 65 + 97 else c) ∷ to_lower_ascii cs

unfoldable pub non_empty_name : List ℕ → Option (List ℕ)
unfolding to_lower_ascii
non_empty_name [] = none
non_empty_name (c ∷ cs) = some (to_lower_ascii (c ∷ cs))

-- The records gathered so far and the cursor.
pub record AnswerScan : Type 0 where
  pub found : List (List ℕ)
  pub cur : ℕ

module _ (p : List ℕ) where
  abbrev end : ℕ
  end = length p

  -- The loop of DnsAnswerStart over the questions; `none` is the early return of the null pointer.
  unfoldable pub question_pass : ℕ → Access (Pass (Option ℕ) ℕ)
  question_pass cur = do
    skipped ← skip_dns_name p cur
    ok (
        if not skipped.found || ltb (end - skipped.cur) 4
        then leave none
        else again (skipped.cur + 4))

  unfoldable pub question_loop : ℕ → ℕ → Access (Option ℕ)
  question_loop zero cur = ok (if ltb cur end then some cur else none)
  question_loop (suc q) cur =
      if leb end cur
      then ok none
      else do pass ← question_pass cur; turn pass (λ next. question_loop q next)

  -- DnsAnswerStart: the first answer and the number of answers.
  unfoldable pub dns_answer_start : ℕ → Access (Option (ℕ × ℕ))
  dns_answer_start dns = if ltb end (dns + 12) then ok none else do
    flags ← read p (dns + 2)
    if ltb flags 128 then ok none else do
      qdcount ← read_u16 p (dns + 4)
      ancount ← read_u16 p (dns + 6)
      if ancount == 0 then ok none else do
        start ← question_loop qdcount (dns + 12)
        ok (elim start [ none ↦ none | some cur ↦ some (cur, ancount) ])

  -- One pass over an answer, for cur < end.
  unfoldable pub answer_pass : ℕ → ℕ → AnswerScan → Access (Pass AnswerScan AnswerScan)
  answer_pass rtype rdlen s = do
    skipped ← skip_dns_name p s.cur
    let cur = skipped.cur
    if not skipped.found || ltb (end - cur) 10 then ok (leave s) else do
      t ← read_u16 p cur
      l ← read_u16 p (cur + 8)
      if ltb (end - (cur + 10)) l then ok (leave s) else do
        rdata ← read_bytes p (cur + 10) l
        let found = if t == rtype && l == rdlen then s.found ++ rdata ∷ [] else s.found
        ok (again (record { found = found; cur = cur + 10 + l }))

  unfoldable pub answer_loop : ℕ → ℕ → ℕ → AnswerScan → Access AnswerScan
  answer_loop rtype rdlen zero s = ok s
  answer_loop rtype rdlen (suc a) s =
      if leb end s.cur
      then ok s
      else do pass ← answer_pass rtype rdlen s; turn pass (λ t. answer_loop rtype rdlen a t)

  unfoldable pub get_dns_addresses : ℕ → ℕ → Access (List (List ℕ))
  get_dns_addresses rtype rdlen = do
    dns ← dns_ptr p
    or_return dns [] λ d. do
      start ← dns_answer_start d
      or_return start [] λ first. do
        s ← answer_loop rtype rdlen first.1 (record { found = []; cur = first.0 })
        ok s.found

  -- GetDnsIPv4Addresses and GetDnsIPv6Addresses: the A and the AAAA records.
  unfoldable pub get_dns_ipv4_addresses : Access (List (List ℕ))
  get_dns_ipv4_addresses = get_dns_addresses 1 4

  unfoldable pub get_dns_ipv6_addresses : Access (List (List ℕ))
  get_dns_ipv6_addresses = get_dns_addresses 28 16

  unfoldable pub is_dns : Access Bool
  is_dns = do dns ← dns_ptr p; ok (elim dns [ none ↦ false | some _ ↦ true ])

  unfoldable pub get_dns_domain : Access (Option (List ℕ))
  get_dns_domain = do
    dns ← dns_ptr p
    or_return dns none λ d. do
      qdcount ← read_u16 p (d + 4)
      if qdcount == 0
          then ok none
          else do s ← parse_dns_name p d (d + 12); ok (non_empty_name s.name)

  unfoldable pub is_dns_mx_query : Access Bool
  is_dns_mx_query = do
    dns ← dns_ptr p
    or_return dns false λ d. do
      flags ← read p (d + 2)
      if leb 128 flags then ok false else do
        qdcount ← read_u16 p (d + 4)
        if qdcount == 0 then ok false else do
          s ← parse_dns_name p d (d + 12)
          if ltb s.cur d || ltb (end - s.cur) 2
              then ok false
              else do qtype ← read_u16 p s.cur; ok (qtype == 15)
