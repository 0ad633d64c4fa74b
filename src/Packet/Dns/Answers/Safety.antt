-- ===== src/Packet/Dns/Answers/Safety.antt =====
-- The DNS getters read inside the packet, whatever its bytes are.
use ftpn.Packet.Access.{
  Returns, Returns-ok, Returns-bind, Returns-turn, PassHolds, NullOr, Returns-or_return, Any,
  read-Returns, read_u16-Returns, read_bytes-Returns,
}
use ftpn.Packet.Dns.Safety.{dns_ptr-Returns, parse_dns_name-Returns, skip_dns_name-Returns}
use ftpn.Packet.Dns.Answers.{
  AnswerScan, question_pass, question_loop, dns_answer_start, answer_pass, answer_loop,
  get_dns_addresses, get_dns_ipv4_addresses, get_dns_ipv6_addresses, is_dns, get_dns_domain,
  is_dns_mx_query,
}
use ftpn.Prelude.{
  ℕ, zero, suc, ◌+◌, ◌-◌, ◌≤◌, ◌≡◌, not, ◌&&◌, ◌||◌, Option, List, [], ◌∷◌, ◌++◌, arith, inl, inr,
  Bool-cases, length, ltb, leb, ◌==◌, if◌then◌else◌, All, All-append,
}

module _ (p : List ℕ) where
  -- An answer to look at, inside the packet.
  abbrev CursorInside : Option ℕ → Type 0
  CursorInside = NullOr (λ cur. cur ≤ length p)

  abbrev StartInside : Option (ℕ × ℕ) → Type 0
  StartInside = NullOr (λ first. first.0 ≤ length p)

  question_pass-Returns :
      (cur : ℕ)
      → cur ≤ length p
      → Returns (question_pass p cur) (PassHolds CursorInside (λ next. next ≤ length p))
  unfolding question_pass
  question_pass-Returns cur le =
      Returns-bind _ _ (skip_dns_name-Returns p cur le) λ skipped h. Returns-ok _ (ground arith)

  question_loop-Returns :
      (q cur : ℕ) → cur ≤ length p → Returns (question_loop p q cur) CursorInside
  unfolding question_loop
  question_loop-Returns zero cur le = Returns-ok _ (ground arith)
  question_loop-Returns (suc q) cur le = elim (Bool-cases (leb (length p) cur)) [
    | inl e ↦ rw e (Returns-ok _ tt)
    | inr inside ↦ rw inside (
        Returns-bind _ _ (question_pass-Returns cur le)
          λ pass h. Returns-turn pass _ h (question_loop-Returns q))
  ]

  dns_answer_start-Returns :
      (dns : ℕ) → dns + 12 ≤ length p → Returns (dns_answer_start p dns) StartInside
  unfolding dns_answer_start
  dns_answer_start-Returns dns le = elim (Bool-cases (ltb (length p) (dns + 12))) [
    | inl e ↦ rw e (Returns-ok _ tt)
    | inr fits ↦ rw fits (
        Returns-bind _ _ (read-Returns p (dns + 2) (omega arith)) λ flags _.
          elim (Bool-cases (ltb flags 128)) [
            | inl query ↦ rw query (Returns-ok _ tt)
            | inr response ↦ rw response (
                Returns-bind _ _ (read_u16-Returns p (dns + 4) (omega arith)) λ qdcount _.
                  Returns-bind _ _ (read_u16-Returns p (dns + 6) (omega arith)) λ ancount _.
                    elim (Bool-cases (ancount == 0)) [
                      | inl no_answer ↦ rw no_answer (Returns-ok _ tt)
                      | inr answers ↦ rw answers (
                          Returns-bind _ _ (question_loop-Returns qdcount (dns + 12) le)
                            λ start h. Returns-ok _ (ground arith))
                    ])
          ])
  ]

  -- The gathered records have the length that was asked for, and the cursor stands inside.
  abbrev ScanInside : ℕ → AnswerScan → Type 0
  ScanInside rdlen s = (s.cur ≤ length p) × All (λ rdata. length rdata ≡ rdlen) s.found

  keep_found :
      (rtype rdlen t l : ℕ) (found : List (List ℕ)) (rdata : List ℕ)
      → length rdata ≡ l
      → All (λ r. length r ≡ rdlen) found
      → All
          (λ r. length r ≡ rdlen)
          (if t == rtype && l == rdlen then found ++ rdata ∷ [] else found)
  keep_found rtype rdlen t l found rdata hl all = elim (Bool-cases (t == rtype && l == rdlen)) [
    | inl e ↦ rw e (All-append _ found (rdata ∷ []) all (ground arith, tt))
    | inr e ↦ rw e all
  ]

  answer_pass-Returns :
      (rtype rdlen : ℕ) (s : AnswerScan)
      → ScanInside rdlen s
      → Returns (answer_pass p rtype rdlen s) (PassHolds (ScanInside rdlen) (ScanInside rdlen))
  unfolding answer_pass
  answer_pass-Returns rtype rdlen s (le, all) =
      Returns-bind _ _ (skip_dns_name-Returns p s.cur le) λ skipped h.
        elim (Bool-cases (not skipped.found || ltb (length p - skipped.cur) 10)) [
          | inl e ↦ rw e (Returns-ok _ (le, all))
          | inr found ↦ rw found (
              Returns-bind _ _ (read_u16-Returns p skipped.cur (ground arith)) λ t _.
                Returns-bind _ _ (read_u16-Returns p (skipped.cur + 8) (ground arith)) λ l _.
                  elim (Bool-cases (ltb (length p - (skipped.cur + 10)) l)) [
                    | inl e ↦ rw e (Returns-ok _ (le, all))
                    | inr fits ↦ rw fits (
                        Returns-bind _ _ (read_bytes-Returns p (skipped.cur + 10) l (ground arith))
                          λ rdata hl.
                            Returns-ok _
                              (ground arith, keep_found rtype rdlen t l s.found rdata hl all))
                  ])
        ]

  answer_loop-Returns :
      (rtype rdlen a : ℕ) (s : AnswerScan)
      → ScanInside rdlen s
      → Returns (answer_loop p rtype rdlen a s) (ScanInside rdlen)
  unfolding answer_loop
  answer_loop-Returns rtype rdlen zero s h = Returns-ok s h
  answer_loop-Returns rtype rdlen (suc a) s h = elim (Bool-cases (leb (length p) s.cur)) [
    | inl e ↦ rw e (Returns-ok s h)
    | inr inside ↦ rw inside (
        Returns-bind _ _ (answer_pass-Returns rtype rdlen s h)
          λ pass h'. Returns-turn pass _ h' (answer_loop-Returns rtype rdlen a))
  ]

  get_dns_addresses-Returns :
      (rtype rdlen : ℕ)
      → Returns (get_dns_addresses p rtype rdlen) (All (λ rdata. length rdata ≡ rdlen))
  unfolding get_dns_addresses
  get_dns_addresses-Returns rtype rdlen = Returns-bind _ _ (dns_ptr-Returns p) λ dns inside.
      Returns-or_return dns _ _ inside tt λ d le.
        Returns-bind _ _ (dns_answer_start-Returns d le) λ start h.
          Returns-or_return start _ _ h tt λ first le'.
            Returns-bind _ _ (answer_loop-Returns rtype rdlen first.1 _ (le', tt))
              λ s hs. Returns-ok _ hs.1

  is_dns-Returns : Returns (is_dns p) Any
  unfolding is_dns
  is_dns-Returns = Returns-bind _ _ (dns_ptr-Returns p) λ dns _. Returns-ok _ tt

  get_dns_domain-Returns : Returns (get_dns_domain p) Any
  unfolding get_dns_domain
  get_dns_domain-Returns = Returns-bind _ _ (dns_ptr-Returns p) λ dns inside.
      Returns-or_return dns _ _ inside tt λ d le.
        Returns-bind _ _ (read_u16-Returns p (d + 4) (omega arith)) λ qdcount _.
          elim (Bool-cases (qdcount == 0)) [
            | inl e ↦ rw e (Returns-ok _ tt)
            | inr e ↦
                rw e
                  (Returns-bind _ _ (parse_dns_name-Returns p d (d + 12) le) λ s _. Returns-ok _ tt)
          ]

  is_dns_mx_query-Returns : Returns (is_dns_mx_query p) Any
  unfolding is_dns_mx_query
  is_dns_mx_query-Returns = Returns-bind _ _ (dns_ptr-Returns p) λ dns inside.
      Returns-or_return dns _ _ inside tt λ d le.
        Returns-bind _ _ (read-Returns p (d + 2) (omega arith)) λ flags _.
          elim (Bool-cases (leb 128 flags)) [
            | inl e ↦ rw e (Returns-ok _ tt)
            | inr query ↦ rw query (
                Returns-bind _ _ (read_u16-Returns p (d + 4) (omega arith)) λ qdcount _.
                  elim (Bool-cases (qdcount == 0)) [
                    | inl e ↦ rw e (Returns-ok _ tt)
                    | inr some_question ↦ rw some_question (
                        Returns-bind _ _ (parse_dns_name-Returns p d (d + 12) le) λ s hs.
                          elim (Bool-cases (ltb s.cur d || ltb (length p - s.cur) 2)) [
                            | inl e ↦ rw e (Returns-ok _ tt)
                            | inr fits ↦ rw fits (
                                Returns-bind _ _ (read_u16-Returns p s.cur (ground arith))
                                  λ qtype _. Returns-ok _ tt)
                          ])
                  ])
          ]

  -- Whatever the bytes of a packet are, the five DNS getters read bytes of the packet only, and an
  -- IPv4 or IPv6 address that they give has 4 or 16 bytes.
  pub dns_getters_safe :
      Returns (is_dns p) Any
      × Returns (get_dns_domain p) Any
      × Returns (is_dns_mx_query p) Any
      × Returns (get_dns_ipv4_addresses p) (All (λ address. length address ≡ 4))
      × Returns (get_dns_ipv6_addresses p) (All (λ address. length address ≡ 16))
  unfolding get_dns_ipv4_addresses get_dns_ipv6_addresses
  dns_getters_safe = (
    is_dns-Returns,
    get_dns_domain-Returns,
    is_dns_mx_query-Returns,
    get_dns_addresses-Returns 1 4,
    get_dns_addresses-Returns 28 16,
  )
