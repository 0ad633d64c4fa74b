-- ===== src/Client/Blacklist/History.antt =====
-- What the plugin blocks after any history of packets.
use ftpn.Packet.{IpPacket, is_ipv4, is_ipv6, src_ipv4, src_ipv6, to_uint128}
use ftpn.Packet.Access.{
  Access, ok, ◌>>=◌, Returns, Returns-ok, Returns-bind, Returns-if, Returns-with, Returns-weaken,
  Any,
}
use ftpn.Packet.Dns.Answers.{is_dns, get_dns_domain, get_dns_ipv4_addresses, get_dns_ipv6_addresses}
use ftpn.Packet.Dns.Answers.Safety.{dns_getters_safe}
use ftpn.Client.Blacklist.{
  Blacklist, insert_all, Handled, remember_answer, handle_answer, is_from_blocked, handle_by_dns,
  handle_blacklist,
}
use mathlib.Core.Path.{subst}
use ftpn.Filter.DomainBlacklist.{same_domain, text_key}
use ftpn.Prelude.{
  ℕ, ◌≡◌, ◌⊎◌, ◌↔◌, refl, sym, ◌∙◌, inl, inr, Bool, true, false, ◌||◌, Option, none, some, List, [],
  ◌∷◌, arith, any, Key, number_key, ◌==◌, if◌then◌else◌, Bool-cases,
}

or_false : (a : Bool) → a ≡ (a || false)
or_false true = refl
or_false false = refl

or_known : (a b c : Bool) → (b ≡ true → a ≡ true) → (a || c) ≡ (a || (b || c))
or_known true b c h = refl
or_known false true c h = absurd (cc (h refl))
or_known false false c h = refl

or_new : (a b c : Bool) → ((b || a) || c) ≡ (a || (b || c))
or_new true true c = refl
or_new true false c = refl
or_new false b c = ground arith

or_iff : (a b : Bool) → ((a || b) ≡ true) ↔ ((a ≡ true) ⊎ (b ≡ true))
or_iff true b = (λ h. inl refl, λ h. refl)
or_iff false true = (λ h. inr refl, λ h. refl)
or_iff false false = (λ h. absurd (cc h), λ h. elim h [ inl e ↦ e | inr e ↦ e ])

-- A key is known behind the insertions exactly if it was, or is that of an address.
module _ {ℓ} {K : Type ℓ} ⦃k : Key K⦄ (text : List ℕ → K) (n : K) where
  any-known :
      (m : K) (known : List K)
      → any (λ x. k.same x m) known ≡ true
      → k.same m n ≡ true
      → any (λ x. k.same x n) known ≡ true
  any-known m known h e = let same = (k.same_iff m n).0 e in rw same at h

  any-insert_all :
      (addresses : List (List ℕ)) (known : List K)
      → any (λ x. k.same x n) (insert_all text addresses known)
        ≡ (any (λ x. k.same x n) known || any (λ a. k.same (text a) n) addresses)
  unfolding insert_all
  any-insert_all [] known = or_false (any (λ x. k.same x n) known)
  any-insert_all (a ∷ addresses) known = elim (Bool-cases (any (λ x. k.same x (text a)) known)) [
    | inl e ↦
        rw e (any-insert_all addresses known)
        ∙ or_known (any (λ x. k.same x n) known) (k.same (text a) n) _ (any-known (text a) known e)
    | inr e ↦
        rw e (any-insert_all addresses (text a ∷ known))
        ∙ or_new (any (λ x. k.same x n) known) (k.same (text a) n) _
  ]

-- A condition on one of the packets.
abbrev pub Somewhere : (IpPacket → Type 0) → List IpPacket → Type 0
Somewhere P [] = ⊥
Somewhere P (p ∷ ps) = P p ⊎ Somewhere P ps

abbrev pub no_addresses : Blacklist
no_addresses = record { ipv4_addresses = []; ipv6_addresses = [] }

module _ (to_text : ℕ → List ℕ) (partial_match : List ℕ → List ℕ → Bool)
    (rules : List (List ℕ)) where
  -- The packets of a history, one by one.
  unfoldable pub handle_all : List IpPacket → Blacklist → Access Blacklist
  handle_all [] b = ok b
  handle_all (p ∷ ps) b = do r ← handle_blacklist to_text partial_match rules p b; handle_all ps r.0

  -- A DNS message for a domain that a rule matches.
  abbrev pub Teaches : IpPacket → Type 0
  Teaches p =
      (domain : List ℕ) × (is_dns p.bytes ≡ ok true)
      × (get_dns_domain p.bytes ≡ ok (some domain))
      × (any (λ rule. partial_match domain rule) rules ≡ true)

  -- Such a message with this address in an answer.
  abbrev pub NamesIpv4 : ℕ → IpPacket → Type 0
  NamesIpv4 n p =
      Teaches p
      × ((addresses : List (List ℕ)) × (get_dns_ipv4_addresses p.bytes ≡ ok addresses)
          × (any (λ a. to_uint128 a 0 == n) addresses ≡ true))

  abbrev pub NamesIpv6 : List ℕ → IpPacket → Type 0
  NamesIpv6 t p =
      Teaches p
      × ((addresses : List (List ℕ)) × (get_dns_ipv6_addresses p.bytes ≡ ok addresses)
          × (any (λ a. same_domain (to_text (to_uint128 a 0)) t) addresses ≡ true))

  abbrev pub KnownIpv4 : ℕ → Blacklist → Type 0
  KnownIpv4 n b = any (λ m. m == n) b.ipv4_addresses ≡ true

  abbrev pub KnownIpv6 : List ℕ → Blacklist → Type 0
  KnownIpv6 t b = any (λ s. same_domain s t) b.ipv6_addresses ≡ true

  abbrev Learns : IpPacket → Blacklist → Blacklist → Type 0
  Learns p b b' =
      ((n : ℕ) → KnownIpv4 n b' ↔ (KnownIpv4 n b ⊎ NamesIpv4 n p))
      × ((t : List ℕ) → KnownIpv6 t b' ↔ (KnownIpv6 t b ⊎ NamesIpv6 t p))

  Learns-nothing : (p : IpPacket) (b : Blacklist) → ¬ Teaches p → Learns p b b
  Learns-nothing p b no' = (
    λ n. (λ h. inl h, λ h. elim h [ inl e ↦ e | inr (t, _) ↦ absurd (no' t) ]),
    λ n. (λ h. inl h, λ h. elim h [ inl e ↦ e | inr (t, _) ↦ absurd (no' t) ]),
  )

  remember-Learns :
      (p : IpPacket) (b : Blacklist)
      → Teaches p
      → Returns
          (remember_answer to_text partial_match rules p b)
          (λ r. Learns p b r.0 × (r.1 ≡ some p))
  unfolding remember_answer
  remember-Learns p b t =
      let (_, _, _, four, six) = dns_getters_safe p.bytes in
      Returns-bind _ _ (Returns-with four) λ ipv4 h4. Returns-bind _ _ (Returns-with six) λ ipv6 h6.
        Returns-ok _ (
          (
            λ n.
                let added = any-insert_all (λ a. to_uint128 a 0) n ipv4 b.ipv4_addresses in
                (
                  λ h. elim ((or_iff _ _).0 (sym added ∙ h)) [
                    | inl old ↦ inl old
                    | inr new ↦ inr (t, (ipv4, h4.1, new))
                  ],
                  λ h.
                      added
                      ∙ (or_iff _ _).1 (elim h [
                        | inl old ↦ inl old
                        | inr (_, (addresses, e, new)) ↦ inr (
                            same ipv4 addresses (sym h4.1 ∙ e)
                              (λ as'. any (λ a. to_uint128 a 0 == n) as' ≡ true) new)
                      ]),
                ),
            λ n.
                let added =
                  any-insert_all (λ a. to_text (to_uint128 a 0)) n ipv6 b.ipv6_addresses in
                (
                  λ h. elim ((or_iff _ _).0 (sym added ∙ h)) [
                    | inl old ↦ inl old
                    | inr new ↦ inr (t, (ipv6, h6.1, new))
                  ],
                  λ h.
                      added
                      ∙ (or_iff _ _).1 (elim h [
                        | inl old ↦ inl old
                        | inr (_, (addresses, e, new)) ↦ inr (
                            same ipv6 addresses (sym h6.1 ∙ e)
                              (λ as'.
                                any (λ a. same_domain (to_text (to_uint128 a 0)) n) as' ≡ true)
                              new)
                      ]),
                ),
          ),
          refl,
        )
    where
      same : (xs ys : List (List ℕ)) → ok xs ≡ ok ys → (P : List (List ℕ) → Type 0) → P ys → P xs
      same xs ys e P h = let e' : xs ≡ ys = cc in subst P (sym e') h

  ok-eq {ℓ} : {A : Type ℓ} {x y : A} → ok x ≡ ok y → x ≡ y
  ok-eq e = cc

  answer-Learns :
      (p : IpPacket) (domain : Option (List ℕ)) (b : Blacklist)
      → is_dns p.bytes ≡ ok true
      → get_dns_domain p.bytes ≡ ok domain
      → Returns
          (handle_answer to_text partial_match rules p domain b)
          (λ r. Learns p b r.0 × (r.1 ≡ some p))
  unfolding handle_answer
  answer-Learns p none b dns name =
      Returns-ok _ (Learns-nothing p b λ (domain, _, e, _). absurd (cc), refl)
  answer-Learns p (some domain) b dns name =
      Returns-if (any (λ rule. partial_match domain rule) rules) _ _
        (λ m. remember-Learns p b (domain, dns, name, m))
        λ m. Returns-ok _ (
          Learns-nothing p b λ (domain', _, e, m').
              let same : domain' ≡ domain = cc in absurd (cc (rw same at m')),
          refl,
        )

  other-Learns : (p : IpPacket) (b : Blacklist) → is_dns p.bytes ≡ ok false → Learns p b b
  other-Learns p b dns = Learns-nothing p b λ (domain, is, _, _). absurd (cc)

  -- What HandlePacket does with a packet: a DNS message passes and its addresses are learned if a rule
  -- matches its domain; any other packet teaches nothing and passes unless its source is to block.
  abbrev Handles : IpPacket → Blacklist → Handled to_text partial_match rules → Type 0
  Handles p b r =
      Learns p b r.0
      × (((is_dns p.bytes ≡ ok true) × (r.1 ≡ some p))
          ⊎ ((is_dns p.bytes ≡ ok false)
              × (r.1 ≡ (if is_from_blocked to_text partial_match rules p b then none else some p))))

  handle-Handles :
      (p : IpPacket) (b : Blacklist)
      → Returns (handle_blacklist to_text partial_match rules p b) (Handles p b)
  unfolding handle_blacklist
  handle-Handles p b =
      let (dns, name, _, _, _) = dns_getters_safe p.bytes in
      Returns-bind _ _ (Returns-with dns) λ is e. by_dns is e.1 name
    where
      by_dns :
          (is : Bool)
          → is_dns p.bytes ≡ ok is
          → Returns (get_dns_domain p.bytes) Any
          → Returns (handle_by_dns to_text partial_match rules is p b) (Handles p b)
      by_dns true e name =
          unfold handle_by_dns in
          Returns-bind _ _ (Returns-with name)
            λ domain d. Returns-weaken (answer-Learns p domain b e d.1) λ r l. (l.0, inl (e, l.1))
      by_dns false e name =
          unfold handle_by_dns in
          elim (Bool-cases (is_from_blocked to_text partial_match rules p b)) [
            | inl h ↦ rw h (Returns-ok _ (other-Learns p b e, inr (e, rw h refl)))
            | inr h ↦ rw h (Returns-ok _ (other-Learns p b e, inr (e, rw h refl)))
          ]

  -- After a history, an address is known exactly if it was before or a packet named it.
  handle_all-Known :
      (ps : List IpPacket) (b : Blacklist)
      → Returns (handle_all ps b) λ b'.
        ((n : ℕ) → KnownIpv4 n b' ↔ (KnownIpv4 n b ⊎ Somewhere (NamesIpv4 n) ps))
        × ((t : List ℕ) → KnownIpv6 t b' ↔ (KnownIpv6 t b ⊎ Somewhere (NamesIpv6 t) ps))
  unfolding handle_all
  handle_all-Known [] b = Returns-ok _ (λ n. or_nothing _, λ t. or_nothing _)
    where
      or_nothing : (P : Type 0) → P ↔ (P ⊎ ⊥)
      or_nothing P = (λ h. inl h, λ h. elim h [ inl e ↦ e | inr e ↦ absurd e ])
  handle_all-Known (p ∷ ps) b = Returns-bind _ _ (handle-Handles p b) λ r h.
      Returns-weaken (handle_all-Known ps r.0)
        λ b' k. (λ n. chain (k.0 n) (h.0.0 n), λ t. chain (k.1 t) (h.0.1 t))
    where
      chain : {P Q R S T : Type 0} → P ↔ (Q ⊎ R) → Q ↔ (S ⊎ T) → P ↔ (S ⊎ (T ⊎ R))
      chain f g = (
        λ x. elim (f.0 x) [
          | inl q ↦ elim (g.0 q) [ inl s ↦ inl s | inr t ↦ inr (inl t) ]
          | inr r ↦ inr (inr r)
        ],
        λ x. f.1 (elim x [
          | inl s ↦ inl (g.1 (inl s))
          | inr (inl t) ↦ inl (g.1 (inr t))
          | inr (inr r) ↦ inr r
        ]),
      )

  -- Why a packet behind a history is dropped: it is no DNS message, and its source address stood in an
  -- answer for a domain that a rule matches.
  abbrev pub Dropped : List IpPacket → IpPacket → Type 0
  Dropped ps p =
      (is_dns p.bytes ≡ ok false)
      × (((is_ipv4 p ≡ true) × Somewhere (NamesIpv4 (src_ipv4 p)) ps)
          ⊎ ((is_ipv4 p ≡ false)
              × (is_ipv6 p ≡ true)
              × Somewhere (NamesIpv6 (to_text (src_ipv6 p))) ps))

  abbrev pub DropsOrPasses : List IpPacket → IpPacket → Option IpPacket → Type 0
  DropsOrPasses ps p out = ((out ≡ none) ↔ Dropped ps p) × ((out ≡ none) ⊎ (out ≡ some p))

  drops :
      (ps : List IpPacket) (p : IpPacket) (b : Blacklist)
      → ((n : ℕ) → KnownIpv4 n b ↔ (KnownIpv4 n no_addresses ⊎ Somewhere (NamesIpv4 n) ps))
      → ((t : List ℕ) → KnownIpv6 t b ↔ (KnownIpv6 t no_addresses ⊎ Somewhere (NamesIpv6 t) ps))
      → is_dns p.bytes ≡ ok false
      → (is_from_blocked to_text partial_match rules p b ≡ true) ↔ Dropped ps p
  unfolding is_from_blocked
  drops ps p b four six e = elim (Bool-cases (is_ipv4 p)) [
    | inl v ↦ rw v (
      λ h. (e, inl (refl, learned _ ((four (src_ipv4 p)).0 h))),
      λ (_, d). elim d [ inl (_, s) ↦ (four (src_ipv4 p)).1 (inr s) | inr (f, _, _) ↦ absurd (cc) ],
    )
    | inr v ↦ elim (Bool-cases (is_ipv6 p)) [
      | inl w ↦
          rw (v, w)
            (
              λ h. (e, inr (refl, refl, learned _ ((six (to_text (src_ipv6 p))).0 h))),
              λ (_, d). elim d [
                | inl (f, _) ↦ absurd (cc)
                | inr (_, _, s) ↦ (six (to_text (src_ipv6 p))).1 (inr s)
              ],
            )
      | inr w ↦
          rw (v, w)
            (
              λ h. absurd (cc),
              λ (_, d). elim d [ inl (f, _) ↦ absurd (cc) | inr (_, f, _) ↦ absurd (cc) ],
            )
    ]
  ]
    where
      learned : (P : Type 0) → (false ≡ true) ⊎ P → P
      learned P (inl h) = absurd (cc)
      learned P (inr h) = h

  -- The blacklist has the addresses that the packets of a history named, and no other.
  abbrev pub Knows : List IpPacket → Blacklist → Type 0
  Knows ps b =
      ((n : ℕ) → KnownIpv4 n b ↔ (KnownIpv4 n no_addresses ⊎ Somewhere (NamesIpv4 n) ps))
      × ((t : List ℕ) → KnownIpv6 t b ↔ (KnownIpv6 t no_addresses ⊎ Somewhere (NamesIpv6 t) ps))

  pub Knows-nothing : Knows [] no_addresses
  Knows-nothing = (λ n. start, λ t. start)
    where
      start : (false ≡ true) ↔ ((false ≡ true) ⊎ ⊥)
      start = (λ h. absurd (cc), λ h. elim h [ inl e ↦ e | inr e ↦ absurd e ])

  Knows-next :
      (ps : List IpPacket) (p : IpPacket) (b b' : Blacklist)
      → Knows ps b
      → Learns p b b'
      → Knows (p ∷ ps) b'
  Knows-next ps p b b' k l = (λ n. both (l.0 n) (k.0 n), λ t. both (l.1 t) (k.1 t))
    where
      both : {P Q R S T : Type 0} → P ↔ (Q ⊎ R) → Q ↔ (S ⊎ T) → P ↔ (S ⊎ (R ⊎ T))
      both f g = (
        λ x. elim (f.0 x) [
          | inl q ↦ elim (g.0 q) [ inl s ↦ inl s | inr t ↦ inr (inr t) ]
          | inr r ↦ inr (inl r)
        ],
        λ x. f.1 (elim x [
          | inl s ↦ inl (g.1 (inl s))
          | inr (inr t) ↦ inl (g.1 (inr t))
          | inr (inl r) ↦ inr r
        ]),
      )

  outcome :
      (ps : List IpPacket) (p : IpPacket) (b : Blacklist) (out : Option IpPacket)
      → Knows ps b
      → ((is_dns p.bytes ≡ ok true) × (out ≡ some p))
        ⊎ ((is_dns p.bytes ≡ ok false)
            × (out ≡ (if is_from_blocked to_text partial_match rules p b then none else some p)))
      → DropsOrPasses ps p out
  outcome ps p b out k (inl (e, o)) = ((λ n. absurd (cc), λ (e', _). absurd (cc)), inr o)
  outcome ps p b out (four, six) (inr (e, o)) =
      let d = drops ps p b four six e in
      elim (Bool-cases (is_from_blocked to_text partial_match rules p b)) [
        | inl h ↦ ((λ n. d.0 h, λ _. o ∙ rw h refl), inl (o ∙ rw h refl))
        | inr h ↦ (
          (λ n. absurd (let o' = rw h at o in cc), λ x. absurd (let h' = d.1 x in cc)),
          inr (o ∙ rw h refl),
        )
      ]

  -- A packet behind a history, and the history with it.
  pub handle-Knows :
      (ps : List IpPacket) (p : IpPacket) (b : Blacklist)
      → Knows ps b
      → Returns
          (handle_blacklist to_text partial_match rules p b)
          λ r. Knows (p ∷ ps) r.0 × DropsOrPasses ps p r.1
  handle-Knows ps p b k =
      Returns-weaken (handle-Handles p b)
        λ r h. (Knows-next ps p b r.0 k h.0, outcome ps p b r.1 k h.1)

  -- After any history of packets the plugin reads inside the next packet only. It drops that packet
  -- exactly if it is no DNS message and its source address stood in an answer for a domain that a rule
  -- matches, and else hands it on unchanged.
  pub handle_blacklist-DropsOrPasses :
      (ps : List IpPacket) (p : IpPacket)
      → Returns (handle_all ps no_addresses) λ b.
        Returns (handle_blacklist to_text partial_match rules p b) λ r. DropsOrPasses ps p r.1
  handle_blacklist-DropsOrPasses ps p =
      Returns-weaken (handle_all-Known ps no_addresses)
        λ b k. Returns-weaken (handle-Handles p b) λ r h. outcome ps p b r.1 k h.1
