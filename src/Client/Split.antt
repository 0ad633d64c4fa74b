-- ===== src/Client/Split.antt =====
-- fptn/src/fptn-client/plugins/split/tunneling.cpp: the addresses that a DNS answer gets direct routes
-- for. The routes that the route manager is asked to add are the result.
use ftpn.Packet.Access.{
  Access, ok, ◌>>=◌, Returns, Returns-ok, Returns-bind, Returns-if, Returns-with, Returns-weaken,
}
use ftpn.Packet.Dns.Answers.{is_dns, get_dns_domain, get_dns_ipv4_addresses, get_dns_ipv6_addresses}
use ftpn.Packet.Dns.Answers.Safety.{dns_getters_safe}
use ftpn.Filter.DomainBlacklist.Suffix.{IsBlacklisted}
use ftpn.Client.Rules.{is_domain_matched, is_domain_matched_iff}
use ftpn.Prelude.{
  ℕ, ◌≡◌, ◌⊎◌, refl, inl, inr, Bool, true, false, not, ◌||◌, Option, none, some, List, [], ◌∷◌,
  arith, length, All, if◌then◌else◌,
}

-- RoutingPolicy
pub data RoutingPolicy : Type 0 where
  include_in_vpn exclude_from_vpn : RoutingPolicy

-- AddDnsRoutesIPv4 and AddDnsRoutesIPv6 were called with these addresses; `triggered` is the result.
pub record Routed : Type 0 where
  pub ipv4 : List (List ℕ)
  pub ipv6 : List (List ℕ)
  pub triggered : Bool

abbrev pub untouched : Routed
untouched = record { ipv4 = []; ipv6 = []; triggered = false }

abbrev pub needs_routes : RoutingPolicy → Bool → Bool
needs_routes RoutingPolicy.include_in_vpn matched = not matched
needs_routes RoutingPolicy.exclude_from_vpn matched = matched

abbrev pub is_nonempty : List (List ℕ) → Bool
is_nonempty [] = false
is_nonempty (a ∷ rest) = true

module _ (apple : Bool) (domains : List (List ℕ)) (policy : RoutingPolicy) where
  unfoldable pub add_routes : List ℕ → Access Routed
  add_routes p = do
    ipv4 ← get_dns_ipv4_addresses p
    ipv6 ← if apple then ok [] else get_dns_ipv6_addresses p
    ok (record { ipv4 = ipv4; ipv6 = ipv6; triggered = is_nonempty ipv4 || is_nonempty ipv6 })

  unfoldable pub on_domain : List ℕ → Option (List ℕ) → Access Routed
  unfolding add_routes
  on_domain p none = ok untouched
  on_domain p (some domain) =
      if needs_routes policy (is_domain_matched domains domain) then add_routes p else ok untouched

  unfoldable pub handle_packet : List ℕ → Access Routed
  unfolding on_domain
  handle_packet p = do
    dns ← is_dns p
    if not dns then ok untouched else do domain ← get_dns_domain p; on_domain p domain

  -- Why an answer for a domain gets routes: the domain is covered by a rule that excludes it, or by no
  -- rule that includes it.
  abbrev pub Leaves : List ℕ → Type 0
  Leaves domain =
      ((policy ≡ RoutingPolicy.exclude_from_vpn) × IsBlacklisted domains domain)
      ⊎ ((policy ≡ RoutingPolicy.include_in_vpn) × ¬ IsBlacklisted domains domain)

  abbrev pub RoutedFor : List ℕ → Routed → Type 0
  RoutedFor p r =
      All (λ a. length a ≡ 4) r.ipv4
      × All (λ a. length a ≡ 16) r.ipv6
      × ((r.ipv4 ≡ []) ⊎ (r.triggered ≡ true))
      × ((r.ipv6 ≡ []) ⊎ ((r.triggered ≡ true) × (apple ≡ false)))
      × (r.triggered ≡ true
          → (domain : List ℕ) × (get_dns_domain p ≡ ok (some domain)) × Leaves domain)

  needs_routes-Leaves :
      (domain : List ℕ)
      → needs_routes policy (is_domain_matched domains domain) ≡ true
      → Leaves domain
  needs_routes-Leaves domain h = by_policy policy refl h
    where
      by_policy :
          (q : RoutingPolicy)
          → policy ≡ q
          → needs_routes q (is_domain_matched domains domain) ≡ true
          → Leaves domain
      by_policy RoutingPolicy.exclude_from_vpn e t =
          inl (e, (is_domain_matched_iff domains domain).0.0 t)
      by_policy RoutingPolicy.include_in_vpn e t =
          inr (e, λ b. absurd (ground (arith, t, (is_domain_matched_iff domains domain).0.1 b)))

  add_routes-RoutedFor :
      (p domain : List ℕ)
      → get_dns_domain p ≡ ok (some domain)
      → Leaves domain
      → Returns (add_routes p) (RoutedFor p)
  unfolding add_routes
  add_routes-RoutedFor p domain named leaves =
      let (_, _, _, four, six) = dns_getters_safe p in
      Returns-bind _ _ four λ ipv4 h4. Returns-bind _ _ (sixteen six) λ ipv6 h6. Returns-ok _ (
        h4,
        h6.0,
        first ipv4 (is_nonempty ipv6),
        second (is_nonempty ipv4) ipv6 h6.1,
        λ _. (domain, named, leaves),
      )
    where
      sixteen :
          Returns (get_dns_ipv6_addresses p) (All (λ a. length a ≡ 16))
          → Returns
              (if apple then ok [] else get_dns_ipv6_addresses p)
              (λ as6. All (λ a. length a ≡ 16) as6 × ((as6 ≡ []) ⊎ (apple ≡ false)))
      sixteen six =
          Returns-if apple _ _ (λ _. Returns-ok [] (tt, inl refl))
            λ other. Returns-weaken six λ as6 h. (h, inr other)

      second :
          (b : Bool) (as6 : List (List ℕ))
          → (as6 ≡ []) ⊎ (apple ≡ false)
          → (as6 ≡ []) ⊎ (((b || is_nonempty as6) ≡ true) × (apple ≡ false))
      second b [] h = inl refl
      second true (a ∷ rest) h = elim h [ inl e ↦ inl e | inr e ↦ inr (refl, e) ]
      second false (a ∷ rest) h = elim h [ inl e ↦ inl e | inr e ↦ inr (refl, e) ]

      first : (as4 : List (List ℕ)) (b : Bool) → (as4 ≡ []) ⊎ ((is_nonempty as4 || b) ≡ true)
      first [] b = inl refl
      first (a ∷ rest) b = inr refl

  -- For any packet the plugin reads inside it only; it asks for routes for addresses of 4 and 16 bytes
  -- only, for those of 16 not on Apple's systems, and for either only if the packet is a DNS message for a domain that is covered by a rule under the
  -- exclude policy, or by none under the include policy.
  pub handle_packet-RoutedFor : (p : List ℕ) → Returns (handle_packet p) (RoutedFor p)
  unfolding handle_packet
  handle_packet-RoutedFor p =
      let (dns, name, _, _, _) = dns_getters_safe p in
      Returns-bind _ _ dns λ is _.
        Returns-if (not is) _ _ (λ _. nothing)
          λ _. Returns-bind _ _ (Returns-with name) λ domain e. on_name domain e.1
    where
      nothing : Returns (ok untouched) (RoutedFor p)
      nothing = Returns-ok untouched (tt, tt, inl refl, inl refl, λ h. absurd (ground (arith, h)))

      on_name :
          (name : Option (List ℕ))
          → get_dns_domain p ≡ ok name
          → Returns (on_domain p name) (RoutedFor p)
      on_name none e = unfold on_domain in nothing
      on_name (some domain) e =
          unfold on_domain in
          Returns-if (needs_routes policy (is_domain_matched domains domain)) _ _
            (λ h. add_routes-RoutedFor p domain e (needs_routes-Leaves domain h)) (λ _. nothing)
