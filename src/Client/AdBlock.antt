-- ===== src/Client/AdBlock.antt =====
-- fptn/src/fptn-client/adblock/adblock.cpp: the lines of a block list and the test of a DNS query. The
-- lower case of a text under the user's locale is a parameter.
use mathlib.Core.Option.{some-injective}
use ftpn.Packet.Access.{
  Access, ok, ◌>>=◌, Returns, Returns-ok, Returns-bind, Returns-if, Returns-with,
}
use ftpn.Packet.Dns.Answers.Safety.{dns_getters_safe}
use ftpn.Packet.Dns.Answers.{is_dns, get_dns_domain}
use ftpn.Filter.DomainBlacklist.{is_empty, same_domain, behind_dot}
use ftpn.Filter.DomainBlacklist.Suffix.{
  LabelSuffix, whole, behind, behind_dot-some, behind_dot-append, behind_dot_shorter, suffix_behind,
  next_suffix,
}
use ftpn.Client.Rules.{trim}
use ftpn.Prelude.{
  ℕ, zero, suc, ◌-◌, ◌<◌, ◌≡◌, ◌≢◌, ◌↔◌, refl, ap, ◌∙◌, sym, inl, inr, Bool, true, false, not, ◌&&◌,
  ◌||◌, Option, none, some, List, [], ◌∷◌, arith, length, any, drop, ltb, ◌==◌, if◌then◌else◌,
  Bool-cases, Option-cases,
}

-- line.pop_back() if the last character is '\r'
unfoldable pub drop_carriage_return : List ℕ → List ℕ
drop_carriage_return [] = []
drop_carriage_return (c ∷ []) = if c == 13 then [] else c ∷ []
drop_carriage_return (c ∷ d ∷ s) = c ∷ drop_carriage_return (d ∷ s)

-- line.erase(line.find('#'))
unfoldable pub drop_comment : List ℕ → List ℕ
drop_comment [] = []
drop_comment (c ∷ s) = let rest = drop_comment s in if c == 35 then [] else c ∷ rest

-- What stands behind the first blank or tab, or all of it.
unfoldable pub second_word : List ℕ → Option (List ℕ)
second_word [] = none
second_word (c ∷ s) = let rest = second_word s in if c == 32 || c == 9 then some s else rest

abbrev pub or_else : List ℕ → Option (List ℕ) → List ℕ
or_else s none = s
or_else s (some r) = r

unfoldable pub ends_with : List ℕ → List ℕ → Bool
unfolding same_domain
ends_with s tail =
    not (ltb (length s) (length tail)) && same_domain (drop (length s - length tail) s) tail

abbrev pub is_comment : List ℕ → Bool
is_comment [] = true
is_comment (c ∷ s) = c == 35 || c == 33

abbrev pub has_dot : List ℕ → Bool
has_dot s = elim (behind_dot s) [ none ↦ false | some _ ↦ true ]

abbrev pub local_names : List (List ℕ)
local_names =
    (b'.' ∷ b'l' ∷ b'o' ∷ b'c' ∷ b'a' ∷ b'l' ∷ [])
    ∷ (b'.' ∷ b'l' ∷ b'o' ∷ b'c' ∷ b'a' ∷ b'l' ∷ b'd' ∷ b'o' ∷ b'm' ∷ b'a' ∷ b'i' ∷ b'n' ∷ [])
    ∷ (b'.' ∷ b'l' ∷ b'o' ∷ b'c' ∷ b'a' ∷ b'l' ∷ b'h' ∷ b'o' ∷ b's' ∷ b't' ∷ [])
    ∷ []

abbrev pub any_address : List ℕ
any_address = b'0' ∷ b'.' ∷ b'0' ∷ b'.' ∷ b'0' ∷ b'.' ∷ b'0' ∷ []

module _ (to_lower_case : List ℕ → List ℕ) where
  unfoldable pub parse_blocklist_line : List ℕ → List ℕ
  unfolding drop_carriage_return drop_comment second_word ends_with trim behind_dot same_domain
  parse_blocklist_line raw =
      let line = drop_carriage_return raw in
      if is_comment line
      then []
      else let text = to_lower_case (trim (drop_comment line)) in
        if is_empty text
        then []
        else let domain = trim (or_else text (second_word text)) in
          if not (has_dot domain) || same_domain domain any_address
          then []
          else if any (ends_with domain) local_names
          then []
          else domain

module _ (blocked_domains : List (List ℕ)) where
  -- The loop of IsBlocked; each pass shortens the name.
  unfoldable pub blocked_loop : ℕ → List ℕ → Bool
  unfolding behind_dot same_domain
  blocked_loop zero d = false
  blocked_loop (suc i) d = elim (behind_dot d) [
    | none ↦ false
    | some rest ↦ if any (same_domain d) blocked_domains then true else blocked_loop i rest
  ]

  unfoldable pub is_blocked : List ℕ → Bool
  unfolding blocked_loop
  is_blocked domain = blocked_loop (suc (length domain)) domain

  -- The tests of ProcessOutgoingDns: the packet is answered by MakeDnsNullRouteResponse.
  unfoldable pub is_answered : List ℕ → Access Bool
  unfolding is_blocked
  is_answered p = do
    dns ← is_dns p
    if not dns
        then ok false
        else do domain ← get_dns_domain p; ok (elim domain [ none ↦ false | some d ↦ is_blocked d ])

  -- A listed name with a dot that is the domain or stands behind one of its dots.
  abbrev pub Blocks : List ℕ → List ℕ → Type 0
  Blocks s d =
      (any (same_domain s) blocked_domains ≡ true) × LabelSuffix s d × (behind_dot s ≢ none)

  loop_out : (d : List ℕ) → blocked_loop zero d ≡ false
  unfolding blocked_loop
  loop_out d = refl

  loop_stops : (i : ℕ) (d : List ℕ) → behind_dot d ≡ none → blocked_loop (suc i) d ≡ false
  unfolding blocked_loop
  loop_stops i d e = rw (e, blocked_loop) refl

  loop_goes_on :
      (i : ℕ) (d rest : List ℕ)
      → behind_dot d ≡ some rest
      → blocked_loop (suc i) d
        ≡ (if any (same_domain d) blocked_domains then true else blocked_loop i rest)
  unfolding blocked_loop
  loop_goes_on i d rest e = rw (e, blocked_loop) refl

  blocked_loop_sound : (i : ℕ) (d : List ℕ) → blocked_loop i d ≡ true → (s : List ℕ) × Blocks s d
  blocked_loop_sound zero d h = absurd (ground (arith, sym (loop_out d) ∙ h))
  blocked_loop_sound (suc i) d h = elim (Option-cases (behind_dot d)) [
    | inl e ↦ absurd (ground (arith, sym (loop_stops i d e) ∙ h))
    | inr (rest, e) ↦
        let step = sym (loop_goes_on i d rest e) ∙ h in
        elim (Bool-cases (any (same_domain d) blocked_domains)) [
          | inl listed ↦ (d, (listed, whole refl, λ n. absurd (ground (arith, e, n))))
          | inr other ↦
              let (s, (listed, suffix, dot)) = blocked_loop_sound i rest (rw other at step) in
              let (front, parts) = behind_dot-some d rest e in
              (s, (listed, suffix_behind s rest d front parts suffix, dot))
        ]
  ]

  blocked_loop_complete :
      (i : ℕ) (d s : List ℕ) → length d < i → Blocks s d → blocked_loop i d ≡ true
  blocked_loop_complete zero d s lt b = absurd (omega arith)
  blocked_loop_complete (suc i) d s lt (listed, suffix, dot) = elim (Option-cases (behind_dot d)) [
    | inl e ↦ absurd (no_dot s d suffix dot e)
    | inr (rest, e) ↦
        loop_goes_on i d rest e ∙ (elim (Bool-cases (any (same_domain d) blocked_domains)) [
          | inl here ↦ rw here refl
          | inr other ↦
              let (rest', e', suffix') = next_suffix blocked_domains s d listed other suffix in
              let same : rest' ≡ rest = some-injective rest' rest (sym e' ∙ e) in
              rw other (
                blocked_loop_complete i rest s (omega (arith, behind_dot_shorter d rest e, lt))
                  (listed, rw same at suffix', dot))
        ])
  ]
    where
      no_dot : (s d : List ℕ) → LabelSuffix s d → behind_dot s ≢ none → behind_dot d ≡ none → ⊥
      no_dot s d (whole e) dot n = dot (ap behind_dot e ∙ n)
      no_dot s d (behind front e) dot n =
          let (rest, f, _) = behind_dot-append front s in
          absurd (ground (arith, sym f ∙ ap behind_dot (sym e) ∙ n))

  -- A domain is blocked exactly if a name with a dot is in the list that is the domain or stands
  -- behind one of its dots; a listed name without a dot blocks nothing.
  pub is_blocked_iff : (d : List ℕ) → (is_blocked d ≡ true) ↔ ((s : List ℕ) × Blocks s d)
  unfolding is_blocked
  is_blocked_iff d = (
    blocked_loop_sound (suc (length d)) d,
    λ (s, b). blocked_loop_complete (suc (length d)) d s (omega arith) b,
  )

  -- ProcessOutgoingDns reads inside any packet only, and answers only a DNS message for a domain that
  -- is blocked by a listed name with a dot.
  is_answered-Blocks :
      (p : List ℕ)
      → Returns (is_answered p) λ answered.
        answered ≡ true
        → (d : List ℕ) × (get_dns_domain p ≡ ok (some d)) × ((s : List ℕ) × Blocks s d)
  unfolding is_answered
  is_answered-Blocks p =
      let (dns, name, _, _, _) = dns_getters_safe p in
      Returns-bind _ _ dns λ is _.
        Returns-if (not is) _ _ (λ _. Returns-ok _ λ h. absurd (ground (arith, h)))
          λ _. Returns-bind _ _ (Returns-with name) λ domain e. Returns-ok _ (on_name domain e.1)
    where
      on_name :
          (name : Option (List ℕ))
          → get_dns_domain p ≡ ok name
          → elim name [ none ↦ false | some d ↦ is_blocked d ] ≡ true
          → (d : List ℕ) × (get_dns_domain p ≡ ok (some d)) × ((s : List ℕ) × Blocks s d)
      on_name none e h = absurd (ground (arith, h))
      on_name (some d) e h = (d, e, (is_blocked_iff d).0 h)
