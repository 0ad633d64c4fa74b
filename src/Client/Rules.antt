-- ===== src/Client/Rules.antt =====
-- fptn/src/fptn-client/utils/utils.h and Trim of fptn/src/common/utils/utils.h: rules on domains. Text
-- is its bytes, in the C locale.
use ftpn.Filter.DomainBlacklist.{
  is_space, is_empty, same_domain, behind_dot, drop_last_dot, suffix_loop, get_blacklisted_domain,
  to_lower,
}
use ftpn.Filter.DomainBlacklist.Suffix.{IsBlacklisted, get_blacklisted_domain_lem}
use ftpn.Prelude.{
  ℕ, zero, suc, ◌≡◌, ◌≢◌, ◌↔◌, refl, ◌∙◌, sym, inl, inr, Bool, true, false, not, ◌&&◌, none, some,
  List, [], ◌∷◌, arith, length, any, map, drop, take, if◌then◌else◌, Bool-cases, Option-cases,
}

unfoldable pub trim_front : List ℕ → List ℕ
unfolding is_space
trim_front [] = []
trim_front (c ∷ s) = let rest = trim_front s in if is_space c then rest else c ∷ s

unfoldable pub trim_back : List ℕ → List ℕ
unfolding is_space
trim_back [] = []
trim_back (c ∷ s) = let rest = trim_back s in if is_empty rest && is_space c then [] else c ∷ rest

unfoldable pub trim : List ℕ → List ℕ
unfolding trim_front trim_back
trim s = trim_back (trim_front s)

-- domain.starts_with("domain:") and substr
unfoldable pub drop_prefix : List ℕ → List ℕ → List ℕ
unfolding same_domain
drop_prefix prefix s =
    if same_domain (take (length prefix) s) prefix then drop (length prefix) s else s

unfoldable pub normalize_domain_rule : List ℕ → List ℕ
unfolding trim drop_prefix drop_last_dot to_lower
normalize_domain_rule rule =
    drop_last_dot
      (drop_prefix (b'd' ∷ b'o' ∷ b'm' ∷ b'a' ∷ b'i' ∷ b'n' ∷ b':' ∷ []) (map to_lower (trim rule)))

-- The rules that a constructor keeps.
unfoldable pub load_rules : List (List ℕ) → List (List ℕ)
unfolding normalize_domain_rule
load_rules [] = []
load_rules (rule ∷ rules) =
    let rest = load_rules rules in
    let domain = normalize_domain_rule rule in if is_empty domain then rest else domain ∷ rest

module _ (domains : List (List ℕ)) where
  -- The loop of IsDomainMatched; each pass shortens the suffix.
  unfoldable pub matched_loop : ℕ → List ℕ → Bool
  unfolding same_domain behind_dot
  matched_loop zero suffix = false
  matched_loop (suc i) suffix =
      if is_empty suffix
      then false
      else if any (same_domain suffix) domains
      then true
      else elim (behind_dot suffix) [ none ↦ false | some rest ↦ matched_loop i rest ]

  unfoldable pub is_domain_matched : List ℕ → Bool
  unfolding matched_loop
  is_domain_matched domain = matched_loop (suc (length domain)) domain

  -- The server's loop over the same suffixes finds a name when this one says true.
  matched_loop-suffix_loop :
      (i : ℕ) (d : List ℕ) → matched_loop i d ≡ not (is_empty (suffix_loop domains i d))
  unfolding matched_loop suffix_loop
  matched_loop-suffix_loop zero d = refl
  matched_loop-suffix_loop (suc i) [] = refl
  matched_loop-suffix_loop (suc i) (c ∷ d) = elim (Bool-cases (any (same_domain (c ∷ d)) domains)) [
    | inl e ↦ rw e refl
    | inr e ↦ elim (Option-cases (behind_dot (c ∷ d))) [
      | inl n ↦ rw (e, n) refl
      | inr (rest, s) ↦ rw (e, s) (matched_loop-suffix_loop i rest)
    ]
  ]

  nonempty_text : (s : List ℕ) → (not (is_empty s) ≡ true) ↔ (s ≢ [])
  nonempty_text [] = (λ h. absurd (ground (arith, h)), λ h. absurd (h refl))
  nonempty_text (c ∷ s) = (λ h e. absurd (ground (arith, e)), λ h. refl)

  -- A domain matches the client's rules exactly if it or a domain above it is one of them, and then
  -- the server's domain blacklist with the same names lists it too.
  pub is_domain_matched_iff :
      (d : List ℕ)
      → ((is_domain_matched d ≡ true) ↔ IsBlacklisted domains d)
        × ((is_domain_matched d ≡ true) ↔ (get_blacklisted_domain domains d ≢ []))
  unfolding is_domain_matched get_blacklisted_domain
  is_domain_matched_iff d =
      let same = matched_loop-suffix_loop (suc (length d)) d in
      let found = nonempty_text (suffix_loop domains (suc (length d)) d) in
      let names = (get_blacklisted_domain_lem domains d).0 in
      (
        (λ h. names.0 (found.0 (sym same ∙ h)), λ h. same ∙ found.1 (names.1 h)),
        (λ h. found.0 (sym same ∙ h), λ h. same ∙ found.1 h),
      )
