-- ===== src/Filter/DomainBlacklist/Suffix.antt =====
-- A domain is blacklisted with all its subdomains.
use mathlib.Core.List.{append_assoc}
use ftpn.Filter.DomainBlacklist.{same_domain, behind_dot, suffix_loop, get_blacklisted_domain}
use ftpn.Prelude.{
  ℕ, zero, suc, ◌<◌, ◌≡◌, ◌≢◌, refl, sym, ap, ◌∙◌, ◌↔◌, inl, inr, true, false, none, some, List, [],
  ◌∷◌, ◌++◌, arith, length, length-append, any, ◌==◌, Bool-cases, Option-cases,
}

-- `s` is `d` or stands behind a dot of `d`.
pub data LabelSuffix (s d : List ℕ) : Type 0 where
  whole : s ≡ d → LabelSuffix s d
  behind : (front : List ℕ) → d ≡ front ++ 46 ∷ s → LabelSuffix s d

pub behind_dot-some :
    (d rest : List ℕ) → behind_dot d ≡ some rest → (front : List ℕ) × (d ≡ front ++ 46 ∷ rest)
unfolding behind_dot
behind_dot-some [] rest h = absurd (ground arith)
behind_dot-some (c ∷ d) rest h = elim (Bool-cases (c == 46)) [
  | inl dot ↦ ([], ground arith)
  | inr other ↦ let (front, e) = behind_dot-some d rest (ground arith) in (c ∷ front, ap (◌∷◌ c) e)
]

-- The rest behind the first dot has every suffix that stands behind some dot.
pub behind_dot-append :
    (front s : List ℕ)
    → (rest : List ℕ) × (behind_dot (front ++ 46 ∷ s) ≡ some rest) × LabelSuffix s rest
unfolding behind_dot
behind_dot-append [] s = (s, refl, whole refl)
behind_dot-append (c ∷ front) s = elim (Bool-cases (c == 46)) [
  | inl dot ↦ (front ++ 46 ∷ s, rw dot, behind front refl)
  | inr other ↦ let (rest, e, suffix) = behind_dot-append front s in (rest, rw (other, e), suffix)
]

pub behind_dot_shorter : (d rest : List ℕ) → behind_dot d ≡ some rest → length rest < length d
behind_dot_shorter d rest h =
    let (front, e) = behind_dot-some d rest h in
    omega (arith, ap length e, length-append front (46 ∷ rest))

pub suffix_behind :
    (s rest d front : List ℕ) → d ≡ front ++ 46 ∷ rest → LabelSuffix s rest → LabelSuffix s d
suffix_behind s rest d front e (whole same) =
    behind front (e ∙ ap (λ r. front ++ 46 ∷ r) (sym same))
suffix_behind s rest d front e (behind inner e') =
    behind (front ++ 46 ∷ inner)
      (e ∙ ap (λ r. front ++ 46 ∷ r) e' ∙ sym (append_assoc front (46 ∷ inner) (46 ∷ s)))

module _ (domains : List (List ℕ)) where
  abbrev pub Listed : List ℕ → Type 0
  Listed s = any (same_domain s) domains ≡ true

  loop_here :
      (i c : ℕ) (d : List ℕ)
      → any (same_domain (c ∷ d)) domains ≡ true
      → suffix_loop domains (suc i) (c ∷ d) ≡ c ∷ d
  unfolding suffix_loop
  loop_here i c d h = rw h

  loop_last :
      (i c : ℕ) (d : List ℕ)
      → any (same_domain (c ∷ d)) domains ≡ false
      → behind_dot (c ∷ d) ≡ none
      → suffix_loop domains (suc i) (c ∷ d) ≡ []
  unfolding suffix_loop
  loop_last i c d h e = rw (h, e)

  loop_next :
      (i c : ℕ) (d rest : List ℕ)
      → any (same_domain (c ∷ d)) domains ≡ false
      → behind_dot (c ∷ d) ≡ some rest
      → suffix_loop domains (suc i) (c ∷ d) ≡ suffix_loop domains i rest
  unfolding suffix_loop
  loop_next i c d rest h e = ground (arith, h, e)

  -- A name that is listed and is a suffix of the domain.
  abbrev pub Blacklists : List ℕ → List ℕ → Type 0
  Blacklists s d = Listed s × LabelSuffix s d

  suffix_loop_sound :
      (i : ℕ) (d : List ℕ) → suffix_loop domains i d ≢ [] → Blacklists (suffix_loop domains i d) d
  suffix_loop_sound zero d h = absurd (h (unfold suffix_loop in refl))
  suffix_loop_sound (suc i) [] h = absurd (h (unfold suffix_loop in refl))
  suffix_loop_sound (suc i) (c ∷ d) h = elim (Bool-cases (any (same_domain (c ∷ d)) domains)) [
    | inl listed ↦ rw (loop_here i c d listed) (listed, whole refl)
    | inr other ↦ elim (Option-cases (behind_dot (c ∷ d))) [
      | inl e ↦ absurd (h (loop_last i c d other e))
      | inr (rest, e) ↦
          let step = loop_next i c d rest other e in
          let (listed, suffix) = suffix_loop_sound i rest (λ r. h (step ∙ r)) in
          let (front, parts) = behind_dot-some (c ∷ d) rest e in
          rw step (listed, suffix_behind _ rest (c ∷ d) front parts suffix)
    ]
  ]

  no_suffix_of_nil : (s : List ℕ) → s ≢ [] → ¬ LabelSuffix s []
  no_suffix_of_nil s ne (whole e) = ne e
  no_suffix_of_nil s ne (behind front e) =
      absurd (omega (arith, ap length e, length-append front (46 ∷ s)))

  pub next_suffix :
      (s d : List ℕ)
      → Listed s
      → any (same_domain d) domains ≡ false
      → LabelSuffix s d
      → (rest : List ℕ) × (behind_dot d ≡ some rest) × LabelSuffix s rest
  next_suffix s d listed other (whole e) =
      absurd (ground (arith, listed, other, ap (λ x. any (same_domain x) domains) e))
  next_suffix s d listed other (behind front e) = rw e (behind_dot-append front s)

  suffix_loop_complete :
      (i : ℕ) (d s : List ℕ) → length d < i → s ≢ [] → Blacklists s d → suffix_loop domains i d ≢ []
  suffix_loop_complete zero d s lt ne (listed, suffix) = absurd (omega arith)
  suffix_loop_complete (suc i) [] s lt ne (listed, suffix) = absurd (no_suffix_of_nil s ne suffix)
  suffix_loop_complete (suc i) (c ∷ d) s lt ne (listed, suffix) =
      elim (Bool-cases (any (same_domain (c ∷ d)) domains)) [
        | inl here ↦ rw (loop_here i c d here) (λ e. absurd (ground arith))
        | inr other ↦
            let (rest, e, suffix') = next_suffix s (c ∷ d) listed other suffix in
            rw (loop_next i c d rest other e) (
              suffix_loop_complete i rest s (omega (arith, behind_dot_shorter (c ∷ d) rest e)) ne
                (listed, suffix'))
      ]

  -- The domain itself or a parent domain of it stands in the list.
  abbrev pub IsBlacklisted : List ℕ → Type 0
  IsBlacklisted d = (s : List ℕ) × (s ≢ []) × Blacklists s d

  -- The lookup of a domain gives a name exactly if the domain itself or what stands behind one of its
  -- dots is in the list, and then it gives such a name.
  pub get_blacklisted_domain_lem :
      (d : List ℕ)
      → ((get_blacklisted_domain domains d ≢ []) ↔ IsBlacklisted d)
        × (get_blacklisted_domain domains d ≢ [] → Blacklists (get_blacklisted_domain domains d) d)
  unfolding get_blacklisted_domain
  get_blacklisted_domain_lem d = (
    (
      λ ne. (get_blacklisted_domain domains d, ne, suffix_loop_sound _ d ne),
      λ (s, ne, h). suffix_loop_complete (suc (length d)) d s (omega arith) ne h,
    ),
    suffix_loop_sound _ d,
  )
