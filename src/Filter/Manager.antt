-- ===== src/Filter/Manager.antt =====
-- fptn/src/fptn-server/filter/manager.cpp and filters/base_filter.h: a chain of filters, each of
-- which passes the packet on or drops it. A filter may keep a state: `S` holds the states of all.
use ftpn.Packet.{IpPacket}
use ftpn.Prelude.{
  ◌≡◌, refl, inl, inr, ◌⊎◌, ◌↔◌, Option, none, some, Option-cases, List, [], ◌∷◌, ◌++◌, arith,
}

pub data Direction : Type 0 where
  to_client from_client : Direction

-- BaseFilter::Apply; `none` is the null pointer.
abbrev pub Filter {ℓ} : Type ℓ → Type ℓ
Filter S = IpPacket → Direction → S → Option IpPacket × S

module _ {ℓ} {S : Type ℓ} where
  unfoldable pub add : Filter S → List (Filter S) → List (Filter S)
  add filter filters = filters ++ filter ∷ []

  unfoldable pub apply : List (Filter S) → Filter S
  apply [] packet direction s = (some packet, s)
  apply (filter ∷ filters) packet direction s =
      let (passed, s') = filter packet direction s in
      elim passed [ none ↦ (none, s') | some p ↦ apply filters p direction s' ]

  -- A filter that hands on only the packet that it was given.
  abbrev pub PassesUnchanged : Filter S → Type ℓ
  PassesUnchanged filter =
      (p : IpPacket) (d : Direction) (s : S)
      → ((filter p d s).0 ≡ none) ⊎ ((filter p d s).0 ≡ some p)

  abbrev pub AllPassUnchanged : List (Filter S) → Type ℓ
  AllPassUnchanged [] = Unit {ℓ}
  AllPassUnchanged (f ∷ fs) = PassesUnchanged f × AllPassUnchanged fs

  -- A chain of two parts is the second part behind the first: a packet that the first part drops does
  -- not reach the second.
  pub apply-append :
      (front back : List (Filter S)) (p : IpPacket) (d : Direction) (s : S)
      → apply (front ++ back) p d s ≡ elim (apply front p d s).0 [
        | none ↦ (none, (apply front p d s).1)
        | some q ↦ apply back q d (apply front p d s).1
      ]
  unfolding apply
  apply-append [] back p d s = refl
  apply-append (f ∷ fs) back p d s = elim (Option-cases (f p d s).0) [
    | inl e ↦ ground arith
    | inr (q, e) ↦ ground (arith, apply-append fs back q d (f p d s).1)
  ]

  -- A chain of filters that do not alter packets does not alter them either.
  pub apply-PassesUnchanged :
      (filters : List (Filter S)) → AllPassUnchanged filters → PassesUnchanged (apply filters)
  unfolding apply
  apply-PassesUnchanged [] h p d s = inr refl
  apply-PassesUnchanged (f ∷ fs) h p d s = elim (h.0 p d s) [
    | inl e ↦ inl (ground arith)
    | inr e ↦ rw (e, apply) (apply-PassesUnchanged fs h.1 p d (f p d s).1)
  ]

  -- A packet passes a chain exactly if it passes the first filter and then the others.
  pub apply-passes :
      (f : Filter S) (fs : List (Filter S)) (p : IpPacket) (d : Direction) (s : S)
      → PassesUnchanged f
      → ((apply (f ∷ fs) p d s).0 ≡ some p)
        ↔ (((f p d s).0 ≡ some p) × ((apply fs p d (f p d s).1).0 ≡ some p))
  unfolding apply
  apply-passes f fs p d s h = elim (h p d s) [
    | inl e ↦ ground (arith, e)
    | inr e ↦ rw (e, apply) (ground (arith, e))
  ]
