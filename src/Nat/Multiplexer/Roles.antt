-- ===== src/Nat/Multiplexer/Roles.antt =====
-- The periodic pass over a session's connections moves connections between the role buckets, and
-- reports those whose time is up.
use ftpn.Nat.Connection.{ClientConnection, Clock, IsSteady, is_expired, is_receiving_later}
use ftpn.Nat.Multiplexer.{
  Multiplexer, Buckets, is_client, contains, place_by_role, has_client_id, merge, resort,
  update_connections_status,
}
use ftpn.Prelude.{
  ℕ, ◌+◌, ◌≡◌, refl, sym, ap, ◌∙◌, inl, inr, Bool-cases, Bool, true, false, ◌||◌, List, [], ◌∷◌,
  ◌++◌, arith, any, ◌==◌, ==_iff,
}

any-append {ℓ} :
    {A : Type ℓ} (p : A → Bool) (xs ys : List A) → any p (xs ++ ys) ≡ any p xs || any p ys
any-append p [] ys = refl
any-append p (x ∷ xs) ys = ground (arith, any-append p xs ys)

module _ (id : ℕ) where
  -- A connection of this client is among the connections.
  abbrev among : List ClientConnection → Bool
  among cs = any (is_client id) cs

  known_client :
      (cs : List ClientConnection) (r : ClientConnection)
      → contains cs r.params.client_id ≡ true
      → is_client id r ≡ true
      → among cs ≡ true
  unfolding contains
  known_client cs r known same =
      ap (λ i. any (is_client i) cs) (sym ((==_iff r.params.client_id id).0 same)) ∙ known

  contains-merge : (cs rs : List ClientConnection) → among (merge cs rs) ≡ among cs || among rs
  unfolding merge contains
  contains-merge cs [] = ground arith
  contains-merge cs (r ∷ rs) = elim (Bool-cases (contains cs r.params.client_id)) [
    | inl known ↦ rw known (contains-merge cs rs ∙ ground (arith, known_client cs r known))
    | inr new ↦
        rw new
          (contains-merge (cs ++ r ∷ []) rs ∙ ground (arith, any-append (is_client id) cs (r ∷ [])))
  ]

  abbrev in_buckets : Buckets → Bool
  in_buckets b = among b.0 || among b.1

  -- A connection is in a bucket after it was placed: the reading for the receivers is not before the
  -- one for the senders.
  in_buckets-place_by_role :
      (now : Clock) (k : ℕ) (b : Buckets) (c : ClientConnection)
      → IsSteady now
      → in_buckets (place_by_role now k b c) ≡ in_buckets b || is_client id c
  unfolding place_by_role
  in_buckets-place_by_role now k b c steady = ground (
    arith,
    any-append (is_client id) b.0 (c ∷ []),
    any-append (is_client id) b.1 (c ∷ []),
    is_receiving_later c (now k) (now (k + 1)) (steady k (k + 1) (omega arith)),
  )

  resort_expired :
      (now : Clock) (k : ℕ) (b : Buckets) (expired : List ℕ) (c : ClientConnection)
      (cs : List ClientConnection)
      → is_expired c (now k) ≡ true
      → resort now k b expired (c ∷ cs)
        ≡ resort now (k + 3) b (expired ++ c.params.client_id ∷ []) cs
  unfolding resort
  resort_expired now k b expired c cs h = rw h

  resort_placed :
      (now : Clock) (k : ℕ) (b : Buckets) (expired : List ℕ) (c : ClientConnection)
      (cs : List ClientConnection)
      → is_expired c (now k) ≡ false
      → resort now k b expired (c ∷ cs)
        ≡ resort now (k + 3) (place_by_role now (k + 1) b c) expired cs
  unfolding resort
  resort_placed now k b expired c cs h = rw h

  -- In a bucket or reported as expired.
  abbrev accounted : Buckets × List ℕ → Bool
  accounted r = in_buckets r.0 || any (λ e. e == id) r.1

  -- Connections in the buckets, reported as expired, or still to be sorted: none gets lost, none
  -- comes in.
  accounted-resort :
      (now : Clock) (k : ℕ) (b : Buckets) (expired : List ℕ) (cs : List ClientConnection)
      → IsSteady now
      → accounted (resort now k b expired cs)
        ≡ (in_buckets b || any (λ e. e == id) expired || among cs)
  accounted-resort now k b expired [] steady = unfold resort in ground arith
  accounted-resort now k b expired (c ∷ cs) steady = elim (Bool-cases (is_expired c (now k))) [
    | inl dead ↦
        ap accounted (resort_expired now k b expired c cs dead)
        ∙ accounted-resort now (k + 3) b (expired ++ c.params.client_id ∷ []) cs steady
        ∙ ground (arith, any-append (λ e. e == id) expired (c.params.client_id ∷ []))
    | inr alive ↦
        ap accounted (resort_placed now k b expired c cs alive)
        ∙ accounted-resort now (k + 3) (place_by_role now (k + 1) b c) expired cs steady
        ∙ ground (arith, in_buckets-place_by_role now (k + 1) b c steady)
  ]

  -- With a clock that does not go back, the pass over the connections keeps each of them in a bucket
  -- or reports its client id as expired, and neither a bucket nor the report gets a client id that was
  -- not there before.
  pub has_client_id-update_connections_status :
      (now : Clock) (k : ℕ) (m : Multiplexer)
      → IsSteady now
      → let r = update_connections_status now k m in
        (has_client_id r.0 id || any (λ e. e == id) r.1) ≡ has_client_id m id
  unfolding update_connections_status has_client_id contains
  has_client_id-update_connections_status now k m steady =
      accounted-resort now k ([], []) [] (merge m.sending m.receiving) steady
      ∙ contains-merge m.sending m.receiving
