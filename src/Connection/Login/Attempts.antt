-- ===== src/Connection/Login/Attempts.antt =====
-- What the retry loops of Login and GetDns return, over any answers of the server.
use ftpn.Connection.Login.{
  Response, Field, failed, absent, present, KeyName, Manager, is_nonempty, is_set, Ended, attempts,
  extract_error_message, accept, login_pass, returned, login, take_ipv6, take_dns, dns_pass,
  get_dns,
}
use ftpn.Prelude.{
  ℕ, zero, suc, ◌+◌, ◌<◌, ◌≡◌, ◌≢◌, ◌⊎◌, refl, ap, sym, ◌∙◌, inl, inr, Bool, true, false, ◌&&◌,
  Option, none, some, List, [], ◌∷◌, arith, ◌==◌, Bool-cases, Option-cases,
}

module _ (pass : Response → Manager → Manager × Option Bool) (I : Manager → Type 0)
    (Transient : Response → Type 0) (responses : ℕ → Response) where
  abbrev Retried : ℕ → Type 0
  Retried n = (j : ℕ) → j < n → Transient (responses j)

  -- The loop ended at the first answer that it returned on, or made all its requests.
  abbrev Ends : ℕ → Ended → Type 0
  Ends last (m', out, n) =
      ((out ≡ none) × (n ≡ last) × I m' × Retried last)
      ⊎ ((b : Bool) × (k : ℕ) × (m : Manager) × (out ≡ some b)
          × (n ≡ suc k)
          × (k < last)
          × Retried k
          × I m
          × (pass (responses k) m ≡ (m', some b)))

  module _
      (keeps : (r : Response) (m : Manager)
        → I m
        → (pass r m).1 ≡ none
        → I (pass r m).0 × Transient r) where
    Retried-suc : (n : ℕ) → Retried n → Transient (responses n) → Retried (suc n)
    Retried-suc n h t j lt = elim (Bool-cases (j == n)) [
      | inl e ↦ let same : n ≡ j = ground (arith, e) in rw same at t
      | inr e ↦ h j (ground (arith, e))
    ]

    attempts-Ends :
        (left i : ℕ) (m : Manager)
        → I m
        → Retried i
        → Ends (i + left) (attempts pass responses left i m)
    unfolding attempts
    attempts-Ends zero i m h r =
        let same : i ≡ i + 0 = omega arith in inl (refl, same, h, rw (sym same) r)
    attempts-Ends (suc left) i m h r = elim (Option-cases (pass (responses i) m).1) [
      | inl n ↦
          let (kept, transient) = keeps (responses i) m h n in
          let same : suc i + left ≡ i + suc left = omega arith in
          rw (n, attempts)
            (rw same at (
              attempts-Ends left (suc i) (pass (responses i) m).0 kept (Retried-suc i r transient)))
      | inr (b, e) ↦
          rw (e, attempts) (inr (b, i, m, refl, refl, omega arith, r, h, ground (arith, e)))
    ]

module _ (field : List ℕ → KeyName → Field) where
  abbrev pub Grants : Response → List ℕ → Type 0
  Grants r token = (r.code ≡ 200) × (field r.body KeyName.access_token ≡ present token)

  abbrev pub Refuses : Response → Type 0
  Refuses r = (r.code ≡ 401) ⊎ (r.code ≡ 403)

  abbrev pub GrantsOrRefuses : Response → Type 0
  GrantsOrRefuses r = ((token : List ℕ) × Grants r token) ⊎ Refuses r

  abbrev pub NoToken : Manager → Type 0
  NoToken m = m.jwt_access_token ≡ []

  accept-none :
      (r : Response) (f : Field) (m : Manager)
      → NoToken m
      → (accept field r f m).1 ≡ none
      → NoToken (accept field r f m).0 × ((token : List ℕ) → f ≢ present token)
  accept-none r (failed what) m h n = (refl, λ token e. cc)
  accept-none r absent m h n = (h, λ token e. cc)
  accept-none r (present t) m h n = absurd (cc)

  accept-some :
      (r : Response) (f : Field) (m m' : Manager) (b : Bool)
      → accept field r f m ≡ (m', some b)
      → (b ≡ true) × (f ≡ present m'.jwt_access_token)
  accept-some r (failed what) m m' b e = absurd (ground (arith, e))
  accept-some r absent m m' b e = absurd (ground (arith, e))
  accept-some r (present t) m m' b e = ground (arith, e)

  login_pass-none :
      (r : Response) (m : Manager)
      → NoToken m
      → (login_pass field r m).1 ≡ none
      → NoToken (login_pass field r m).0 × ¬ GrantsOrRefuses r
  unfolding login_pass
  login_pass-none r m h n = elim (Bool-cases (r.code == 200)) [
    | inl e ↦
        let (kept, other) = accept-none r (field r.body KeyName.access_token) m h (rw e at n) in
        (
          rw e kept,
          λ (g : GrantsOrRefuses r). elim g [
            | inl (t, (c, f)) ↦ other t f
            | inr (inl c) ↦ ground (arith, e)
            | inr (inr c) ↦ ground (arith, e)
          ],
        )
    | inr e ↦ (
      ground arith,
      λ (g : GrantsOrRefuses r). elim g [
        | inl (t, (c, f)) ↦ ground (arith, e)
        | inr (inl c) ↦ ground (arith, e)
        | inr (inr c) ↦ ground (arith, e)
      ],
    )
  ]

  abbrev pub Verdict : Response → Manager → Bool → Type 0
  Verdict r m' b =
      ((b ≡ true) × Grants r m'.jwt_access_token)
      ⊎ ((b ≡ false)
          × Refuses r
          × NoToken m'
          × (m'.latest_error_code ≡ r.code)
          × (m'.latest_error ≡ extract_error_message field r))

  login_pass-some :
      (r : Response) (m m' : Manager) (b : Bool)
      → login_pass field r m ≡ (m', some b)
      → Verdict r m' b
  unfolding login_pass
  login_pass-some r m m' b e = elim (Bool-cases (r.code == 200)) [
    | inl c ↦
        let (yes', f) = accept-some r (field r.body KeyName.access_token) m m' b (rw c at e) in
        inl (yes', (ground (arith, c), f))
    | inr c ↦ elim (Bool-cases (r.code == 401)) [
      | inl d ↦ inr (ground arith, inl (ground arith), ground arith, ground arith, ground arith)
      | inr d ↦ elim (Bool-cases (r.code == 403)) [
        | inl f ↦ inr (ground arith, inr (ground arith), ground arith, ground arith, ground arith)
        | inr f ↦ absurd (ground arith)
      ]
    ]
  ]

  -- No answer before the k-th one granted or refused a token.
  abbrev pub Undecided : (ℕ → Response) → ℕ → Type 0
  Undecided responses k = (j : ℕ) → j < k → ¬ GrantsOrRefuses (responses j)

  abbrev pub Decided : (ℕ → Response) → Manager × Bool × ℕ → Type 0
  Decided responses (m', b, n) =
      ((k : ℕ) × (n ≡ suc k) × (k < 5) × Undecided responses k × Verdict (responses k) m' b)
      ⊎ ((b ≡ false) × (n ≡ 5) × NoToken m' × Undecided responses 5)

  abbrev pub LoginEnds : (ℕ → Response) → Manager → Manager × Bool × ℕ → Type 0
  LoginEnds responses m r =
      ((is_nonempty m.jwt_access_token ≡ true) × (r ≡ (m, true, 0)))
      ⊎ (NoToken m × Decided responses r)

  -- Login asks at most five times, and not at all if there is a token. Otherwise it returns at the first
  -- answer that grants a token (code 200) or refuses one (401 or 403), in the first case true with
  -- that token, in the second false with no token and the answer's code and message as the latest error;
  -- if none of five answers does either it returns false with no token.
  pub login-LoginEnds :
      (responses : ℕ → Response) (m : Manager) → LoginEnds responses m (login field responses m)
  unfolding login
  login-LoginEnds responses m = by_token m.jwt_access_token refl
    where
      asked :
          NoToken m
          → let r = attempts (login_pass field) responses 5 0 m in
            Decided responses (r.0, returned r.1, r.2)
      asked e =
          elim (attempts-Ends (login_pass field) NoToken (λ r. ¬ GrantsOrRefuses r) responses
            login_pass-none 5 0 m e (λ j lt. absurd (omega arith))) [
              | inl (out, n, no_token, tried) ↦ inr (rw out refl, n, no_token, tried)
              | inr (b, k, before, out, n, lt, tried, no_token, pass) ↦
                  inl (k, n, lt, tried, rw out (login_pass-some (responses k) before _ b pass))
            ]

      by_token :
          (token : List ℕ)
          → m.jwt_access_token ≡ token
          → LoginEnds responses m (login field responses m)
      by_token [] e = inr (e, rw (ap is_nonempty e) (asked e))
      by_token (c ∷ s) e = inl (ap is_nonempty e, rw (ap is_nonempty e) refl)

  module _ (read_ipv4 read_ipv6 : List ℕ → Option (List ℕ)) (default_ipv6 : List ℕ) where
    -- The answer names an IPv4 address, and an IPv6 address or none.
    abbrev pub Names : Response → List ℕ → List ℕ → Type 0
    Names r four six =
        (r.code ≡ 200)
        × (field r.body KeyName.dns ≡ present four)
        × ((field r.body KeyName.dns_ipv6_key ≡ present six)
            ⊎ ((field r.body KeyName.dns_ipv6_key ≡ absent) × (six ≡ default_ipv6)))

    abbrev pub NamesNone : Response → Type 0
    NamesNone r = (four six : List ℕ) → ¬ Names r four six

    abbrev pub Addresses : Manager → Option (List ℕ) → Option (List ℕ) → Type 0
    Addresses m four six = (m.dns_ipv4 ≡ four) × (m.dns_ipv6 ≡ six)

    take_ipv6-Addresses :
        (four : List ℕ) (f : Field) (m m' : Manager) (b : Bool)
        → take_ipv6 field read_ipv4 read_ipv6 default_ipv6 four f m ≡ (m', some b)
        → (six : List ℕ) × ((f ≡ present six) ⊎ ((f ≡ absent) × (six ≡ default_ipv6)))
          × Addresses m' (read_ipv4 four) (read_ipv6 six)
    take_ipv6-Addresses four (failed what) m m' b e = absurd (ground (arith, e))
    take_ipv6-Addresses four absent m m' b e =
        (default_ipv6, inr (refl, refl), (ground (arith, e), ground (arith, e)))
    take_ipv6-Addresses four (present six) m m' b e =
        (six, inl refl, (ground (arith, e), ground (arith, e)))

    take_ipv6-none :
        (four : List ℕ) (f : Field) (m : Manager)
        → (take_ipv6 field read_ipv4 read_ipv6 default_ipv6 four f m).1 ≡ none
        → Addresses
            (take_ipv6 field read_ipv4 read_ipv6 default_ipv6 four f m).0
            m.dns_ipv4
            m.dns_ipv6
          × ((six : List ℕ) → ¬ ((f ≡ present six) ⊎ ((f ≡ absent) × (six ≡ default_ipv6))))
    take_ipv6-none four (failed what) m n = ((refl, refl), λ six h. ground (arith, h))
    take_ipv6-none four absent m n = absurd (ground (arith, n))
    take_ipv6-none four (present six) m n = absurd (ground (arith, n))

    take_dns-none :
        (r : Response) (f : Field) (m : Manager)
        → r.code ≡ 200
        → field r.body KeyName.dns ≡ f
        → (take_dns field read_ipv4 read_ipv6 default_ipv6 r f m).1 ≡ none
        → Addresses (take_dns field read_ipv4 read_ipv6 default_ipv6 r f m).0 m.dns_ipv4 m.dns_ipv6
          × NamesNone r
    take_dns-none r (failed what) m c e n = ((refl, refl), λ four six h. cc)
    take_dns-none r absent m c e n = ((refl, refl), λ four six h. cc)
    take_dns-none r (present four) m c e n =
        let (kept, other) = take_ipv6-none four (field r.body KeyName.dns_ipv6_key) m n in
        (kept, λ four' six h. other six h.2)

    dns_pass-none :
        (a4 a6 : Option (List ℕ)) (r : Response) (m : Manager)
        → Addresses m a4 a6
        → (dns_pass field read_ipv4 read_ipv6 default_ipv6 r m).1 ≡ none
        → Addresses (dns_pass field read_ipv4 read_ipv6 default_ipv6 r m).0 a4 a6 × NamesNone r
    unfolding dns_pass
    dns_pass-none a4 a6 r m h n = elim (Bool-cases (r.code == 200)) [
      | inl e ↦
          let (kept, other) =
            take_dns-none r (field r.body KeyName.dns) m (ground (arith, e)) refl (rw e at n) in
          rw e ((kept.0 ∙ h.0, kept.1 ∙ h.1), other)
      | inr e ↦ rw e (h, λ four six g. absurd (ground (arith, e)))
    ]

    -- The addresses are those that the answer names.
    abbrev pub Taken : Response → Manager → Type 0
    Taken r m =
        (four : List ℕ) × (six : List ℕ) × Names r four six
        × Addresses m (read_ipv4 four) (read_ipv6 six)

    take_dns-Taken :
        (r : Response) (f : Field) (m m' : Manager) (b : Bool)
        → r.code ≡ 200
        → field r.body KeyName.dns ≡ f
        → take_dns field read_ipv4 read_ipv6 default_ipv6 r f m ≡ (m', some b)
        → Taken r m'
    take_dns-Taken r (failed what) m m' b c e h = absurd (ground (arith, h))
    take_dns-Taken r absent m m' b c e h = absurd (ground (arith, h))
    take_dns-Taken r (present four) m m' b c e h =
        let (six, named, taken) =
          take_ipv6-Addresses four (field r.body KeyName.dns_ipv6_key) m m' b h in
        (four, six, (c, e, named), taken)

    dns_pass-Taken :
        (r : Response) (m m' : Manager) (b : Bool)
        → dns_pass field read_ipv4 read_ipv6 default_ipv6 r m ≡ (m', some b)
        → Taken r m'
    unfolding dns_pass
    dns_pass-Taken r m m' b h = elim (Bool-cases (r.code == 200)) [
      | inl e ↦
          take_dns-Taken r (field r.body KeyName.dns) m m' b (ground (arith, e)) refl (rw e at h)
      | inr e ↦ absurd (ground (arith, e, h))
    ]

    abbrev pub DnsEnds : (ℕ → Response) → Manager → Manager × ℕ → Type 0
    DnsEnds responses m r =
        ((is_set m.dns_ipv4 && is_set m.dns_ipv6 ≡ true) × (r ≡ (m, 0)))
        ⊎ (((k : ℕ) × (r.1 ≡ suc k)
              × (k < 5)
              × ((j : ℕ) → j < k → NamesNone (responses j))
              × Taken (responses k) r.0)
            ⊎ ((r.1 ≡ 5)
                × Addresses r.0 m.dns_ipv4 m.dns_ipv6
                × ((j : ℕ) → j < 5 → NamesNone (responses j))))

    -- GetDns asks at most five times, and not at all if both addresses are known. Otherwise it returns the
    -- addresses of the first answer that names some, the default IPv6 address where that names none, and
    -- after five answers without any the addresses as they were.
    pub get_dns-DnsEnds :
        (responses : ℕ → Response) (m : Manager)
        → DnsEnds responses m (get_dns field read_ipv4 read_ipv6 default_ipv6 responses m)
    unfolding get_dns
    get_dns-DnsEnds responses m = elim (Bool-cases (is_set m.dns_ipv4 && is_set m.dns_ipv6)) [
      | inl e ↦ rw e (inl (refl, refl))
      | inr e ↦
          elim (attempts-Ends (dns_pass field read_ipv4 read_ipv6 default_ipv6)
            (λ s. Addresses s m.dns_ipv4 m.dns_ipv6) NamesNone responses
            (dns_pass-none m.dns_ipv4 m.dns_ipv6) 5 0 m (refl, refl)
            (λ j lt. absurd (omega arith))) [
              | inl (out, n, same, tried) ↦ rw e (inr (inr (n, same, tried)))
              | inr (b, k, before, out, n, lt, tried, same, pass) ↦
                  rw e (inr (inl (k, n, lt, tried, dns_pass-Taken (responses k) before _ b pass)))
            ]
    ]
