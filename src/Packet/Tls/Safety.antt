-- ===== src/Packet/Tls/Safety.antt =====
-- The TLS parsers read inside the record only and their loop ends, whatever the bytes are.
use ftpn.Packet.Access.{
  Access, ok, ◌>>=◌, read, read_u16, Returns, Returns-ok, Returns-bind, Returns-turn, PassHolds,
  Any, read-Returns, read_u16-Returns, read_bytes-Returns,
}
use ftpn.Packet.Tls.{
  is_tls_client_hello, extension_pass, extension_loop, get_tls_sni, get_tls_session_id,
  set_tls_session_id,
}
use ftpn.Prelude.{
  ℕ, zero, suc, ◌+◌, ◌≤◌, ◌<◌, ◌≡◌, refl, not, ◌&&◌, ◌||◌, Option, none, List, ◌++◌, arith, inl,
  inr, Bool-cases, length, ltb, leb, ◌==◌, if◌then◌else◌, take, drop, length-append, length-take,
  length-drop,
}

module _ (p : List ℕ) where
  is_tls_client_hello-Returns : Returns (is_tls_client_hello p) Any
  unfolding is_tls_client_hello
  is_tls_client_hello-Returns = elim (Bool-cases (ltb (length p) 6)) [
    | inl e ↦ rw e (Returns-ok _ tt)
    | inr fits ↦ rw fits (
        Returns-bind _ _ (read-Returns p 0 (ground arith)) λ kind _.
          elim (Bool-cases (not (kind == 0x16))) [
            | inl e ↦ rw e (Returns-ok _ tt)
            | inr e ↦ rw e (
                Returns-bind _ _ (read_u16-Returns p 1 (ground arith)) λ ver _.
                  elim (Bool-cases (ltb ver 0x0301 || ltb 0x0304 ver)) [
                    | inl e ↦ rw e (Returns-ok _ tt)
                    | inr e ↦ rw e (
                        Returns-bind _ _ (read-Returns p 5 (ground arith))
                          λ hello _. Returns-ok _ tt)
                  ])
          ])
  ]

  -- The next extension starts at least four bytes on, inside the extensions.
  extension_pass-Returns :
      (ext_end i : ℕ)
      → ext_end ≤ length p
      → i + 4 ≤ ext_end
      → Returns
          (extension_pass p ext_end i)
          (PassHolds Any (λ next. (i + 4 ≤ next) × (next ≤ ext_end)))
  unfolding extension_pass
  extension_pass-Returns ext_end i le lt =
      Returns-bind _ _ (read_u16-Returns p i (omega arith)) λ kind _.
        Returns-bind _ _ (read_u16-Returns p (i + 2) (omega arith)) λ elen _.
          elim (Bool-cases (ltb ext_end (i + 4 + elen))) [
            | inl e ↦ rw e (Returns-ok _ tt)
            | inr fits ↦ elim (Bool-cases (kind == 0 && leb 5 elen)) [
              | inl sni ↦
                  rw (fits, sni)
                    (Returns-bind _ _ (read_u16-Returns p (i + 4 + 3) (ground arith)) λ name_len _.
                      elim (Bool-cases (ltb ext_end (i + 4 + 5 + name_len))) [
                        | inl e ↦ rw e (Returns-ok _ tt)
                        | inr named ↦ rw named (
                            Returns-bind _ _
                              (read_bytes-Returns p (i + 4 + 5) name_len (ground arith))
                              λ name _. Returns-ok _ tt)
                      ])
              | inr other ↦ rw (fits, other) (Returns-ok _ (ground arith))
            ]
          ]

  -- Fuel of one more than the bytes that are left is enough.
  extension_loop-Returns :
      (fuel ext_end i : ℕ)
      → ext_end ≤ length p
      → i ≤ ext_end
      → ext_end < i + fuel
      → Returns (extension_loop p fuel ext_end i) Any
  unfolding extension_loop
  extension_loop-Returns zero ext_end i le inside enough = absurd (omega arith)
  extension_loop-Returns (suc fuel) ext_end i le reached enough =
      elim (Bool-cases (ltb ext_end (i + 4))) [
        | inl e ↦ rw e (Returns-ok _ tt)
        | inr inside ↦ rw inside (
            Returns-bind _ _ (extension_pass-Returns ext_end i le (ground arith)) λ pass h.
              Returns-turn pass _ h
                λ next h'. extension_loop-Returns fuel ext_end next le h'.1 (omega (arith, h')))
      ]

  -- From the compression methods on.
  abbrev methods_on : ℕ → Access (Option (List ℕ))
  methods_on j = if ltb (length p) (j + 1) then ok none else do
    methods ← read p j
    let k = j + (1 + methods)
    if ltb (length p) (k + 2) then ok none else do
      extensions ← read_u16 p k
      if ltb (length p) (k + 2 + extensions)
          then ok none
          else extension_loop p (suc (length p)) (k + 2 + extensions) (k + 2)

  from_methods : (j : ℕ) → Returns (methods_on j) Any
  from_methods j = elim (Bool-cases (ltb (length p) (j + 1))) [
    | inl e ↦ rw e (Returns-ok _ tt)
    | inr a ↦ rw a (
        Returns-bind _ _ (read-Returns p j (ground arith)) λ methods _.
          elim (Bool-cases (ltb (length p) (j + (1 + methods) + 2))) [
            | inl e ↦ rw e (Returns-ok _ tt)
            | inr b ↦ rw b (
                Returns-bind _ _ (read_u16-Returns p (j + (1 + methods)) (ground arith))
                  λ extensions _.
                    elim (Bool-cases (ltb (length p) (j + (1 + methods) + 2 + extensions))) [
                      | inl e ↦ rw e (Returns-ok _ tt)
                      | inr c ↦ rw c (
                          extension_loop-Returns (suc (length p)) _ _ (ground arith) (omega arith)
                            (ground arith))
                    ])
          ])
  ]

  pub stamped_length :
      (k : ℕ) (session : List ℕ)
      → k ≡ length session
      → 44 + k ≤ length p
      → length (take 44 p ++ session ++ drop (44 + k) p) ≡ length p
  stamped_length k session e le = omega (
    arith,
    length-append (take 44 p ++ session) (drop (44 + k) p),
    length-append (take 44 p) session,
    length-take 44 p,
    length-drop (44 + k) p,
  )

  get_tls_sni-Returns : Returns (get_tls_sni p) Any
  unfolding get_tls_sni
  get_tls_sni-Returns = elim (Bool-cases (ltb (length p) (43 + 1))) [
    | inl e ↦ rw e (Returns-ok _ tt)
    | inr a ↦ rw a (
        Returns-bind _ _ (read-Returns p 43 (ground arith)) λ session _.
          elim (Bool-cases (ltb (length p) (43 + (1 + session) + 2))) [
            | inl e ↦ rw e (Returns-ok _ tt)
            | inr b ↦ rw b (
                Returns-bind _ _ (read_u16-Returns p (43 + (1 + session)) (ground arith))
                  λ suites _. from_methods (43 + (1 + session) + (2 + suites)))
          ])
  ]

  get_tls_session_id-Returns : Returns (get_tls_session_id p) Any
  unfolding get_tls_session_id
  get_tls_session_id-Returns = elim (Bool-cases (ltb (length p) (43 + 1))) [
    | inl e ↦ rw e (Returns-ok _ tt)
    | inr a ↦ rw a (
        Returns-bind _ _ (read-Returns p 43 (ground arith)) λ sid_len _.
          elim (Bool-cases (ltb (length p) (44 + sid_len))) [
            | inl e ↦ rw e (Returns-ok _ tt)
            | inr b ↦ rw b (
                let r = read_bytes-Returns p 44 sid_len (ground arith) in
                record { value = r.value; returns = r.returns; holds = tt })
          ])
  ]

  set_tls_session_id-Returns :
      (session : List ℕ) → Returns (set_tls_session_id p session) (λ r. length r.1 ≡ length p)
  unfolding set_tls_session_id
  set_tls_session_id-Returns session =
      elim (Bool-cases (leb (length p) 43 || length session == 0)) [
        | inl e ↦ rw e (Returns-ok _ refl)
        | inr a ↦ rw a (
            Returns-bind _ _ (read-Returns p 43 (ground arith)) λ sid_len _.
              elim (Bool-cases
                (not (sid_len == length session) || ltb (length p) (43 + 1 + sid_len))) [
                  | inl e ↦ rw e (Returns-ok _ refl)
                  | inr b ↦
                      rw b (
                        Returns-ok _ (stamped_length sid_len session (ground arith) (ground arith)))
                ])
      ]

  -- Whatever the bytes of a record are, the four TLS parsers read bytes of the record only and end,
  -- and stamping a session id keeps the record's length.
  pub tls_parsers_safe :
      Returns (is_tls_client_hello p) Any
      × Returns (get_tls_sni p) Any
      × Returns (get_tls_session_id p) Any
      × ((session : List ℕ) → Returns (set_tls_session_id p session) (λ r. length r.1 ≡ length p))
  tls_parsers_safe = (
    is_tls_client_hello-Returns, get_tls_sni-Returns, get_tls_session_id-Returns,
    set_tls_session_id-Returns,
  )
