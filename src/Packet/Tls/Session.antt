-- ===== src/Packet/Tls/Session.antt =====
-- A ServerHello stamped with a session id carries that session id and is otherwise unchanged.
use mathlib.Core.List.{append_assoc}
use ftpn.Packet.Access.{ok, read, read_bytes, read-Returns, read-append_front, read_bytes-append}
use ftpn.Packet.Tls.{get_tls_session_id, set_tls_session_id}
use ftpn.Packet.Tls.Safety.{stamped_length}
use ftpn.Prelude.{
  ℕ, ◌+◌, ◌≤◌, ◌<◌, ◌≡◌, refl, sym, ap, ◌∙◌, true, List, ◌++◌, arith, length, take, drop,
  length-take, length-append, take-append, drop-append, take-append-drop,
}

module _ (p session : List ℕ) where
  abbrev stamped : List ℕ
  stamped = take 44 p ++ session ++ drop (44 + length session) p

  read-length : 43 < length p → read stamped 43 ≡ read p 43
  read-length lt =
      ap (λ q. read q 43) (append_assoc (take 44 p) session (drop (44 + length session) p))
      ∙ read-append_front (take 44 p) (session ++ drop (44 + length session) p) 43
          (omega (arith, length-take 44 p))
      ∙ sym (read-append_front (take 44 p) (drop 44 p) 43 (omega (arith, length-take 44 p)))
      ∙ ap (λ q. read q 43) (take-append-drop 44 p)

  read_session : 44 ≤ length p → read_bytes stamped 44 (length session) ≡ ok session
  read_session le =
      ap (λ q. read_bytes q 44 (length session))
        (append_assoc (take 44 p) session (drop (44 + length session) p))
      ∙ ap
          (λ i.
            read_bytes (take 44 p ++ (session ++ drop (44 + length session) p)) i (length session))
          (omega (arith, length-take 44 p))
      ∙ read_bytes-append (take 44 p) session (drop (44 + length session) p)

  -- The cases in which a session id is stamped.
  record Stamped (q : List ℕ) : Type 0 where
    pub long : 43 < length p
    pub announced : read p 43 ≡ ok (length session)
    pub room : 44 + length session ≤ length p
    pub result : q ≡ stamped

  set_tls_session_id-Stamped :
      (q : List ℕ) → set_tls_session_id p session ≡ ok (true, q) → Stamped q
  unfolding set_tls_session_id
  set_tls_session_id-Stamped q h = ground (arith, read-Returns p 43)

  get_tls_session_id-Stamped : (q : List ℕ) → Stamped q → get_tls_session_id q ≡ ok session
  unfolding get_tls_session_id
  get_tls_session_id-Stamped q h = rw h.result (
      ground (
        arith,
        read-length h.long,
        h.announced,
        read_session (omega (arith, h.room)),
        stamped_length p (length session) session refl h.room,
        h.room,
        h.long,
      ))

  front : 43 < length p → take 44 stamped ≡ take 44 p
  front lt =
      ap (take 44) (append_assoc (take 44 p) session (drop (44 + length session) p))
      ∙ ap (λ n. take n (take 44 p ++ (session ++ drop (44 + length session) p))) {x = 44}
          (omega (arith, length-take 44 p))
      ∙ take-append (take 44 p) (session ++ drop (44 + length session) p)

  back : 43 < length p → drop (44 + length session) stamped ≡ drop (44 + length session) p
  back lt =
      ap (λ n. drop n stamped) (omega (arith, length-take 44 p, length-append (take 44 p) session))
      ∙ drop-append (take 44 p ++ session) (drop (44 + length session) p)

  -- When SetTlsSessionId returns true, GetTlsSessionId finds the session id in the record, which has
  -- its old length and bytes before and behind the session id.
  pub get_tls_session_id-set_tls_session_id :
      (q : List ℕ)
      → set_tls_session_id p session ≡ ok (true, q)
      → (get_tls_session_id q ≡ ok session)
        × (length q ≡ length p)
        × (take 44 q ≡ take 44 p)
        × (drop (44 + length session) q ≡ drop (44 + length session) p)
  get_tls_session_id-set_tls_session_id q h =
      let s = set_tls_session_id-Stamped q h in
      (
        get_tls_session_id-Stamped q s,
        ap length s.result ∙ stamped_length p (length session) session refl s.room,
        ap (take 44) s.result ∙ front s.long,
        ap (drop (44 + length session)) s.result ∙ back s.long,
      )
