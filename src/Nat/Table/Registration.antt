-- ===== src/Nat/Table/Registration.antt =====
-- What AddConnection leaves behind, on each of its branches.
use ftpn.Nat.Connection.{ConnectParams, Clock}
use ftpn.Nat.Multiplexer.{Multiplexer, add_client_connection, construct}
use ftpn.Nat.Table.{
  Table, write, join_session, open_session, add_connection, multiplexer_by_client_id,
}
use ftpn.Prelude.{
  ℕ, ◌≡◌, refl, ap, ◌∙◌, inl, inr, Option, none, some, List, [], ◌∷◌, str_eq, str_eq_iff,
  Bool-cases, Option-cases, ==_iff, find_key, emplace, find_key-emplace, number_key, string_key,
  arith,
}

write_here : (r : ℕ) (m : Multiplexer) (cell : ℕ → Multiplexer) → write r m cell r ≡ m
write_here r m cell = rw ((==_iff r r).1 refl) refl

module _ (now : Clock) (k : ℕ) (params : ConnectParams) where
  -- The connection was refused and the table is as before, or it is registered: its client id and its
  -- session id lead to one multiplexer, which is of its user.
  abbrev pub Registered : Table → Table × Option ℕ → Type 0
  Registered t (t', none) = t' ≡ t
  Registered t (t', some r) =
      (multiplexer_by_client_id params.client_id t' ≡ some r)
      × (find_key params.request.session_id t'.session_to_mplx ≡ some r)
      × ((t'.cell r).username ≡ params.user.username)

  found_new :
      (r : ℕ) (m : List (ℕ × ℕ))
      → find_key params.client_id m ≡ none
      → find_key params.client_id (emplace params.client_id r m) ≡ some r
  found_new r m h =
      find_key-emplace params.client_id params.client_id r m h
      ∙ rw ((==_iff params.client_id params.client_id).1 refl) refl

  username-add_client_connection :
      (m : Multiplexer) → (add_client_connection now k params m).0.username ≡ m.username
  unfolding add_client_connection
  username-add_client_connection m = ground arith

  join_session-Registered :
      (r : ℕ) (t : Table)
      → find_key params.client_id t.client_to_mplx ≡ none
      → find_key params.request.session_id t.session_to_mplx ≡ some r
      → Registered t (join_session now k params r t)
  unfolding join_session
  join_session-Registered r t new known =
      elim (Bool-cases (str_eq (t.cell r).username params.user.username)) [
        | inr other ↦ rw other refl
        | inl same ↦ elim (Bool-cases (add_client_connection now k params (t.cell r)).1) [
          | inr twice ↦ rw (same, twice) refl
          | inl added ↦
              rw (same, added)
                (
                  found_new r t.client_to_mplx new,
                  known,
                  ap (λ c. c.username)
                        (write_here r (add_client_connection now k params (t.cell r)).0 t.cell)
                      ∙ username-add_client_connection (t.cell r)
                      ∙ (str_eq_iff (t.cell r).username params.user.username).0 same,
                )
        ]
      ]

  module _ (to_client from_client : ℕ) where
    open_session-Registered :
        (free4 free6 : List ℕ) (t : Table)
        → find_key params.client_id t.client_to_mplx ≡ none
        → find_key params.request.session_id t.session_to_mplx ≡ none
        → Registered t (open_session now k params to_client from_client free4 free6 t)
    unfolding open_session
    open_session-Registered [] free6 t new fresh = refl
    open_session-Registered (ipv4 ∷ rest4) [] t new fresh = refl
    open_session-Registered (ipv4 ∷ rest4) (ipv6 ∷ rest6) t new fresh = (
      found_new t.next_cell t.client_to_mplx new,
      find_key-emplace params.request.session_id params.request.session_id t.next_cell
            t.session_to_mplx fresh
          ∙ rw ((string_key.same_iff params.request.session_id params.request.session_id).1 refl)
              refl,
      ap (λ c. c.username)
            (write_here t.next_cell (construct now k params ipv4 ipv6 to_client from_client) t.cell)
          ∙ unfold construct in refl,
    )

    opens :
        (t : Table)
        → find_key params.request.session_id t.session_to_mplx ≡ none
        → add_connection now k params to_client from_client t
          ≡ open_session now k params to_client from_client t.free_ipv4 t.free_ipv6 t
    unfolding add_connection
    opens t h = rw (h, add_connection) refl

    joins :
        (t : Table) (r : ℕ)
        → find_key params.request.session_id t.session_to_mplx ≡ some r
        → add_connection now k params to_client from_client t ≡ join_session now k params r t
    unfolding add_connection
    joins t r h = rw (h, add_connection) refl

    -- AddConnection with a client id that the table does not know: it refuses and changes nothing, or the
    -- client id and the session id both lead to the multiplexer that it returns, and the multiplexer is
    -- of the connection's user. In particular no connection joins the session of another user.
    pub add_connection-Registered :
        (t : Table)
        → find_key params.client_id t.client_to_mplx ≡ none
        → Registered t (add_connection now k params to_client from_client t)
    add_connection-Registered t new =
        elim (Option-cases (find_key params.request.session_id t.session_to_mplx)) [
          | inl fresh ↦
              rw (opens t fresh) (open_session-Registered t.free_ipv4 t.free_ipv6 t new fresh)
          | inr (r, known) ↦ rw (joins t r known) (join_session-Registered r t new known)
        ]
