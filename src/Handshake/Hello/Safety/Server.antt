-- ===== src/Handshake/Hello/Safety/Server.antt =====
-- The test for a complete ServerHello reads inside the buffer and ends, as that for a ClientHello does.
use ftpn.Packet.Access.{
  Pass, leave, again, Returns, Returns-ok, Returns-bind, Returns-if, PassHolds, Returns-turn, Any,
  read-Returns, read_u16-Returns,
}
use ftpn.Handshake.Hello.Safety.{
  read_u24-Returns, is_tls13_server_hello-Returns, is_client_hello_complete-Returns,
}
use ftpn.Handshake.Hello.{
  nothing_found, Scan, is_client_hello_complete, server_message, server_messages, server_record,
  server_records, is_server_hello_complete,
}
use ftpn.Prelude.{ℕ, zero, suc, ◌+◌, ◌≤◌, ◌<◌, Bool, false, List, arith, length, ltb, ◌==◌}

module _ (d : List ℕ) where
  -- A loop goes on between `low` and `high`.
  abbrev BetweenWith {ℓ} : {A : Type ℓ} → ℕ → ℕ → Pass A (ℕ × Scan) → Type 0
  BetweenWith low high pass = PassHolds (λ a. Unit) (λ next. (low ≤ next.0) × (next.0 ≤ high)) pass

  abbrev MessageWith : ℕ → ℕ → ℕ → ℕ → Pass (Pass Bool (ℕ × Scan)) (ℕ × Scan) → Type 0
  MessageWith low high hpos hend pass =
      PassHolds (BetweenWith low high) (λ next. (hpos + 4 ≤ next.0) × (next.0 ≤ hend)) pass

  server_message-MessageWith :
      (low high hend hpos : ℕ) (s : Scan)
      → hend ≤ length d
      → hpos + 4 ≤ hend
      → Returns (server_message d hend hpos s) (MessageWith low high hpos hend)
  unfolding server_message
  server_message-MessageWith low high hend hpos s le fits =
      Returns-bind _ _ (read-Returns d hpos (omega arith)) λ msg_type _.
        Returns-bind _ _ (read_u24-Returns d (hpos + 1) (omega arith)) λ msg_len _.
          let next = hpos + 4 + msg_len in
          Returns-if (ltb hend next) _ _ (λ _. Returns-ok (leave (leave false)) tt)
            λ inside.
              let whole : next ≤ hend = ground (arith, inside) in
              Returns-if (msg_type == 2) _ _
                (λ _.
                  Returns-bind _ _ (is_tls13_server_hello-Returns d (hpos + 4) msg_len)
                    λ tls13 _. Returns-ok _ (omega arith, whole))
                (λ _. Returns-ok _ (omega arith, whole))

  server_messages-BetweenWith :
      (low high fuel hend hpos : ℕ) (s : Scan)
      → hend ≤ length d
      → (low ≤ hpos) × (hend ≤ high)
      → hpos ≤ hend
      → hend < hpos + fuel
      → Returns (server_messages d fuel hend hpos s) (BetweenWith low high)
  unfolding server_messages
  server_messages-BetweenWith low high zero hend hpos s le room inside enough = absurd (omega arith)
  server_messages-BetweenWith low high (suc fuel) hend hpos s le room inside enough =
      Returns-if (ltb hend (hpos + 4)) _ _
        (λ _. Returns-ok (again (hend, s)) (omega (arith, room, inside), room.1))
        λ fits.
          Returns-bind _ _
            (server_message-MessageWith low high hend hpos s le (ground (arith, fits)))
            λ pass h. Returns-turn pass _ h λ next h'.
              server_messages-BetweenWith low high fuel hend next.0 next.1 le
                (omega (arith, room, h'), room.1) h'.1 (omega (arith, h', enough))

  server_record-BetweenWith :
      (pos : ℕ) (s : Scan)
      → pos + 5 ≤ length d
      → Returns (server_record d pos s) (BetweenWith (pos + 5) (length d))
  unfolding server_record
  server_record-BetweenWith pos s fits =
      Returns-bind _ _ (read-Returns d pos (omega arith)) λ content_type _.
        Returns-bind _ _ (read_u16-Returns d (pos + 3) (omega arith)) λ record_len _.
          let next = pos + 5 + record_len in
          Returns-if (ltb (length d) next) _ _ (λ _. Returns-ok (leave false) tt)
            λ inside.
              let whole : next ≤ length d = ground (arith, inside) in
              Returns-if (content_type == 22) _ _
                (λ _.
                  server_messages-BetweenWith (pos + 5) (length d) (suc (length d)) next (pos + 5) s
                    whole (omega arith, whole) (omega arith) (omega (arith, whole)))
                (λ _. Returns-ok _ (omega arith, whole))

  server_records-Returns :
      (fuel pos : ℕ) (s : Scan)
      → pos ≤ length d
      → length d < pos + fuel
      → Returns (server_records d fuel pos s) Any
  unfolding server_records
  server_records-Returns zero pos s inside enough = absurd (omega arith)
  server_records-Returns (suc fuel) pos s inside enough =
      Returns-if (ltb (length d) (pos + 5)) _ _ (λ _. Returns-ok _ tt)
        λ fits. Returns-bind _ _ (server_record-BetweenWith pos s (ground (arith, fits))) λ pass h.
          Returns-turn pass _ h
            λ next h'. server_records-Returns fuel next.0 next.1 h'.1 (omega (arith, h', enough))

  is_server_hello_complete-Returns : Returns (is_server_hello_complete d) Any
  unfolding is_server_hello_complete
  is_server_hello_complete-Returns =
      Returns-if (ltb (length d) 5) _ _ (λ _. Returns-ok false tt)
        λ _. server_records-Returns (suc (length d)) 0 nothing_found (omega arith) (omega arith)

  -- Whatever the bytes, both tests read inside the buffer only and their loops end.
  pub hello_tests_safe :
      Returns (is_client_hello_complete d) Any × Returns (is_server_hello_complete d) Any
  hello_tests_safe = (is_client_hello_complete-Returns d, is_server_hello_complete-Returns)
