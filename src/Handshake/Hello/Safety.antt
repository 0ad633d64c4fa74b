-- ===== src/Handshake/Hello/Safety.antt =====
-- The test for a complete ClientHello and that for TLS 1.3 read inside the buffer and end.
pub mod Server
use ftpn.Packet.Access.{
  Access, ok, ◌>>=◌, read, read_u16, Pass, leave, again, turn, Returns, Returns-ok, Returns-bind,
  Returns-if, PassHolds, Returns-turn, Any, read-Returns, read_u16-Returns,
}
use ftpn.Handshake.Hello.{
  Scan, flight_done, with_done, with_app_data, read_u24, version_pass, version_loop,
  is_tls13_server_hello, client_message, client_messages, client_record, client_records,
  is_client_hello_complete, server_message, server_messages, server_record, server_records,
  is_server_hello_complete,
}
use ftpn.Prelude.{
  ℕ, zero, suc, ◌+◌, ◌≤◌, ◌<◌, ◌≡◌, refl, min, Bool, true, false, not, ◌&&◌, ◌||◌, List, arith,
  length, ltb, leb, ◌==◌, if◌then◌else◌,
}

module _ (d : List ℕ) where
  -- A loop goes on between `low` and `high`.
  abbrev Between {ℓ} : {A : Type ℓ} → ℕ → ℕ → Pass A ℕ → Type 0
  Between low high pass = PassHolds (λ a. Unit) (λ next. (low ≤ next) × (next ≤ high)) pass

  pub read_u24-Returns : (i : ℕ) → i + 2 < length d → Returns (read_u24 d i) Any
  unfolding read_u24
  read_u24-Returns i lt =
      Returns-bind _ _ (read-Returns d i (omega arith)) λ high _.
        Returns-bind _ _ (read_u16-Returns d (i + 1) (omega arith)) λ low _. Returns-ok _ tt

  known_version :
      (b : Bool) (low next high : ℕ)
      → low ≤ next
      → next ≤ high
      → Between {A = Bool} low high (if b then leave true else again next)
  known_version true low next high h h' = tt
  known_version false low next high h h' = (h, h')

  version_pass-Between :
      (ext_end p : ℕ)
      → ext_end ≤ length d
      → p + 4 ≤ ext_end
      → Returns (version_pass d ext_end p) (Between (p + 4) ext_end)
  unfolding version_pass
  version_pass-Between ext_end p le fits =
      Returns-bind _ _ (read_u16-Returns d p (omega arith)) λ ext_type _.
        Returns-bind _ _ (read_u16-Returns d (p + 2) (omega arith)) λ ext_len _.
          let next = p + 4 + ext_len in
          Returns-if (ltb ext_end next) _ _ (λ _. Returns-ok (leave false) tt)
            λ inside.
              Returns-if (ext_type == 0x2b && leb 2 ext_len) _ _
                (λ long.
                  Returns-bind _ _ (read_u16-Returns d (p + 4) (ground (arith, inside, long)))
                    λ ver _. Returns-ok (if ver == 0x0304 then leave true else again next) (
                      known_version (ver == 0x0304) (p + 4) next ext_end (omega arith)
                        (ground (arith, inside))))
                (λ _. Returns-ok (again next) (omega arith, ground (arith, inside)))

  version_loop-Returns :
      (fuel ext_end p : ℕ)
      → ext_end ≤ length d
      → p ≤ ext_end
      → ext_end < p + fuel
      → Returns (version_loop d fuel ext_end p) Any
  unfolding version_loop
  version_loop-Returns zero ext_end p le inside enough = absurd (omega arith)
  version_loop-Returns (suc fuel) ext_end p le inside enough =
      Returns-if (ltb ext_end (p + 4)) _ _ (λ _. Returns-ok false tt)
        λ fits.
          Returns-bind _ _ (version_pass-Between ext_end p le (ground (arith, fits))) λ pass h.
            Returns-turn pass _ h
              λ next h'. version_loop-Returns fuel ext_end next le h'.1 (omega (arith, h', enough))

  pub is_tls13_server_hello-Returns :
      (body_start body_len : ℕ) → Returns (is_tls13_server_hello d body_start body_len) Any
  unfolding is_tls13_server_hello
  is_tls13_server_hello-Returns body_start body_len =
      let body_end = body_start + body_len in
      let p = body_start + 34 in
      Returns-if (ltb (length d) body_end || ltb body_len 36 || leb body_end p) _ _
        (λ _. Returns-ok false tt)
        λ fits. Returns-bind _ _ (read-Returns d p (ground (arith, fits))) λ sid_len _.
          let q = p + 1 + sid_len + 3 in
          Returns-if (ltb body_end (q + 2)) _ _ (λ _. Returns-ok false tt)
            λ room.
              Returns-bind _ _ (read_u16-Returns d q (ground (arith, fits, room))) λ ext_total _.
                version_loop-Returns (suc (length d)) (min (q + 2 + ext_total) body_end) (q + 2)
                  (ground (arith, fits)) (ground (arith, room)) (ground (arith, fits))

  -- A message leaves both loops, or the next one starts at least four bytes on, inside the record.
  abbrev Message : ℕ → ℕ → ℕ → ℕ → Pass (Pass Bool ℕ) ℕ → Type 0
  Message low high hpos hend pass =
      PassHolds (Between low high) (λ next. (hpos + 4 ≤ next) × (next ≤ hend)) pass

  client_message-Message :
      (low high hend hpos : ℕ)
      → hend ≤ length d
      → hpos + 4 ≤ hend
      → Returns (client_message d hend hpos) (Message low high hpos hend)
  unfolding client_message
  client_message-Message low high hend hpos le fits =
      Returns-bind _ _ (read-Returns d hpos (omega arith)) λ msg_type _.
        Returns-bind _ _ (read_u24-Returns (hpos + 1) (omega arith)) λ msg_length _.
          Returns-ok _ (known_message (ltb hend (hpos + 4 + msg_length)) (msg_type == 1) _ refl)
    where
      known_message :
          (past is_hello : Bool) (len : ℕ)
          → ltb hend (hpos + 4 + len) ≡ past
          → Message low high hpos hend (
              if past
              then leave (leave false)
              else if is_hello
              then leave (leave true)
              else again (hpos + 4 + len))
      known_message true is_hello len e = tt
      known_message false true len e = tt
      known_message false false len e = (omega arith, ground (arith, e))

  client_messages-Between :
      (low high fuel hend hpos : ℕ)
      → hend ≤ length d
      → (low ≤ hpos) × (hend ≤ high)
      → hpos ≤ hend
      → hend < hpos + fuel
      → Returns (client_messages d fuel hend hpos) (Between low high)
  unfolding client_messages
  client_messages-Between low high zero hend hpos le room inside enough = absurd (omega arith)
  client_messages-Between low high (suc fuel) hend hpos le room inside enough =
      Returns-if (ltb hend (hpos + 4)) _ _
        (λ _. Returns-ok (again hend) (omega (arith, room, inside), room.1))
        λ fits.
          Returns-bind _ _ (client_message-Message low high hend hpos le (ground (arith, fits)))
            λ pass h. Returns-turn pass _ h λ next h'.
              client_messages-Between low high fuel hend next le (omega (arith, room, h'), room.1)
                h'.1 (omega (arith, h', enough))

  client_record-Between :
      (pos : ℕ) → pos + 5 ≤ length d → Returns (client_record d pos) (Between (pos + 5) (length d))
  unfolding client_record
  client_record-Between pos fits =
      Returns-bind _ _ (read-Returns d pos (omega arith)) λ content_type _.
        Returns-bind _ _ (read_u16-Returns d (pos + 3) (omega arith)) λ record_length _.
          let next = pos + 5 + record_length in
          Returns-if (ltb (length d) next) _ _ (λ _. Returns-ok (leave false) tt)
            λ inside.
              let whole : next ≤ length d = ground (arith, inside) in
              Returns-if (content_type == 22) _ _
                (λ _.
                  client_messages-Between (pos + 5) (length d) (suc (length d)) next (pos + 5) whole
                    (omega arith, whole) (omega arith) (omega (arith, whole)))
                (λ _. Returns-ok (again next) (omega arith, whole))

  client_records-Returns :
      (fuel pos : ℕ)
      → pos ≤ length d
      → length d < pos + fuel
      → Returns (client_records d fuel pos) Any
  unfolding client_records
  client_records-Returns zero pos inside enough = absurd (omega arith)
  client_records-Returns (suc fuel) pos inside enough =
      Returns-if (ltb (length d) (pos + 5)) _ _ (λ _. Returns-ok false tt)
        λ fits. Returns-bind _ _ (client_record-Between pos (ground (arith, fits))) λ pass h.
          Returns-turn pass _ h
            λ next h'. client_records-Returns fuel next h'.1 (omega (arith, h', enough))

  pub is_client_hello_complete-Returns : Returns (is_client_hello_complete d) Any
  unfolding is_client_hello_complete
  is_client_hello_complete-Returns =
      Returns-if (ltb (length d) 5) _ _ (λ _. Returns-ok false tt)
        λ _. client_records-Returns (suc (length d)) 0 (omega arith) (omega arith)
