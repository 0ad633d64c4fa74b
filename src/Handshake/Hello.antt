-- ===== src/Handshake/Hello.antt =====
-- IsClientHelloComplete, IsServerHelloComplete and IsTls13ServerHello of fptn/src/common/network/utils.h.
-- A loop that runs out of fuel counts as a read out of bounds.
pub mod Safety
use ftpn.Packet.Access.{Access, ok, out_of_bounds, ◌>>=◌, read, read_u16, Pass, leave, again, turn}
use ftpn.Prelude.{
  ℕ, zero, suc, ◌+◌, ◌*◌, min, Bool, true, false, not, ◌&&◌, ◌||◌, List, length, ltb, leb, ◌==◌,
  if◌then◌else◌,
}

-- The variables of IsServerHelloComplete.
pub record Scan : Type 0 where
  pub found_server_hello : Bool
  pub is_tls13 : Bool
  pub handshake_done : Bool
  pub app_data_bytes : ℕ

abbrev pub nothing_found : Scan
nothing_found = record {
  found_server_hello = false;
  is_tls13 = false;
  handshake_done = false;
  app_data_bytes = 0;
}

abbrev pub flight_done : Bool → Scan → Bool
flight_done at_end s =
    s.found_server_hello
    && (if s.found_server_hello && s.is_tls13
        then at_end && leb 512 s.app_data_bytes
        else s.handshake_done)

-- TLS 1.2: ServerHelloDone ends the flight.
abbrev pub with_done : ℕ → Scan → Scan
with_done msg_type s =
    if s.found_server_hello && not s.is_tls13 && msg_type == 14
    then record s { handshake_done = true }
    else s

-- TLS 1.3: the bytes of the encrypted flight are counted.
abbrev pub with_app_data : ℕ → ℕ → Scan → Scan
with_app_data content_type len s =
    if s.found_server_hello && s.is_tls13 && content_type == 23
    then record s { app_data_bytes = s.app_data_bytes + len }
    else s

module _ (d : List ℕ) where
  -- The three bytes of a length.
  unfoldable pub read_u24 : ℕ → Access ℕ
  unfolding read read_u16
  read_u24 i = do high ← read d i; low ← read_u16 d (i + 1); ok (high * 65536 + low)

  unfoldable pub version_pass : ℕ → ℕ → Access (Pass Bool ℕ)
  unfolding read_u16
  version_pass ext_end p = do
    ext_type ← read_u16 d p
    ext_len ← read_u16 d (p + 2)
    if ltb ext_end (p + 4 + ext_len)
        then ok (leave false)
        else if ext_type == 0x2b && leb 2 ext_len
        then (do
          ver ← read_u16 d (p + 4)
          ok (if ver == 0x0304 then leave true else again (p + 4 + ext_len)))
        else ok (again (p + 4 + ext_len))

  unfoldable pub version_loop : ℕ → ℕ → ℕ → Access Bool
  unfolding version_pass
  version_loop zero ext_end p = out_of_bounds
  version_loop (suc fuel) ext_end p =
      if ltb ext_end (p + 4)
      then ok false
      else do pass ← version_pass ext_end p; turn pass (λ next. version_loop fuel ext_end next)

  unfoldable pub is_tls13_server_hello : ℕ → ℕ → Access Bool
  unfolding read read_u16 version_loop
  is_tls13_server_hello body_start body_len =
      let body_end = body_start + body_len in
      let p = body_start + 34 in
      if ltb (length d) body_end || ltb body_len 36 || leb body_end p then ok false else do
        sid_len ← read d p
        let q = p + 1 + sid_len + 3
        if ltb body_end (q + 2) then ok false else do
          ext_total ← read_u16 d q
          version_loop (suc (length d)) (min (q + 2 + ext_total) body_end) (q + 2)

  -- A handshake message of IsClientHelloComplete; the return leaves both loops.
  unfoldable pub client_message : ℕ → ℕ → Access (Pass (Pass Bool ℕ) ℕ)
  unfolding read read_u24
  client_message hend hpos = do
    msg_type ← read d hpos
    msg_length ← read_u24 (hpos + 1)
    ok (
        if ltb hend (hpos + 4 + msg_length)
        then leave (leave false)
        else if msg_type == 1
        then leave (leave true)
        else again (hpos + 4 + msg_length))

  unfoldable pub client_messages : ℕ → ℕ → ℕ → Access (Pass Bool ℕ)
  unfolding client_message
  client_messages zero hend hpos = out_of_bounds
  client_messages (suc fuel) hend hpos =
      if ltb hend (hpos + 4)
      then ok (again hend)
      else do pass ← client_message hend hpos; turn pass (λ next. client_messages fuel hend next)

  unfoldable pub client_record : ℕ → Access (Pass Bool ℕ)
  unfolding read read_u16 client_messages
  client_record pos = do
    content_type ← read d pos
    record_length ← read_u16 d (pos + 3)
    if ltb (length d) (pos + 5 + record_length)
        then ok (leave false)
        else if content_type == 22
        then client_messages (suc (length d)) (pos + 5 + record_length) (pos + 5)
        else ok (again (pos + 5 + record_length))

  unfoldable pub client_records : ℕ → ℕ → Access Bool
  unfolding client_record
  client_records zero pos = out_of_bounds
  client_records (suc fuel) pos =
      if ltb (length d) (pos + 5)
      then ok false
      else do pass ← client_record pos; turn pass (λ next. client_records fuel next)

  unfoldable pub is_client_hello_complete : Access Bool
  unfolding client_records
  is_client_hello_complete =
      if ltb (length d) 5 then ok false else client_records (suc (length d)) 0

  unfoldable pub server_message : ℕ → ℕ → Scan → Access (Pass (Pass Bool (ℕ × Scan)) (ℕ × Scan))
  unfolding read read_u24 is_tls13_server_hello
  server_message hend hpos s = do
    msg_type ← read d hpos
    msg_len ← read_u24 (hpos + 1)
    if ltb hend (hpos + 4 + msg_len)
        then ok (leave (leave false))
        else if msg_type == 2
        then (do
          tls13 ← is_tls13_server_hello (hpos + 4) msg_len
          ok (again (hpos + 4 + msg_len, record s { found_server_hello = true; is_tls13 = tls13 })))
        else ok (again (hpos + 4 + msg_len, with_done msg_type s))

  unfoldable pub server_messages : ℕ → ℕ → ℕ → Scan → Access (Pass Bool (ℕ × Scan))
  unfolding server_message
  server_messages zero hend hpos s = out_of_bounds
  server_messages (suc fuel) hend hpos s = if ltb hend (hpos + 4) then ok (again (hend, s)) else do
    pass ← server_message hend hpos s
    turn pass (λ next. server_messages fuel hend next.0 next.1)

  unfoldable pub server_record : ℕ → Scan → Access (Pass Bool (ℕ × Scan))
  unfolding read read_u16 server_messages
  server_record pos s = do
    content_type ← read d pos
    record_len ← read_u16 d (pos + 3)
    if ltb (length d) (pos + 5 + record_len)
        then ok (leave false)
        else if content_type == 22
        then server_messages (suc (length d)) (pos + 5 + record_len) (pos + 5) s
        else ok (again (pos + 5 + record_len, with_app_data content_type record_len s))

  unfoldable pub server_records : ℕ → ℕ → Scan → Access Bool
  unfolding server_record
  server_records zero pos s = out_of_bounds
  server_records (suc fuel) pos s =
      if ltb (length d) (pos + 5)
      then ok (flight_done (pos == length d) s)
      else do pass ← server_record pos s; turn pass (λ next. server_records fuel next.0 next.1)

  unfoldable pub is_server_hello_complete : Access Bool
  unfolding server_records
  is_server_hello_complete =
      if ltb (length d) 5 then ok false else server_records (suc (length d)) 0 nothing_found
