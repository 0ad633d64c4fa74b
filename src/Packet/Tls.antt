-- ===== src/Packet/Tls.antt =====
-- fptn/src/common/network/ip_utils.h: the parsers of a TLS ClientHello. A pointer is an offset from
-- the first byte of the record. The loop over the extensions runs on fuel, and running out of it
-- counts as a read out of bounds here: a run that returns did neither.
pub mod Safety
pub mod Session
use ftpn.Packet.Access.{
  Access, ok, out_of_bounds, ◌>>=◌, read, read_u16, read_bytes, Pass, leave, again, turn,
}
use ftpn.Packet.Dns.Answers.{to_lower_ascii}
use ftpn.Prelude.{
  ℕ, zero, suc, ◌+◌, ◌-◌, ◌*◌, Bool, true, false, not, ◌&&◌, ◌||◌, Option, none, some, List, [],
  ◌∷◌, ◌++◌, take, drop, length, ltb, leb, ◌==◌, if◌then◌else◌,
}

module _ (p : List ℕ) where
  abbrev end : ℕ
  end = length p

  -- `p` is not null here.
  unfoldable pub is_tls_client_hello : Access Bool
  is_tls_client_hello = if ltb end 6 then ok false else do
    kind ← read p 0
    if not (kind == 0x16) then ok false else do
      ver ← read_u16 p 1
      if ltb ver 0x0301 || ltb 0x0304 ver then ok false else do hello ← read p 5; ok (hello == 1)

  -- One pass over the extensions that end at `ext_end`, for i + 4 <= ext_end.
  unfoldable pub extension_pass : ℕ → ℕ → Access (Pass (Option (List ℕ)) ℕ)
  extension_pass ext_end i = do
    type ← read_u16 p i
    elen ← read_u16 p (i + 2)
    if ltb ext_end (i + 4 + elen)
        then ok (leave none)
        else if type == 0 && leb 5 elen
        then (do
          name_len ← read_u16 p (i + 4 + 3)
          if ltb ext_end (i + 4 + 5 + name_len) then ok (leave none) else do
            name ← read_bytes p (i + 4 + 5) name_len
            ok (leave (some (to_lower_ascii name))))
        else ok (again (i + 4 + elen))

  unfoldable pub extension_loop : ℕ → ℕ → ℕ → Access (Option (List ℕ))
  extension_loop zero ext_end i = out_of_bounds
  extension_loop (suc fuel) ext_end i =
      if ltb ext_end (i + 4)
      then ok none
      else do pass ← extension_pass ext_end i; turn pass (λ next. extension_loop fuel ext_end next)

  unfoldable pub get_tls_sni : Access (Option (List ℕ))
  get_tls_sni = if ltb end (43 + 1) then ok none else do
    session ← read p 43
    let i = 43 + (1 + session)
    -- cipher_suites
    if ltb end (i + 2) then ok none else do
      suites ← read_u16 p i
      let j = i + (2 + suites)
      -- compression_methods
      if ltb end (j + 1) then ok none else do
        methods ← read p j
        let k = j + (1 + methods)
        -- extensions length
        if ltb end (k + 2) then ok none else do
          extensions ← read_u16 p k
          if ltb end (k + 2 + extensions)
              then ok none
              else extension_loop (suc end) (k + 2 + extensions) (k + 2)

  unfoldable pub get_tls_session_id : Access (List ℕ)
  get_tls_session_id =
      if ltb end (43 + 1)
      then ok []
      else do sid_len ← read p 43; if ltb end (44 + sid_len) then ok [] else read_bytes p 44 sid_len

  -- SetTlsSessionId: the result and the record.
  unfoldable pub set_tls_session_id : List ℕ → Access (Bool × List ℕ)
  set_tls_session_id session = if leb end 43 || length session == 0 then ok (false, p) else do
    sid_len ← read p 43
    ok (
        if not (sid_len == length session) || ltb end (43 + 1 + sid_len)
        then (false, p)
        else (true, take 44 p ++ session ++ drop (44 + sid_len) p))
