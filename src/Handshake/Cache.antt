-- ===== src/Handshake/Cache.antt =====
-- HandshakeCacheManager of fptn/src/fptn-server/web/handshake/handshake_cache_manager.cpp. A call of
-- GetHandshake is a coroutine: it goes on in steps, each with one critical section at most, and the steps of
-- several calls interleave. Times are nanoseconds, a domain is its bytes, and a null pointer is `none`. A
-- socket's answers and the ClientHello that OpenSSL makes are arguments.
pub mod History
use ftpn.Filter.DomainBlacklist.{is_empty, text_key}
use ftpn.Handshake.Flight.{is_record_aligned_server_flight}
use ftpn.Prelude.{
  ℕ, ◌+◌, ◌-◌, Bool, true, false, not, Option, none, some, List, [], ◌∷◌, ◌++◌, leb, ltb, length,
  find_key, erase_key, assign, if◌then◌else◌,
}

abbrev pub HandshakeResponse : Type 0
HandshakeResponse = Option (List ℕ)

-- How one turn of the reading loop ends: with bytes, with the quiet period over, or with an error or none.
pub data Read : Type 0 where
  bytes : List ℕ → Read
  quiet : Read
  ended : Read

-- What the network does in a fetch: the name is not resolved, an exception or the deadline ends it, or
-- the connection stands and gives these readings.
pub data Network : Type 0 where
  unresolved : Network
  interrupted : Network
  connected : List Read → Network

-- while (data.size() < kMaxTotalSize); a socket that is silent for ever ends with a quiet period.
unfoldable pub read_flight : List Read → List ℕ → List ℕ
read_flight [] read = read
read_flight (r ∷ rs) read =
    if ltb (length read) 65536
    then elim r [
      | bytes b ↦ if is_empty b then read else read_flight rs (read ++ b)
      | quiet ↦ read
      | ended ↦ read
    ]
    else read

unfoldable pub response_of : List ℕ → HandshakeResponse
response_of response = if is_empty response then none else some response

unfoldable pub fetch_forwarded_handshake : Network → HandshakeResponse
unfolding read_flight response_of
fetch_forwarded_handshake unresolved = response_of []
fetch_forwarded_handshake interrupted = response_of []
fetch_forwarded_handshake (connected rs) =
    let read = read_flight rs [] in
    response_of (if is_record_aligned_server_flight read then read else [])

pub record CacheEntry : Type 0 where
  pub response : HandshakeResponse
  pub timestamp : ℕ

pub record HandshakeCacheManager : Type 0 where
  pub cache_ttl : ℕ
  pub default_domain : List ℕ
  pub cache : List (List ℕ × CacheEntry)

abbrev pub with_cache : List (List ℕ × CacheEntry) → HandshakeCacheManager → HandshakeCacheManager
with_cache c m = record { cache_ttl = m.cache_ttl; default_domain = m.default_domain; cache = c }

unfoldable pub check_cache :
    ℕ → List ℕ → HandshakeCacheManager → HandshakeCacheManager × HandshakeResponse
unfolding find_key erase_key
check_cache now cache_key m = elim (find_key cache_key m.cache) [
  | none ↦ (m, none)
  | some entry ↦
      if ltb (now - entry.timestamp) m.cache_ttl
      then (m, entry.response)
      else (with_cache (erase_key cache_key m.cache) m, none)
]

-- cache_[key] = CacheEntry{response, now}
unfoldable pub store :
    ℕ → List ℕ → HandshakeResponse → HandshakeCacheManager → HandshakeCacheManager
unfolding assign
store now key response m =
    with_cache (assign key (record { response = response; timestamp = now }) m.cache) m

-- `response && !response->empty()`
abbrev pub is_present : HandshakeResponse → Bool
is_present none = false
is_present (some response) = not (is_empty response)

-- Where a call stands: before its first CheckCache, waiting for the decoy of its SNI, waiting for that of the
-- default domain, between the two stores of the default domain's answer, or at its co_return.
pub data HandshakeStage : Type 0 where
  begun : HandshakeStage
  fetching : HandshakeStage
  fetching_default : HandshakeStage
  storing : HandshakeResponse → HandshakeStage
  replied : HandshakeResponse → HandshakeStage

-- The end of GetHandshake, from the test of the response on.
unfoldable pub finish :
    ℕ → List ℕ → HandshakeResponse → HandshakeCacheManager → HandshakeCacheManager × HandshakeStage
unfolding store
finish now sni response m =
    if is_present response then (store now sni response m, replied response) else (m, replied none)

-- From the decoy's response on.
unfoldable pub after_fetch :
    ℕ → List ℕ → HandshakeResponse → HandshakeCacheManager → HandshakeCacheManager × HandshakeStage
unfolding check_cache finish
after_fetch now sni (some response) m = finish now sni (some response) m
after_fetch now sni none m =
    let (m', cached) = check_cache now m.default_domain m in
    if is_present cached then (m', replied cached) else (m', fetching_default)

-- From the default domain's response on.
unfoldable pub after_default_fetch :
    ℕ → List ℕ → HandshakeResponse → HandshakeCacheManager → HandshakeCacheManager × HandshakeStage
unfolding store finish
after_default_fetch now sni response m =
    if is_present response
    then (store now m.default_domain response m, storing response)
    else finish now sni response m

-- One step of a call. `network` is what the fetch met with that the call waits for, if it waits for one.
unfoldable pub resume :
    ℕ
    → List ℕ
    → Network
    → HandshakeStage
    → HandshakeCacheManager
    → HandshakeCacheManager × HandshakeStage
unfolding check_cache after_fetch after_default_fetch finish fetch_forwarded_handshake
resume now sni network begun m =
    let (m', cached) = check_cache now sni m in
    if is_present cached then (m', replied cached) else (m', fetching)
resume now sni network fetching m = after_fetch now sni (fetch_forwarded_handshake network) m
resume now sni network fetching_default m =
    after_default_fetch now sni (fetch_forwarded_handshake network) m
resume now sni network (storing response) m = finish now sni response m
resume now sni network (replied response) m = (m, replied response)

-- The decoy that a waiting call asks, and with which ClientHello.
unfoldable pub fetch_request :
    (List ℕ → List ℕ) → List ℕ → List ℕ → List ℕ → HandshakeStage → Option (List ℕ × List ℕ)
fetch_request generate default sni client_hello begun = none
fetch_request generate default sni client_hello fetching = some (sni, client_hello)
fetch_request generate default sni client_hello fetching_default = some (default, generate default)
fetch_request generate default sni client_hello (storing response) = none
fetch_request generate default sni client_hello (replied response) = none
