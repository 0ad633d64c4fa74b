-- ===== src/Handshake/Cache/History.antt =====
-- What GetHandshake hands over after any history of its calls, of the clock and of the network.
pub mod Entries
pub mod Steps
pub mod Replies
use mathlib.Core.Path.{subst}
use ftpn.Filter.DomainBlacklist.{is_empty, text_key}
use ftpn.Handshake.Flight.{is_record_aligned_server_flight}
use ftpn.Handshake.Cache.{
  HandshakeResponse, Network, unresolved, interrupted, connected, read_flight, response_of,
  fetch_forwarded_handshake, CacheEntry, HandshakeCacheManager, check_cache, store, is_present,
  HandshakeStage, begun, fetching, fetching_default, storing, replied, finish, resume,
  fetch_request,
}
use ftpn.Prelude.{
  ℕ, zero, suc, ◌+◌, ◌-◌, ◌≤◌, ◌<◌, ◌≡◌, ◌⊎◌, refl, sym, ◌∙◌, inl, inr, Bool, true, false, not,
  Option, none, some, List, [], ◌∷◌, All, any, arith, ltb, get_elem?, find_key, erase_key,
  find_key-erase_key, assign, find_key-assign, Key, if◌then◌else◌, Bool-cases, Option-cases,
}

-- An answer that came in: from which domain's server, its bytes and when.
pub record Answer : Type 0 where
  pub domain : List ℕ
  pub response : List ℕ
  pub time : ℕ

abbrev pub Somewhere : (Answer → Type 0) → List Answer → Type 0
Somewhere P [] = ⊥
Somewhere P (a ∷ answers) = P a ⊎ Somewhere P answers

pub record Call : Type 0 where
  pub sni : List ℕ
  pub client_hello : List ℕ
  pub stage : HandshakeStage

pub record World : Type 0 where
  pub now : ℕ
  pub cache : List (List ℕ × CacheEntry)
  pub calls : List Call
  pub answers : List Answer

-- A call begins, a call goes on by a step, or time passes.
pub data Event : Type 0 where
  opened : List ℕ → List ℕ → Event
  advanced : ℕ → Network → Event
  passed : ℕ → Event

abbrev pub is_storing : HandshakeStage → Bool
is_storing (storing response) = true
is_storing begun = false
is_storing fetching = false
is_storing fetching_default = false
is_storing (replied response) = false

abbrev pub is_returned : HandshakeStage → Bool
is_returned (replied response) = true
is_returned begun = false
is_returned fetching = false
is_returned fetching_default = false
is_returned (storing response) = false

unfoldable pub replace : ℕ → Call → List Call → List Call
replace i c [] = []
replace zero c (d ∷ calls) = c ∷ calls
replace (suc i) c (d ∷ calls) = d ∷ replace i c calls

unfoldable pub noted : Option (List ℕ × List ℕ) → HandshakeResponse → ℕ → List Answer → List Answer
noted none response now answers = answers
noted (some asked) none now answers = answers
noted (some (domain, client_hello)) (some response) now answers =
    record { domain = domain; response = response; time = now } ∷ answers

-- The settings of a manager, with the ClientHello for a domain that is generated.
pub record Server : Type 0 where
  pub cache_ttl : ℕ
  pub default_domain : List ℕ
  pub generate : List ℕ → List ℕ

module _ (server : Server) where
  abbrev pub manager : List (List ℕ × CacheEntry) → HandshakeCacheManager
  manager c = record {
    cache_ttl = server.cache_ttl;
    default_domain = server.default_domain;
    cache = c;
  }

  -- The answers behind a step of the call.
  abbrev pub answers_behind : ℕ → Call → Network → List Answer → List Answer
  answers_behind now c network =
      noted (fetch_request server.generate server.default_domain c.sni c.client_hello c.stage)
        (fetch_forwarded_handshake network) now

  unfoldable pub advance : ℕ → Network → Call → World → World
  unfolding resume fetch_request noted fetch_forwarded_handshake replace
  advance i network c w =
      let (m, stage) = resume w.now c.sni network c.stage (manager w.cache) in
      record {
        now = w.now;
        cache = m.cache;
        calls =
            replace i (record { sni = c.sni; client_hello = c.client_hello; stage = stage })
              w.calls;
        answers = answers_behind w.now c network w.answers;
      }

  -- Between the two stores of one call no time passes.
  unfoldable pub on : Event → World → World
  unfolding advance
  on (opened sni client_hello) w = record {
    now = w.now;
    cache = w.cache;
    calls = record { sni = sni; client_hello = client_hello; stage = begun } ∷ w.calls;
    answers = w.answers;
  }
  on (advanced i network) w = elim (get_elem? w.calls i) [
    | none ↦ w
    | some c ↦ advance i network c w
  ]
  on (passed d) w =
      if any (λ c. is_storing c.stage) w.calls
      then w
      else record { now = w.now + d; cache = w.cache; calls = w.calls; answers = w.answers }

  unfoldable pub history : List Event → World
  unfolding on
  history [] = record { now = 0; cache = []; calls = []; answers = [] }
  history (e ∷ earlier) = on e (history earlier)
