-- ===== src/Handshake/Cache/History/Replies.antt =====
-- Where the replies of GetHandshake come from, and how old they are.
use mathlib.Core.Path.{subst}
use ftpn.Filter.DomainBlacklist.{text_key}
use ftpn.Handshake.Cache.{
  HandshakeResponse, Network, fetch_forwarded_handshake, CacheEntry, HandshakeStage, begun,
  fetching, fetching_default, storing, replied, resume, fetch_request,
}
use ftpn.Handshake.Cache.History.{
  Answer, Call, World, Event, opened, advanced, passed, is_storing, is_returned, replace, noted,
  Server, manager, answers_behind, advance, on, history,
}
use ftpn.Prelude.{
  ℕ, zero, suc, ◌+◌, ◌≡◌, inl, inr, true, false, Option, none, some, List, [], ◌∷◌, All, any, arith,
  get_elem?, find_key, if◌then◌else◌, Bool-cases, Option-cases,
}
use ftpn.Handshake.Cache.History.Entries.{EntryOk, CacheOk, Recent, Handed, Kept, Answered-noted}
use ftpn.Handshake.Cache.History.Steps.{resume-Handed}

module _ (server : Server) where
  abbrev WorldOk : World → Type 0
  WorldOk w = CacheOk server w.answers w.now w.cache × All (Kept server w.answers w.now) w.calls

  Handed-Kept :
      (answers : List Answer) (now : ℕ) (sni client_hello : List ℕ) (s : HandshakeStage)
      → Handed server answers now sni s
      → Kept server answers now (record { sni = sni; client_hello = client_hello; stage = s })
  Handed-Kept answers now sni client_hello begun h = tt
  Handed-Kept answers now sni client_hello fetching h = tt
  Handed-Kept answers now sni client_hello fetching_default h = tt
  Handed-Kept answers now sni client_hello (storing r) h = h
  Handed-Kept answers now sni client_hello (replied r) h = tt

  Kept-noted :
      (asked : Option (List ℕ × List ℕ)) (response : HandshakeResponse) (t : ℕ)
      (answers : List Answer) (now : ℕ) (sni : List ℕ) (s : HandshakeStage)
      → (if is_storing s then Handed server answers now sni s else Unit)
      → (if is_storing s then Handed server (noted asked response t answers) now sni s else Unit)
  Kept-noted asked response t answers now sni begun h = tt
  Kept-noted asked response t answers now sni fetching h = tt
  Kept-noted asked response t answers now sni fetching_default h = tt
  Kept-noted asked response t answers now sni (storing none) h = tt
  Kept-noted asked response t answers now sni (storing (some r)) h =
      Answered-noted server asked response t answers sni now r h
  Kept-noted asked response t answers now sni (replied r) h = tt

  -- Any step of a call.
  resume-Kept :
      (answers : List Answer) (now : ℕ) (c : Call) (network : Network)
      (cache : List (List ℕ × CacheEntry))
      → CacheOk server answers now cache
      → Kept server answers now c
      → let (m, s) = resume now c.sni network c.stage (manager server cache) in
        let answers' = answers_behind server now c network answers in
        CacheOk server answers' now m.cache
        × Kept server answers' now
            (record { sni = c.sni; client_hello = c.client_hello; stage = s })
  unfolding resume fetch_request noted
  resume-Kept answers now c network cache ok kept = elim (Bool-cases (is_returned c.stage)) [
    | inl done ↦ by_stage c.stage done
    | inr going ↦
        let (ok', h) = resume-Handed server answers now c network cache going ok kept in
        (ok', Handed-Kept _ now c.sni c.client_hello _ h)
  ]
    where
      by_stage :
          (s : HandshakeStage)
          → is_returned s ≡ true
          → let (m, s') = resume now c.sni network s (manager server cache) in
            let answers' =
              noted
                (fetch_request server.generate server.default_domain c.sni c.client_hello s)
                (fetch_forwarded_handshake network)
                now
                answers in
            CacheOk server answers' now m.cache
            × Kept server answers' now
                (record { sni = c.sni; client_hello = c.client_hello; stage = s' })
      by_stage begun done = absurd (cc done)
      by_stage fetching done = absurd (cc done)
      by_stage fetching_default done = absurd (cc done)
      by_stage (storing r) done = absurd (cc done)
      by_stage (replied r) done = (ok, tt)

  All-replace :
      (P : Call → Type 0) (i : ℕ) (c : Call) (calls : List Call)
      → All P calls
      → P c
      → All P (replace i c calls)
  unfolding replace
  All-replace P i c [] h p = tt
  All-replace P zero c (d ∷ calls) h p = (p, h.1)
  All-replace P (suc i) c (d ∷ calls) h p = (h.0, All-replace P i c calls h.1 p)

  All-get_elem? :
      (P : Call → Type 0) (i : ℕ) (c : Call) (calls : List Call)
      → All P calls
      → get_elem? calls i ≡ some c
      → P c
  All-get_elem? P i c [] h found = absurd (cc found)
  All-get_elem? P zero c (d ∷ calls) h found = let e : d ≡ c = cc found in subst P e h.0
  All-get_elem? P (suc i) c (d ∷ calls) h found = All-get_elem? P i c calls h.1 found

  All-noted :
      (asked : Option (List ℕ × List ℕ)) (response : HandshakeResponse) (t : ℕ)
      (answers : List Answer) (now : ℕ) (calls : List Call)
      → All (Kept server answers now) calls
      → All (Kept server (noted asked response t answers) now) calls
  All-noted asked response t answers now [] h = tt
  All-noted asked response t answers now (c ∷ calls) h = (
    Kept-noted asked response t answers now c.sni c.stage h.0,
    All-noted asked response t answers now calls h.1,
  )

  All-passed :
      (answers : List Answer) (now later : ℕ) (calls : List Call)
      → any (λ c. is_storing c.stage) calls ≡ false
      → All (Kept server answers later) calls
  All-passed answers now later [] h = tt
  All-passed answers now later (c ∷ calls) h = elim (Bool-cases (is_storing c.stage)) [
    | inl e ↦ let h' = rw e at h in absurd (cc h')
    | inr e ↦ let h' = rw e at h in (rw e tt, All-passed answers now later calls h')
  ]

  CacheOk-passed :
      (answers : List Answer) (now d : ℕ) (cache : List (List ℕ × CacheEntry))
      → CacheOk server answers now cache
      → CacheOk server answers (now + d) cache
  CacheOk-passed answers now d cache ok key e found = entry e.response (ok key e found)
    where
      entry :
          (r : HandshakeResponse)
          → EntryOk server answers now key e.timestamp r
          → EntryOk server answers (now + d) key e.timestamp r
      entry none h = h
      entry (some r) h = (h.0, omega (arith, h.1))

  on-WorldOk : (e : Event) (w : World) → WorldOk w → WorldOk (on server e w)
  unfolding on advance
  on-WorldOk (opened sni client_hello) w ok = (ok.0, (tt, ok.1))
  on-WorldOk (advanced i network) w ok = elim (Option-cases (get_elem? w.calls i)) [
    | inl e ↦ rw (on, e) ok
    | inr (c, e) ↦
        let kept = All-get_elem? (Kept server w.answers w.now) i c w.calls ok.1 e in
        let (ok', kept') = resume-Kept w.answers w.now c network w.cache ok.0 kept in
        rw (on, e)
          (ok', All-replace _ i _ w.calls (All-noted _ _ _ w.answers w.now w.calls ok.1) kept')
  ]
  on-WorldOk (passed d) w ok = elim (Bool-cases (any (λ c. is_storing c.stage) w.calls)) [
    | inl e ↦ rw (on, e) ok
    | inr e ↦
        rw (on, e)
          (
            CacheOk-passed w.answers w.now d w.cache ok.0,
            All-passed w.answers w.now (w.now + d) w.calls e,
          )
  ]

  history-WorldOk : (events : List Event) → WorldOk (history server events)
  unfolding history find_key
  history-WorldOk [] = (λ key e found. absurd (cc found), tt)
  history-WorldOk (e ∷ earlier) = on-WorldOk e (history server earlier) (history-WorldOk earlier)

  -- Behind any history of calls whose steps interleave, a call that had not returned and returns bytes by
  -- its next step returns those of an answer that came from the server of its SNI or of the default domain,
  -- that is made of whole TLS records, and that came now or less than the time to live ago.
  pub resume-Recent :
      (events : List Event) (i : ℕ) (c : Call) (network : Network) (response : List ℕ)
      → let w = history server events in
        get_elem? w.calls i ≡ some c
        → is_returned c.stage ≡ false
        → (resume w.now c.sni network c.stage (manager server w.cache)).1 ≡ replied (some response)
        → Recent server
            (answers_behind server w.now c network w.answers)
            w.now
            c.sni
            (some response)
  resume-Recent events i c network response found going e =
      let w = history server events in
      let ok = history-WorldOk events in
      let kept = All-get_elem? (Kept server w.answers w.now) i c w.calls ok.1 found in
      let (_, h) = resume-Handed server w.answers w.now c network w.cache going ok.0 kept in
      subst (Handed server _ w.now c.sni) e h
