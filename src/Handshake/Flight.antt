-- ===== src/Handshake/Flight.antt =====
-- IsRecordAlignedServerFlight of fptn/src/common/network/utils.h.
use ftpn.Prelude.{
  ℕ, zero, suc, ◌+◌, ◌*◌, ◌≤◌, ◌≡◌, ◌↔◌, refl, sym, ap, ◌∙◌, inl, inr, Bool, true, false, ◌&&◌,
  ◌||◌, Option, none, some, List, [], ◌∷◌, ◌++◌, All, arith, ltb, length, take, drop,
  take-append-drop, length-take, length-append, ◌==◌, if◌then◌else◌, Bool-cases,
}
use mathlib.Core.Path.{subst}
use ftpn.Filter.DomainBlacklist.{is_empty}

-- The type and the length of the record in front, with what stands behind its header of five bytes.
unfoldable pub split_header : List ℕ → Option (ℕ × ℕ × List ℕ)
split_header [] = none
split_header (t ∷ []) = none
split_header (t ∷ v ∷ []) = none
split_header (t ∷ v ∷ w ∷ []) = none
split_header (t ∷ v ∷ w ∷ h ∷ []) = none
split_header (t ∷ v ∷ w ∷ h ∷ l ∷ flight) = some (t, h * 256 + l, flight)

abbrev pub is_first : ℕ → List ℕ → Bool
is_first n [] = false
is_first n (c ∷ flight) = c == n

-- The loop from a record's first byte on; `fuel` is at least the number of records.
unfoldable pub aligned_from : ℕ → Bool → List ℕ → Bool
unfolding split_header
aligned_from zero found flight = found && is_empty flight
aligned_from (suc fuel) found flight = elim (split_header flight) [
  | none ↦ found && is_empty flight
  | some (t, len, behind) ↦
      let rest = aligned_from fuel (found || (t == 22 && is_first 2 behind)) (drop len behind) in
      if ltb (length behind) len then false else rest
]

unfoldable pub is_record_aligned_server_flight : List ℕ → Bool
unfolding aligned_from
is_record_aligned_server_flight flight = aligned_from (length flight) false flight

-- A TLS record: the five bytes of its header and its body.
pub record TlsRecord : Type 0 where
  pub content_type : ℕ
  pub version_major : ℕ
  pub version_minor : ℕ
  pub length_high : ℕ
  pub length_low : ℕ
  pub body : List ℕ

abbrev pub IsWhole : TlsRecord → Type 0
IsWhole r = length r.body ≡ r.length_high * 256 + r.length_low

unfoldable pub bytes_of : List TlsRecord → List ℕ
bytes_of [] = []
bytes_of (r ∷ rs) =
    r.content_type
    ∷ r.version_major
    ∷ r.version_minor
    ∷ r.length_high
    ∷ r.length_low
    ∷ (r.body ++ bytes_of rs)

-- A handshake record whose header a byte 2 follows, which for a body is the type of a ServerHello.
unfoldable pub has_server_hello : List TlsRecord → Bool
unfolding bytes_of
has_server_hello [] = false
has_server_hello (r ∷ rs) =
    (r.content_type == 22 && is_first 2 (r.body ++ bytes_of rs)) || has_server_hello rs

drop-append : (xs ys : List ℕ) (n : ℕ) → length xs ≡ n → drop n (xs ++ ys) ≡ ys
drop-append [] ys zero h = refl
drop-append [] ys (suc n) h = absurd (omega (arith, h))
drop-append (x ∷ xs) ys zero h = absurd (omega (arith, h))
drop-append (x ∷ xs) ys (suc n) h = drop-append xs ys n (omega (arith, h))

or_assoc : (a b c : Bool) → ((a || b) || c) ≡ (a || (b || c))
or_assoc true b c = refl
or_assoc false b c = refl

and_or : (a : Bool) → (a && true) ≡ (a || false)
and_or true = refl
and_or false = refl

aligned_from-bytes_of :
    (fuel : ℕ) (found : Bool) (rs : List TlsRecord)
    → All IsWhole rs
    → length (bytes_of rs) ≤ fuel
    → aligned_from fuel found (bytes_of rs) ≡ (found || has_server_hello rs)
unfolding aligned_from bytes_of has_server_hello split_header
aligned_from-bytes_of zero found [] h f = and_or found
aligned_from-bytes_of (suc fuel) found [] h f = and_or found
aligned_from-bytes_of zero found (r ∷ rs) h f = absurd (omega (arith, f))
aligned_from-bytes_of (suc fuel) found (r ∷ rs) h f =
    let all = r.body ++ bytes_of rs in
    let len = r.length_high * 256 + r.length_low in
    let e = drop-append r.body (bytes_of rs) len h.0 in
    let enough : ltb (length all) len ≡ false =
      ground (arith, length-append r.body (bytes_of rs), h.0) in
    rw (enough, e)
      (aligned_from-bytes_of fuel _ rs h.1 (omega (arith, length-append r.body (bytes_of rs), f))
        ∙ or_assoc found (r.content_type == 22 && is_first 2 all) (has_server_hello rs))

-- Whole records that make up the bytes, with a ServerHello among them unless one was `found`.
abbrev Whole : Bool → List ℕ → Type 0
Whole found d =
    (rs : List TlsRecord) × (bytes_of rs ≡ d)
    × All IsWhole rs
    × ((found || has_server_hello rs) ≡ true)

at_end : (found : Bool) (d : List ℕ) → (found && is_empty d) ≡ true → Whole found d
unfolding bytes_of has_server_hello
at_end true [] h = ([], refl, tt, refl)
at_end true (x ∷ d) h = absurd (cc h)
at_end false d h = absurd (cc h)

Whole-record :
    (found : Bool) (t v w m l : ℕ) (d : List ℕ)
    → ltb (length d) (m * 256 + l) ≡ false
    → Whole (found || (t == 22 && is_first 2 d)) (drop (m * 256 + l) d)
    → Whole found (t ∷ v ∷ w ∷ m ∷ l ∷ d)
unfolding bytes_of has_server_hello
Whole-record found t v w m l d enough (rs, e, whole, hello) =
    let n = m * 256 + l in
    let first : TlsRecord = record {
      content_type = t;
      version_major = v;
      version_minor = w;
      length_high = m;
      length_low = l;
      body = take n d;
    } in
    let joined : take n d ++ bytes_of rs ≡ d = ap (◌++◌ (take n d)) e ∙ take-append-drop n d in
    let is_whole : length (take n d) ≡ n = ground (arith, length-take n d, enough) in
    (
      first ∷ rs,
      ap (λ b. t ∷ v ∷ w ∷ m ∷ l ∷ b) joined,
      (is_whole, whole),
      rw joined (sym (or_assoc found (t == 22 && is_first 2 d) (has_server_hello rs)) ∙ hello),
    )

aligned_from-Whole :
    (fuel : ℕ) (found : Bool) (d : List ℕ) → aligned_from fuel found d ≡ true → Whole found d
unfolding aligned_from split_header
aligned_from-Whole zero found d h = at_end found d h
aligned_from-Whole (suc fuel) found [] h = at_end found [] h
aligned_from-Whole (suc fuel) found (t ∷ []) h = at_end found _ h
aligned_from-Whole (suc fuel) found (t ∷ v ∷ []) h = at_end found _ h
aligned_from-Whole (suc fuel) found (t ∷ v ∷ w ∷ []) h = at_end found _ h
aligned_from-Whole (suc fuel) found (t ∷ v ∷ w ∷ m ∷ []) h = at_end found _ h
aligned_from-Whole (suc fuel) found (t ∷ v ∷ w ∷ m ∷ l ∷ d) h =
    elim (Bool-cases (ltb (length d) (m * 256 + l))) [
      | inl e ↦ let h' : false ≡ true = rw e at h in absurd (cc h')
      | inr e ↦ Whole-record found t v w m l d e (aligned_from-Whole fuel _ _ (rw e at h))
    ]

-- The test is passed exactly by bytes that are whole TLS records, each with the length its header gives,
-- of which one is a handshake record with a byte 2 behind its header.
pub is_record_aligned_server_flight_lem :
    (flight : List ℕ)
    → (is_record_aligned_server_flight flight ≡ true) ↔ (
        (rs : List TlsRecord) × (bytes_of rs ≡ flight)
        × All IsWhole rs
        × (has_server_hello rs ≡ true))
unfolding is_record_aligned_server_flight
is_record_aligned_server_flight_lem flight = (
  aligned_from-Whole (length flight) false flight,
  λ (rs, e, whole, hello).
      subst (λ d. aligned_from (length d) false d ≡ true) e
        (aligned_from-bytes_of (length (bytes_of rs)) false rs whole (omega arith) ∙ hello),
)
