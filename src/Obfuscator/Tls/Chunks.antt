-- ===== src/Obfuscator/Tls/Chunks.antt =====
-- A record that arrives in two pieces.
use ftpn.Obfuscator.Tls.{
  TlsObfuscator, Draw, header, header_size, add_data, search_record, ended, non_empty, deobfuscate,
  obfuscate,
}
use ftpn.Obfuscator.Tls.Record.{Fits, length-obfuscate, search-header, length-header}
use ftpn.Obfuscator.Tls.RoundTrip.{deobfuscate-obfuscate}
use mathlib.Core.List.{append-nil}
use ftpn.Prelude.{
  ℕ, ◌+◌, ◌-◌, ◌≤◌, ◌<◌, ◌≡◌, refl, sym, ap, ◌∙◌, inl, inr, true, false, Bool-cases, none, some,
  List, [], ◌∷◌, ◌++◌, length, take, length-append, take-append, take-add, xor_bytes, arith, ltb,
}

deobfuscate-short :
    (h : List ℕ)
    → ltb (length h) header_size ≡ true
    → deobfuscate (record { input_buffer = h }) ≡ (record { input_buffer = h }, none)
unfolding deobfuscate
deobfuscate-short h e = rw e

deobfuscate-ended :
    (h : List ℕ)
    → ltb (length h) header_size ≡ false
    → search_record 0 h ≡ ended 0
    → deobfuscate (record { input_buffer = h }) ≡ (record { input_buffer = h }, none)
unfolding deobfuscate
deobfuscate-ended h e f = rw (e, f)

-- A front of a record that has the whole header is a header with a front of the rest.
header-front :
    (size : ℕ) (d : Draw) (tail front more : List ℕ)
    → header_size ≤ length front
    → front ++ more ≡ header size d tail
    → front ≡ header size d (take (length front - header_size) tail)
header-front size d tail front more long e =
    sym (take-append front more)
    ∙ ap (take (length front)) e
    ∙ ap (λ (n : ℕ). take n (header size d tail)) split
    ∙ take-add header_size (length front - header_size) (header size d tail)
    ∙ unfold header in refl
  where
    split : length front ≡ header_size + (length front - header_size)
    split = omega arith

module _ (d : Draw) (payload front more : List ℕ) (f : Fits d payload) where
  total :
      front ++ more ≡ obfuscate d payload
      → length front + length more ≡ header_size + length payload + length d.padding
  total e = omega (arith, ap length e, length-append front more, length-obfuscate d payload)

  tail : List ℕ
  tail = xor_bytes d.xor_key payload ++ d.padding

  as_header : front ++ more ≡ obfuscate d payload → front ++ more ≡ header (length payload) d tail
  as_header e = e ∙ unfold obfuscate tail in refl

  header-waits :
      (front' : List ℕ)
      → length front' + header_size ≡ length front
      → length front < header_size + length payload + length d.padding
      → search_record 0 (header (length payload) d front') ≡ ended 0
  header-waits front' e less =
      search-header (length payload) d front' (omega (arith, f.whole)) f.padding_most ∙ ground arith

  incomplete_with_header :
      front ++ more ≡ obfuscate d payload
      → 0 < length more
      → ltb (length front) header_size ≡ false
      → deobfuscate (record { input_buffer = front }) ≡ (record { input_buffer = front }, none)
  incomplete_with_header e pos long =
      let front' = take (length front - header_size) tail in
      let eq = header-front (length payload) d tail front more (ground arith) (as_header e) in
      deobfuscate-ended front long (
        ap (search_record 0) eq
        ∙ header-waits front'
            (omega (arith, ap length eq, length-header (length payload) d front', ltb_false long))
            (omega (arith, total e)))
    where
      ltb_false : ltb (length front) header_size ≡ false → header_size ≤ length front
      ltb_false h = ground arith

  -- Until a record is complete Deobfuscate changes nothing and returns nothing.
  pub deobfuscate_incomplete :
      front ++ more ≡ obfuscate d payload
      → 0 < length more
      → deobfuscate (record { input_buffer = front }) ≡ (record { input_buffer = front }, none)
  deobfuscate_incomplete e pos = elim (Bool-cases (ltb (length front) header_size)) [
    | inl short ↦ deobfuscate-short front short
    | inr long ↦ incomplete_with_header e pos long
  ]

add_data-fits :
    (t : TlsObfuscator) (input : List ℕ)
    → 0 < length input
    → length t.input_buffer + length input ≤ 65536
    → (add_data (some input) t).0 ≡ record { input_buffer = t.input_buffer ++ input }
unfolding add_data
add_data-fits t [] pos h = absurd (omega arith)
add_data-fits t (b ∷ bs) pos h = ground arith

-- A record that the network delivers in two pieces, to an empty receiver: the first piece gives
-- nothing and stays, the second completes the payload and leaves the receiver empty.
pub two_chunks :
    (d : Draw) (payload front more : List ℕ)
    → Fits d payload
    → front ++ more ≡ obfuscate d payload
    → 0 < length front
    → 0 < length more
    → let first = (add_data (some front) (record { input_buffer = [] })).0 in
      let second = (add_data (some more) (deobfuscate first).0).0 in
      ((deobfuscate first).1 ≡ none)
      × (deobfuscate second ≡ (record { input_buffer = [] }, non_empty payload))
two_chunks d payload front more f e pos pos' =
    let sizes = total d payload front more f e in
    let waits = deobfuscate_incomplete d payload front more f e pos' in
    let first = add_data-fits (record { input_buffer = [] }) front pos (omega (arith, f.whole)) in
    (
      rw (first, waits),
      rw (first, waits)
          (rw
            (add_data-fits (record { input_buffer = front }) more pos' (omega (arith, f.whole)), e)
            (ap (λ (b : List ℕ). deobfuscate (record { input_buffer = b }))
                (sym (append-nil (obfuscate d payload)))
              ∙ deobfuscate-obfuscate d payload [] f)),
    )
