-- ===== src/Obfuscator/Tls/RoundTrip.antt =====
-- Deobfuscate reads back what Obfuscate wrote, record by record.
use ftpn.Obfuscator.Tls.{
  Draw, header, header_size, payload_length, full_record_size, search_record, found, non_empty,
  deobfuscate, obfuscate,
}
use ftpn.Obfuscator.Tls.Record.{
  Fits, search-header, payload_length-header, header_full_size, drop-header, header_key,
  length-header, obfuscate-append,
}
use ftpn.Prelude.{
  ℕ, ◌+◌, ◌≤◌, ◌≡◌, ap, ◌∙◌, false, List, ◌++◌, length, take, drop, length-append, take-append,
  drop-append, drop-add, byte, xor_bytes, length-xor_bytes, xor_bytes-xor_bytes, arith, ltb,
}

-- One step of Deobfuscate where the search found a record at the front.
deobfuscate-found :
    (h : List ℕ)
    → header_size ≤ length h
    → search_record 0 h ≡ found 0
    → deobfuscate (record { input_buffer = h }) ≡ (
      record { input_buffer = drop (full_record_size h) h },
      non_empty (xor_bytes (byte h 16) (take (payload_length h) (drop header_size h))),
    )
unfolding deobfuscate
deobfuscate-found h long e = rw (lt_not h long, e)
  where
    lt_not : (h : List ℕ) → header_size ≤ length h → ltb (length h) header_size ≡ false
    lt_not h long = ground arith

module _ (d : Draw) (payload rest : List ℕ) (f : Fits d payload) where
  body : List ℕ
  body = xor_bytes d.xor_key payload ++ (d.padding ++ rest)

  length-body : length body ≡ length payload + (length d.padding + length rest)
  unfolding body
  length-body = omega (
    arith,
    length-append (xor_bytes d.xor_key payload) (d.padding ++ rest),
    length-append d.padding rest,
    length-xor_bytes d.xor_key payload,
  )

  take-body : take (length payload) body ≡ xor_bytes d.xor_key payload
  unfolding body
  take-body =
      rw (← length-xor_bytes d.xor_key payload) (take-append (xor_bytes d.xor_key payload) _)

  drop-body : drop (length payload + length d.padding) body ≡ rest
  unfolding body
  drop-body =
      drop-add (length payload) (length d.padding) body
      ∙ ap (drop (length d.padding))
          (rw (← length-xor_bytes d.xor_key payload) (drop-append (xor_bytes d.xor_key payload) _))
      ∙ drop-append d.padding rest

  frame : List ℕ
  frame = header (length payload) d body

  frame-found : search_record 0 frame ≡ found 0
  unfolding frame
  frame-found =
      search-header (length payload) d body (omega (arith, f.whole)) f.padding_most
      ∙ ground (arith, length-body)

  drop-frame : drop (full_record_size frame) frame ≡ rest
  unfolding frame
  drop-frame =
      ap (λ (n : ℕ). drop n (header (length payload) d body)) size
      ∙ drop-add header_size (length payload + length d.padding) (header (length payload) d body)
      ∙ ap (drop (length payload + length d.padding)) (drop-header (length payload) d body)
      ∙ drop-body
    where
      size :
          full_record_size (header (length payload) d body)
          ≡ header_size + (length payload + length d.padding)
      size =
          omega (
            arith,
            header_full_size (length payload) d body (omega (arith, f.whole)) f.padding_most,
          )

  decrypt-frame :
      xor_bytes (byte frame 16) (take (payload_length frame) (drop header_size frame)) ≡ payload
  unfolding frame
  decrypt-frame =
      rw
        (
          header_key (length payload) d body,
          payload_length-header (length payload) d body (omega (arith, f.whole)),
          drop-header (length payload) d body,
          take-body,
        )
        (xor_bytes-xor_bytes d.xor_key payload f.key f.bytes)

  -- A whole record, of a payload and of drawn values that fit its fields, in front of any bytes: it is
  -- taken off the buffer, and its payload is the result (none for an empty payload).
  pub deobfuscate-obfuscate :
      deobfuscate (record { input_buffer = obfuscate d payload ++ rest })
      ≡ (record { input_buffer = rest }, non_empty payload)
  unfolding frame body
  deobfuscate-obfuscate =
      ap (λ (b : List ℕ). deobfuscate (record { input_buffer = b }))
        (obfuscate-append d payload rest)
      ∙ deobfuscate-found frame (omega (arith, length-header (length payload) d body)) frame-found
      ∙ rw (drop-frame, decrypt-frame)
