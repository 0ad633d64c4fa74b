-- ===== src/Obfuscator/Tls2/RoundTrip.antt =====
-- Deobfuscate reads back what Obfuscate wrote, record by record.
use ftpn.Obfuscator.Tls2.{
  is_valid_timestamp, Draw, header, header_size, payload_length, full_record_size, search_record,
  found, conclude, non_empty, obfuscate,
}
use ftpn.Obfuscator.Tls2.Record.{
  Fits, search-header, payload_length-header, header_full_size, drop-header, header_key,
  obfuscate-append,
}
use ftpn.Prelude.{
  ℕ, ◌+◌, ◌≡◌, ap, ◌∙◌, true, List, ◌++◌, length, take, drop, length-append, take-append,
  drop-append, drop-add, byte, xor_bytes, length-xor_bytes, xor_bytes-xor_bytes, arith,
}

module _ (now : ℕ → ℕ) (offset : ℕ) (d : Draw) (payload rest : List ℕ) (f : Fits d payload)
    (in_time : is_valid_timestamp (now offset) d.timestamp ≡ true) where
  body : List ℕ
  body = xor_bytes d.xor_key payload ++ (d.padding ++ rest)

  length-body : length body ≡ length payload + (length d.padding + length rest)
  unfolding body
  length-body = omega (
    arith,
    length-append (xor_bytes d.xor_key payload) (d.padding ++ rest),
    length-append d.padding rest,
    length-xor_bytes d.xor_key payload,
  )

  take-body : take (length payload) body ≡ xor_bytes d.xor_key payload
  unfolding body
  take-body =
      rw (← length-xor_bytes d.xor_key payload) (take-append (xor_bytes d.xor_key payload) _)

  drop-body : drop (length payload + length d.padding) body ≡ rest
  unfolding body
  drop-body =
      drop-add (length payload) (length d.padding) body
      ∙ ap (drop (length d.padding))
          (rw (← length-xor_bytes d.xor_key payload) (drop-append (xor_bytes d.xor_key payload) _))
      ∙ drop-append d.padding rest

  frame : List ℕ
  frame = header (length payload) d body

  frame-found : search_record now offset frame ≡ found offset
  unfolding frame
  frame-found =
      search-header (length payload) d body now offset (omega (arith, f.whole)) f.padding_most
        f.time in_time
      ∙ ground (arith, length-body)

  drop-frame : drop (full_record_size frame) frame ≡ rest
  unfolding frame
  drop-frame =
      ap (λ (n : ℕ). drop n (header (length payload) d body)) size
      ∙ drop-add header_size (length payload + length d.padding) (header (length payload) d body)
      ∙ ap (drop (length payload + length d.padding)) (drop-header (length payload) d body)
      ∙ drop-body
    where
      size :
          full_record_size (header (length payload) d body)
          ≡ header_size + (length payload + length d.padding)
      size =
          omega (
            arith,
            header_full_size (length payload) d body (omega (arith, f.whole)) f.padding_most,
          )

  decrypt-frame :
      xor_bytes (byte frame 17) (take (payload_length frame) (drop header_size frame)) ≡ payload
  unfolding frame
  decrypt-frame =
      rw
        (
          header_key (length payload) d body,
          payload_length-header (length payload) d body (omega (arith, f.whole)),
          drop-header (length payload) d body,
          take-body,
        )
        (xor_bytes-xor_bytes d.xor_key payload f.key f.bytes)

  -- The record behind `offset` bytes of noise, found there: it is taken out, and the noise stays.
  pub conclude-record :
      (noise : List ℕ)
      → length noise ≡ offset
      → conclude (noise ++ (obfuscate d payload ++ rest)) (found offset)
        ≡ (record { input_buffer = noise ++ rest }, non_empty payload)
  unfolding conclude frame body
  conclude-record noise e = rw (← e) (
      rw (
        obfuscate-append d payload rest,
        take-append noise frame,
        drop-append noise frame,
        drop-frame,
        decrypt-frame,
      ))

  pub search-record : search_record now offset (obfuscate d payload ++ rest) ≡ found offset
  unfolding frame body
  search-record = ap (search_record now offset) (obfuscate-append d payload rest) ∙ frame-found
