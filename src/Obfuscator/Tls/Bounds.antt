-- ===== src/Obfuscator/Tls/Bounds.antt =====
-- The size of the receiver's buffer, and what CheckProtocol accepts.
use ftpn.Obfuscator.Tls.{
  TlsObfuscator, Draw, Search, foreign, ended, found, header, header_size, max_buffer_size,
  add_data, conclude, full_record_size, search_record, deobfuscate, obfuscate, content_length,
  check_protocol,
}
use ftpn.Obfuscator.Tls.Record.{Fits, obfuscate-append}
use ftpn.Prelude.{
  ℕ, ◌+◌, ◌-◌, ◌≤◌, ◌≡◌, ap, ◌∙◌, Option, none, some, List, [], ◌∷◌, ◌++◌, length, take, drop,
  length-append, length-take, length-drop, arith, leb,
}

add_data_bounded :
    (input : Option (List ℕ)) (t : TlsObfuscator)
    → length t.input_buffer ≤ max_buffer_size
    → length (add_data input t).0.input_buffer ≤ max_buffer_size
unfolding add_data
add_data_bounded none t h = h
add_data_bounded (some []) t h = h
add_data_bounded (some (b ∷ bs)) t h = ground (
  arith,
  length-append t.input_buffer (b ∷ bs),
  length-append t.input_buffer (take (max_buffer_size - length t.input_buffer) (b ∷ bs)),
  length-take (max_buffer_size - length t.input_buffer) (b ∷ bs),
)

conclude_shrinks :
    (buffer : List ℕ) (s : Search) → length (conclude buffer s).0.input_buffer ≤ length buffer
unfolding conclude
conclude_shrinks buffer foreign = omega arith
conclude_shrinks buffer (ended offset) = omega (arith, length-drop offset buffer)
conclude_shrinks buffer (found offset) =
    let h = drop offset buffer in
    omega (
      arith,
      length-append (take offset buffer) (drop (full_record_size h) h),
      length-take offset buffer,
      length-drop offset buffer,
      length-drop (full_record_size h) h,
    )

deobfuscate_shrinks :
    (t : TlsObfuscator) → length (deobfuscate t).0.input_buffer ≤ length t.input_buffer
unfolding deobfuscate
deobfuscate_shrinks t =
    ground (arith, conclude_shrinks t.input_buffer (search_record 0 t.input_buffer))

-- AddData of any input leaves at most 65536 bytes in a buffer that had no more, and Deobfuscate
-- behind it does not make the buffer longer.
pub add_data-deobfuscate_bounded :
    (input : Option (List ℕ)) (t : TlsObfuscator)
    → length t.input_buffer ≤ max_buffer_size
    → (length (add_data input t).0.input_buffer ≤ max_buffer_size)
      × (length (deobfuscate (add_data input t).0).0.input_buffer
          ≤ length (add_data input t).0.input_buffer)
add_data-deobfuscate_bounded input t h =
    (add_data_bounded input t h, deobfuscate_shrinks (add_data input t).0)

check_protocol-header :
    (size : ℕ) (d : Draw) (tail : List ℕ)
    → header_size + size + length d.padding ≤ 65536
    → check_protocol (some (header size d tail)) ≡ leb (15 + size + length d.padding) 16384
unfolding check_protocol header content_length
check_protocol-header size d tail h = ground arith

-- CheckProtocol accepts a written record exactly if its content is at most 16384 bytes long.
pub check_protocol-obfuscate :
    (d : Draw) (payload rest : List ℕ)
    → Fits d payload
    → check_protocol (some (obfuscate d payload ++ rest))
      ≡ leb (15 + length payload + length d.padding) 16384
check_protocol-obfuscate d payload rest f =
    ap (λ (h : List ℕ). check_protocol (some h)) (obfuscate-append d payload rest)
    ∙ check_protocol-header (length payload) d _ f.whole
