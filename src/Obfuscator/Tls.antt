-- ===== src/Obfuscator/Tls.antt =====
-- fptn/src/fptn-protocol-lib/https/obfuscator/methods/tls/tls_obfuscator.cpp. The random values that
-- Obfuscate draws are arguments. `htons` puts the high byte first; a byte vector is a list.
pub mod Record
pub mod RoundTrip
pub mod Chunks
pub mod Bounds
pub mod Runs
use ftpn.Prelude.{
  ℕ, ◌+◌, ◌-◌, ◌/◌, ◌%◌, ◌^◌, Bool, true, false, not, ◌&&◌, Option, none, some, List, [], ◌∷◌, ◌++◌,
  length, take, drop, byte, read_u16_be, xor_bytes, ltb, leb, ◌==◌, if◌then◌else◌,
}

pub record TlsObfuscator : Type 0 where
  pub input_buffer : List ℕ

-- kMmaxBufferSize
abbrev pub max_buffer_size : ℕ
max_buffer_size = 65536

-- sizeof(TLSAppDataRecordHeader), which is packed
abbrev pub header_size : ℕ
header_size = 20

-- AddData; `none` is the null pointer.
unfoldable pub add_data : Option (List ℕ) → TlsObfuscator → TlsObfuscator × Bool
add_data none t = (t, false)
add_data (some []) t = (t, false)
add_data (some (b ∷ bs)) t =
    let input = b ∷ bs in
    let available = max_buffer_size - length t.input_buffer in
    if ltb max_buffer_size (length t.input_buffer + length input)
    then (if ltb 0 available
        then (record { input_buffer = t.input_buffer ++ take available input }, true)
        else (t, false))
    else (record { input_buffer = t.input_buffer ++ input }, true)

-- is_fptn_protocol, for the header at the front of `h`
unfoldable pub is_fptn : List ℕ → Bool
is_fptn h = read_u16_be h 13 == 0x9763 && byte h 15 == 1 && byte h 1 == 3 && byte h 2 == 3

-- is_valid_header
unfoldable pub is_valid_header : List ℕ → Bool
unfolding is_fptn
is_valid_header h = is_fptn h && leb (11 + 1 + 2 + 1) (read_u16_be h 3)

abbrev pub payload_length : List ℕ → ℕ
payload_length h = read_u16_be h 17

abbrev pub full_record_size : List ℕ → ℕ
full_record_size h = header_size + payload_length h + byte h 19

-- What the search loop ends with. `foreign` is the early return, `ended` the end of the loop with no
-- record at the offset that it reached, `found` a whole record at an offset.
pub data Search : Type 0 where
  foreign : Search
  ended found : ℕ → Search

-- The loop, on the part of the buffer behind the search offset.
unfoldable pub search_record : ℕ → List ℕ → Search
unfolding is_valid_header
search_record offset [] = ended offset
search_record offset (b ∷ bs) =
    let h = b ∷ bs in
    let next = search_record (offset + 1) bs in
    if ltb (length h) header_size
    then ended offset
    else if not (is_fptn h)
    then foreign
    else if not (is_valid_header h)
    then next
    else if ltb (length h) (full_record_size h)
    then ended offset
    else found offset

abbrev pub non_empty : List ℕ → Option (List ℕ)
non_empty [] = none
non_empty (b ∷ bs) = some (b ∷ bs)

-- What Deobfuscate does behind its loop: the foreign bytes as they are, a cut of what was searched in
-- vain, or the record taken out and decrypted.
unfoldable pub conclude : List ℕ → Search → TlsObfuscator × Option (List ℕ)
conclude buffer foreign = (record { input_buffer = [] }, some buffer)
conclude buffer (ended offset) = (record { input_buffer = drop offset buffer }, none)
conclude buffer (found offset) =
    let h = drop offset buffer in
    (
      record { input_buffer = take offset buffer ++ drop (full_record_size h) h },
      non_empty (xor_bytes (byte h 16) (take (payload_length h) (drop header_size h))),
    )

-- Deobfuscate
unfoldable pub deobfuscate : TlsObfuscator → TlsObfuscator × Option (List ℕ)
unfolding search_record conclude
deobfuscate t =
    if ltb (length t.input_buffer) header_size
    then (t, none)
    else conclude t.input_buffer (search_record 0 t.input_buffer)

-- The values that Obfuscate draws: `padding` has 64 to 255 bytes.
pub record Draw : Type 0 where
  pub padding : List ℕ
  pub xor_key : ℕ
  pub random_data : ℕ

-- total_content_length, a uint16_t
unfoldable pub content_length : ℕ → ℕ → ℕ
content_length size padding = (8 + 2 + 1 + 1 + 2 + 1 + size % 2 ^ 16 + padding) % 2 ^ 16

-- The header, and `tail` behind it.
unfoldable pub header : ℕ → Draw → List ℕ → List ℕ
unfolding content_length
header size d tail =
    let content = content_length size (length d.padding) in
    let r = d.random_data in
    0x17
    ∷ 0x03
    ∷ 0x03
    ∷ (content / 256)
    ∷ (content % 256)
    ∷ (r % 256)
    ∷ (r / 2 ^ 8 % 256)
    ∷ (r / 2 ^ 16 % 256)
    ∷ (r / 2 ^ 24 % 256)
    ∷ (r / 2 ^ 32 % 256)
    ∷ (r / 2 ^ 40 % 256)
    ∷ (r / 2 ^ 48 % 256)
    ∷ (r / 2 ^ 56 % 256)
    ∷ 0x97
    ∷ 0x63
    ∷ 0x01
    ∷ d.xor_key
    ∷ (size % 2 ^ 16 / 256)
    ∷ (size % 256)
    ∷ (length d.padding % 256)
    ∷ tail

-- Obfuscate: the result vector is never empty.
unfoldable pub obfuscate : Draw → List ℕ → List ℕ
unfolding header
obfuscate d payload = header (length payload) d (xor_bytes d.xor_key payload ++ d.padding)

unfoldable pub reset : TlsObfuscator → TlsObfuscator
reset t = record { input_buffer = [] }

-- CheckProtocol; `none` is the null pointer. The subtractions are those of int: the test before them
-- makes content_length 15 or more.
unfoldable pub check_protocol : Option (List ℕ) → Bool
check_protocol none = false
check_protocol (some h) =
    not (ltb (length h) header_size)
    && (byte h 0 == 0x17
        && byte h 1 == 3
        && byte h 2 == 3
        && byte h 15 == 1
        && read_u16_be h 13 == 0x9763
        && leb (11 + 1 + 2 + 1) (read_u16_be h 3)
        && leb (read_u16_be h 3) 16384
        && leb (payload_length h) (read_u16_be h 3 - 11 - 1 - 2 - 1))

unfoldable pub has_pending_data : TlsObfuscator → Bool
has_pending_data t = ltb 0 (length t.input_buffer)
