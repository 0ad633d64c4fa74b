-- ===== src/Obfuscator/Tls2.antt =====
-- fptn/src/fptn-protocol-lib/https/obfuscator/methods/tls2/tls_obfuscator2.cpp. The random values and
-- the time that Obfuscate takes are arguments, and so is the time that each round of the search loop
-- reads: `now i` at the offset i. `htons` and `htonl` put the high byte first.
pub mod Record
pub mod RoundTrip
pub mod Resync
pub mod Runs
use ftpn.Prelude.{
  ℕ, ◌+◌, ◌-◌, ◌/◌, ◌%◌, ◌^◌, Bool, true, false, not, ◌&&◌, Option, none, some, List, [], ◌∷◌, ◌++◌,
  length, take, drop, byte, read_u16_be, read_u32_be, ◌*◌, xor_bytes, ltb, leb, ◌==◌, if◌then◌else◌,
}

pub record TlsObfuscator2 : Type 0 where
  pub input_buffer : List ℕ

-- kMmaxBufferSize
abbrev pub max_buffer_size : ℕ
max_buffer_size = 262144

-- sizeof(TLSAppDataRecordHeader), which is packed
abbrev pub header_size : ℕ
header_size = 22

-- AddData; `none` is the null pointer.
unfoldable pub add_data : Option (List ℕ) → TlsObfuscator2 → TlsObfuscator2 × Bool
add_data none t = (t, false)
add_data (some []) t = (t, false)
add_data (some (b ∷ bs)) t =
    let input = b ∷ bs in
    let available = max_buffer_size - length t.input_buffer in
    if ltb max_buffer_size (length t.input_buffer + length input)
    then (if ltb 0 available
        then (record { input_buffer = t.input_buffer ++ take available input }, true)
        else (t, false))
    else (record { input_buffer = t.input_buffer ++ input }, true)

-- IsValidTimestamp; both sums are those of uint32_t.
unfoldable pub is_valid_timestamp : ℕ → ℕ → Bool
is_valid_timestamp now timestamp =
    leb timestamp ((now + 120) % 2 ^ 32) && leb now ((timestamp + 120) % 2 ^ 32)

-- is_fptn_protocol, for the header at the front of `h`
unfoldable pub is_fptn : ℕ → List ℕ → Bool
unfolding is_valid_timestamp
is_fptn now h = is_valid_timestamp now (read_u32_be h 13) && byte h 1 == 3 && byte h 2 == 3

abbrev pub payload_length : List ℕ → ℕ
payload_length h = read_u16_be h 18

abbrev pub padding_length : List ℕ → ℕ
padding_length h = read_u16_be h 20

-- is_valid_header
unfoldable pub is_valid_header : List ℕ → Bool
is_valid_header h = leb (8 + 4 + 1 + 2 + 2 + payload_length h + padding_length h) (read_u16_be h 3)

abbrev pub full_record_size : List ℕ → ℕ
full_record_size h = header_size + payload_length h + padding_length h

-- What the search loop ends with: the end with no record at the offset that it reached, or a whole
-- record at an offset.
pub data Search : Type 0 where
  ended found : ℕ → Search

-- The loop, on the part of the buffer behind the search offset.
unfoldable pub search_record : (ℕ → ℕ) → ℕ → List ℕ → Search
unfolding is_fptn is_valid_header
search_record now offset [] = ended offset
search_record now offset (b ∷ bs) =
    let h = b ∷ bs in
    let next = search_record now (offset + 1) bs in
    if ltb (length h) header_size
    then ended offset
    else if not (is_fptn (now offset) h)
    then next
    else if not (is_valid_header h)
    then next
    else if ltb (length h) (full_record_size h)
    then ended offset
    else found offset

abbrev pub non_empty : List ℕ → Option (List ℕ)
non_empty [] = none
non_empty (b ∷ bs) = some (b ∷ bs)

-- What Deobfuscate does behind its loop: a cut of what was searched in vain, or the record taken out,
-- with the bytes before it left in place, and decrypted.
unfoldable pub conclude : List ℕ → Search → TlsObfuscator2 × Option (List ℕ)
conclude buffer (ended offset) = (record { input_buffer = drop offset buffer }, none)
conclude buffer (found offset) =
    let h = drop offset buffer in
    (
      record { input_buffer = take offset buffer ++ drop (full_record_size h) h },
      non_empty (xor_bytes (byte h 17) (take (payload_length h) (drop header_size h))),
    )

-- Deobfuscate
unfoldable pub deobfuscate : (ℕ → ℕ) → TlsObfuscator2 → TlsObfuscator2 × Option (List ℕ)
unfolding search_record conclude
deobfuscate now t =
    if ltb (length t.input_buffer) header_size
    then (t, none)
    else conclude t.input_buffer (search_record now 0 t.input_buffer)

-- The values that Obfuscate draws: `padding` has 4095 to 8192 bytes. `timestamp` is
-- the time that it reads.
pub record Draw : Type 0 where
  pub padding : List ℕ
  pub xor_key : ℕ
  pub random_data : ℕ
  pub timestamp : ℕ

-- total_content_length, a uint16_t
unfoldable pub content_length : ℕ → ℕ → ℕ
content_length size padding = (8 + 4 + 1 + 2 + 2 + size % 2 ^ 16 + padding) % 2 ^ 16

-- The header, and `tail` behind it.
unfoldable pub header : ℕ → Draw → List ℕ → List ℕ
unfolding content_length
header size d tail =
    let content = content_length size (length d.padding) in
    let r = d.random_data in
    0x17
    ∷ 0x03
    ∷ 0x03
    ∷ (content / 256)
    ∷ (content % 256)
    ∷ (r % 256)
    ∷ (r / 2 ^ 8 % 256)
    ∷ (r / 2 ^ 16 % 256)
    ∷ (r / 2 ^ 24 % 256)
    ∷ (r / 2 ^ 32 % 256)
    ∷ (r / 2 ^ 40 % 256)
    ∷ (r / 2 ^ 48 % 256)
    ∷ (r / 2 ^ 56 % 256)
    ∷ (d.timestamp / 2 ^ 24 % 256)
    ∷ (d.timestamp / 2 ^ 16 % 256)
    ∷ (d.timestamp / 2 ^ 8 % 256)
    ∷ (d.timestamp % 256)
    ∷ d.xor_key
    ∷ (size % 2 ^ 16 / 256)
    ∷ (size % 256)
    ∷ (length d.padding / 256 % 256)
    ∷ (length d.padding % 256)
    ∷ tail

-- Obfuscate: the result vector is never empty.
unfoldable pub obfuscate : Draw → List ℕ → List ℕ
unfolding header
obfuscate d payload = header (length payload) d (xor_bytes d.xor_key payload ++ d.padding)

unfoldable pub reset : TlsObfuscator2 → TlsObfuscator2
reset t = record { input_buffer = [] }

-- CheckProtocol; `none` is the null pointer.
unfoldable pub check_protocol : ℕ → Option (List ℕ) → Bool
unfolding is_valid_timestamp
check_protocol now none = false
check_protocol now (some h) =
    not (ltb (length h) header_size)
    && (byte h 0 == 0x17
        && byte h 1 == 3
        && byte h 2 == 3
        && is_valid_timestamp now (read_u32_be h 13)
        && leb (8 + 4 + 1 + 2 + 2 + payload_length h + padding_length h) (read_u16_be h 3)
        && leb (read_u16_be h 3) 16384)

unfoldable pub has_pending_data : TlsObfuscator2 → Bool
has_pending_data t = ltb 0 (length t.input_buffer)
