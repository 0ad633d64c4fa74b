-- ===== src/Obfuscator/Tls/Record.antt =====
-- One record at the front of the buffer.
use mathlib.Core.List.{append_assoc}
use ftpn.Obfuscator.Tls.{
  Draw, header, header_size, content_length, is_fptn, is_valid_header, payload_length,
  full_record_size, search_record, found, ended, obfuscate,
}
use ftpn.Prelude.{
  ℕ, ◌+◌, ◌≤◌, ◌<◌, ◌≡◌, refl, ap, ◌∙◌, true, List, [], ◌∷◌, ◌++◌, length, drop, length-append,
  byte, xor_bytes, length-xor_bytes, IsByte, All, arith, ltb, if◌then◌else◌,
}

-- What Obfuscate can frame: the whole record fits into the receiver's buffer, the draws are in the
-- ranges that the source gives them.
pub record Fits (d : Draw) (payload : List ℕ) : Type 0 where
  pub key : d.xor_key < 256
  pub padding_least : 64 ≤ length d.padding
  pub padding_most : length d.padding ≤ 255
  pub whole : header_size + length payload + length d.padding ≤ 65536
  pub bytes : All IsByte payload

search_valid :
    (offset : ℕ) (h : List ℕ)
    → header_size ≤ length h
    → is_fptn h ≡ true
    → is_valid_header h ≡ true
    → search_record offset h
      ≡ (if ltb (length h) (full_record_size h) then ended offset else found offset)
unfolding search_record
search_valid offset [] long f v = absurd (omega arith)
search_valid offset (b ∷ bs) long f v = ground arith

module _ (size : ℕ) (d : Draw) (tail : List ℕ) where
  pub payload_length-header : size < 65536 → payload_length (header size d tail) ≡ size
  unfolding header
  payload_length-header h = omega arith

  pub header_full_size :
      size < 65536
      → length d.padding ≤ 255
      → full_record_size (header size d tail) ≡ header_size + size + length d.padding
  unfolding header
  header_full_size h k = omega arith

  pub header-is_fptn : is_fptn (header size d tail) ≡ true
  unfolding header is_fptn
  header-is_fptn = refl

  header-is_valid :
      size + length d.padding + header_size ≤ 65536 → is_valid_header (header size d tail) ≡ true
  unfolding header is_valid_header content_length
  header-is_valid h = ground arith

  pub length-header : length (header size d tail) ≡ header_size + length tail
  unfolding header
  length-header = omega arith

  -- The parts of a record: the header's length, the payload and what follows the record.
  pub drop-header : drop header_size (header size d tail) ≡ tail
  unfolding header
  drop-header = refl

  pub header_key : byte (header size d tail) 16 ≡ d.xor_key
  unfolding header
  header_key = refl

  pub header-append : (rest : List ℕ) → header size d tail ++ rest ≡ header size d (tail ++ rest)
  unfolding header
  header-append rest = refl

  -- The search stops at once at such a header: with the record, or to wait for the rest of it.
  pub search-header :
      size + length d.padding + header_size ≤ 65536
      → length d.padding ≤ 255
      → search_record 0 (header size d tail)
        ≡ (if ltb (length tail) (size + length d.padding) then ended 0 else found 0)
  search-header h k =
      search_valid 0 (header size d tail) (omega (arith, length-header)) header-is_fptn
        (header-is_valid h)
      ∙ rw (length-header, header_full_size (omega arith) k) (ground arith)

pub length-obfuscate :
    (d : Draw) (payload : List ℕ)
    → length (obfuscate d payload) ≡ header_size + length payload + length d.padding
unfolding obfuscate
length-obfuscate d payload = omega (
  arith,
  length-header (length payload) d (xor_bytes d.xor_key payload ++ d.padding),
  length-append (xor_bytes d.xor_key payload) d.padding,
  length-xor_bytes d.xor_key payload,
)

-- A record in front of any bytes, with its payload and what is behind it in view.
pub obfuscate-append :
    (d : Draw) (payload rest : List ℕ)
    → obfuscate d payload ++ rest
      ≡ header (length payload) d (xor_bytes d.xor_key payload ++ (d.padding ++ rest))
unfolding obfuscate
obfuscate-append d payload rest =
    header-append (length payload) d (xor_bytes d.xor_key payload ++ d.padding) rest
    ∙ ap (header (length payload) d) (append_assoc (xor_bytes d.xor_key payload) d.padding rest)
