-- ===== src/Obfuscator/Tls2/Resync.antt =====
-- What the search loop finds, and CheckProtocol.
use ftpn.Obfuscator.Tls2.{
  Draw, found, header, header_size, is_valid_timestamp, is_fptn, is_valid_header, search_record,
  content_length, check_protocol, obfuscate, non_empty, deobfuscate,
}
use ftpn.Obfuscator.Tls2.Record.{Fits, header_timestamp, length-obfuscate, obfuscate-append}
use ftpn.Obfuscator.Tls2.RoundTrip.{conclude-record, search-record}
use native.Mathlib.Nat.{zero-add}
use ftpn.Prelude.{
  ◌^◌, ℕ, zero, suc, ◌+◌, ◌≤◌, ◌<◌, ◌≡◌, refl, ap, ◌∙◌, Bool, true, false, ◌&&◌, some, List, [],
  ◌∷◌, ◌++◌, length, drop, length-append, drop-append, arith, leb, ltb,
}

-- A header that the loop accepts at an offset.
abbrev pub accepts : (ℕ → ℕ) → ℕ → List ℕ → Bool
accepts now offset h = is_fptn (now offset) h && is_valid_header h

module _ (now : ℕ → ℕ) where
  -- No header is accepted at the first `n` offsets of the buffer.
  abbrev pub NoHeaderBelow : ℕ → ℕ → List ℕ → Type 0
  NoHeaderBelow zero offset buffer = Unit
  NoHeaderBelow (suc n) offset [] = Unit
  NoHeaderBelow (suc n) offset (b ∷ bs) =
      (accepts now offset (b ∷ bs) ≡ false) × NoHeaderBelow n (offset + 1) bs

  search_skips :
      (n offset : ℕ) (buffer : List ℕ)
      → NoHeaderBelow n offset buffer
      → n + header_size ≤ length buffer
      → search_record now offset buffer ≡ search_record now (offset + n) (drop n buffer)
  unfolding search_record
  search_skips zero offset buffer none_before long =
      ap (λ (o : ℕ). search_record now o buffer) (omega arith)
  search_skips (suc n) offset [] none_before long = absurd (omega arith)
  search_skips (suc n) offset (b ∷ bs) none_before long = ground (
    arith,
    none_before,
    search_skips n (offset + 1) bs,
    ap (λ (o : ℕ). search_record now o (drop n bs)) (shift offset n),
  )
    where
      shift : (o k : ℕ) → o + 1 + k ≡ o + suc k
      shift o k = omega arith

module _ (now : ℕ → ℕ) (d : Draw) (payload noise rest : List ℕ) (f : Fits d payload)
    (in_time : is_valid_timestamp (now (length noise)) d.timestamp ≡ true) where
  long : length noise + header_size ≤ length (noise ++ (obfuscate d payload ++ rest))
  long = omega (
    arith,
    length-append noise (obfuscate d payload ++ rest),
    length-append (obfuscate d payload) rest,
    length-obfuscate d payload,
  )

  search-noise :
      NoHeaderBelow now (length noise) 0 (noise ++ (obfuscate d payload ++ rest))
      → search_record now 0 (noise ++ (obfuscate d payload ++ rest)) ≡ found (length noise)
  search-noise none_before =
      search_skips now (length noise) 0 (noise ++ (obfuscate d payload ++ rest)) none_before long
      ∙ ap
          (λ (o : ℕ).
            search_record now o (drop (length noise) (noise ++ (obfuscate d payload ++ rest))))
          (zero-add (length noise))
      ∙ ap (search_record now (length noise)) (drop-append noise (obfuscate d payload ++ rest))
      ∙ search-record now (length noise) d payload rest f in_time

  -- The loop passes over bytes at which it accepts no header, and reads back the record behind them,
  -- when the time that it reads there is one that the record is valid at. The bytes stay in the
  -- buffer. With no such bytes this is the round trip of Obfuscate and Deobfuscate.
  pub deobfuscate-noise :
      NoHeaderBelow now (length noise) 0 (noise ++ (obfuscate d payload ++ rest))
      → deobfuscate now (record { input_buffer = noise ++ (obfuscate d payload ++ rest) })
        ≡ (record { input_buffer = noise ++ rest }, non_empty payload)
  unfolding deobfuscate
  deobfuscate-noise none_before =
      rw (not_short, search-noise none_before)
        (conclude-record now (length noise) d payload rest f in_time noise refl)
    where
      not_short : ltb (length (noise ++ (obfuscate d payload ++ rest))) header_size ≡ false
      not_short = ground (arith, long)

check_protocol-header :
    (now size : ℕ) (d : Draw) (tail : List ℕ)
    → 17 + size + length d.padding < 65536
    → length d.padding ≤ 8192
    → d.timestamp < 2 ^ 32
    → check_protocol now (some (header size d tail))
      ≡ (is_valid_timestamp now d.timestamp && leb (17 + size + length d.padding) 16384)
unfolding check_protocol header content_length
check_protocol-header now size d tail h k t = ground (arith, header_timestamp size d tail t)

-- CheckProtocol accepts a written record, at the front of any bytes, exactly if its time is valid at
-- the receiver and its content is at most 16384 bytes long.
pub check_protocol-obfuscate_in_time :
    (now : ℕ) (d : Draw) (payload rest : List ℕ)
    → Fits d payload
    → check_protocol now (some (obfuscate d payload ++ rest))
      ≡ (is_valid_timestamp now d.timestamp && leb (17 + length payload + length d.padding) 16384)
check_protocol-obfuscate_in_time now d payload rest f =
    ap (λ (h : List ℕ). check_protocol now (some h)) (obfuscate-append d payload rest)
    ∙ check_protocol-header now (length payload) d _ f.whole f.padding_most f.time
