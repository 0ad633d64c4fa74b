-- ===== src/Obfuscator/Tls2/Runs.antt =====
-- Runs of the second obfuscator, and its theorems at concrete inputs.
use ftpn.Obfuscator.Tls2.{
  TlsObfuscator2, Draw, deobfuscate, obfuscate, is_valid_timestamp, is_fptn, is_valid_header,
}
use ftpn.Obfuscator.Tls2.Record.{Fits}
use ftpn.Obfuscator.Tls2.Resync.{deobfuscate-noise, NoHeaderBelow}
use ftpn.Prelude.{
  ℕ, ◌≡◌, refl, some, List, [], ◌∷◌, ◌++◌, length, replicate, length-replicate, arith,
}

abbrev draw : Draw
draw = record {
  padding = replicate 4095 7;
  xor_key = 90;
  random_data = 123456789;
  timestamp = 1700000000;
}

abbrev greeting : List ℕ
greeting = b'h' ∷ b'i' ∷ []

greeting-Fits : Fits draw greeting
greeting-Fits = record {
  key = omega arith;
  padding_least = omega (arith, length-replicate {0} {A = ℕ} 4095 7);
  padding_most = omega (arith, length-replicate {0} {A = ℕ} 4095 7);
  whole = omega (arith, length-replicate {0} {A = ℕ} 4095 7);
  time = omega arith;
  bytes = omega arith;
}

-- The receiver's clock is a minute ahead.
abbrev clock : ℕ → ℕ
clock i = 1700000060

abbrev noise : List ℕ
noise = 9 ∷ 9 ∷ []

abbrev received : List ℕ → TlsObfuscator2
received bytes = record { input_buffer = bytes }

no_header_in_noise :
    NoHeaderBelow clock (length noise) 0 (noise ++ (obfuscate draw greeting ++ 1 ∷ []))
unfolding obfuscate is_fptn is_valid_header
no_header_in_noise = (refl, (refl, tt))

deobfuscate-noise_example :
    deobfuscate clock (received (noise ++ (obfuscate draw greeting ++ 1 ∷ [])))
    ≡ (received (noise ++ 1 ∷ []), some greeting)
unfolding is_valid_timestamp
deobfuscate-noise_example =
    deobfuscate-noise clock draw greeting noise (1 ∷ []) greeting-Fits refl no_header_in_noise
