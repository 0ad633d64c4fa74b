-- ===== src/Obfuscator/Tls/Runs.antt =====
-- Runs of the obfuscator, and its theorems at concrete inputs.
use ftpn.Obfuscator.Tls.{TlsObfuscator, Draw, add_data, deobfuscate, obfuscate}
use ftpn.Obfuscator.Tls.Record.{Fits}
use ftpn.Obfuscator.Tls.RoundTrip.{deobfuscate-obfuscate}
use ftpn.Obfuscator.Tls.Chunks.{two_chunks}
use ftpn.Prelude.{
  ℕ, ◌≡◌, refl, none, some, List, [], ◌∷◌, ◌++◌, take, drop, replicate, take-append-drop, arith,
  xor_bytes,
}

abbrev draw : Draw
draw = record { padding = replicate 64 7; xor_key = 90; random_data = 123456789 }

abbrev greeting : List ℕ
greeting = b'h' ∷ b'i' ∷ []

greeting-Fits : Fits draw greeting
greeting-Fits = record {
  key = omega arith;
  padding_least = omega arith;
  padding_most = omega arith;
  whole = omega arith;
  bytes = omega arith;
}

abbrev received : List ℕ → TlsObfuscator
received bytes = record { input_buffer = bytes }

abbrev wire : List ℕ
wire = obfuscate draw greeting

wire_front : take 5 wire ≡ 0x17 ∷ 3 ∷ 3 ∷ 0 ∷ 81 ∷ []
unfolding obfuscate
wire_front = refl

-- Bytes of another protocol are passed on whole.
foreign_passes : deobfuscate (received (replicate 30 1)) ≡ (received [], some (replicate 30 1))
unfolding deobfuscate
foreign_passes = refl

deobfuscate-obfuscate_example :
    deobfuscate (received (wire ++ 1 ∷ 2 ∷ [])) ≡ (received (1 ∷ 2 ∷ []), some greeting)
deobfuscate-obfuscate_example = deobfuscate-obfuscate draw greeting (1 ∷ 2 ∷ []) greeting-Fits

two_chunks_example :
    let first = (add_data (some (take 30 wire)) (received [])).0 in
    let second = (add_data (some (drop 30 wire)) (deobfuscate first).0).0 in
    ((deobfuscate first).1 ≡ none) × (deobfuscate second ≡ (received [], some greeting))
unfolding obfuscate xor_bytes
two_chunks_example =
    two_chunks draw greeting (take 30 wire) (drop 30 wire) greeting-Fits (take-append-drop 30 wire)
      (omega arith) (omega arith)
