-- ===== src/Serialization/Validator/Runs.antt =====
-- A batch of one packet, in the flat layout.
use ftpn.Packet.Access.{Access, ok, Returns, Any}
use ftpn.Serialization.Validator.{
  Layout, offset_size, read_u32_le, validate_packet_array, validate_batch,
}
use ftpn.Serialization.Validator.Elements.{
  Accepted, validate_packet_array-Returns, validate_batch-Returns,
}
use ftpn.Prelude.{ℕ, ◌+◌, ◌*◌, ◌≤◌, ◌<◌, ◌≡◌, refl, true, List, [], ◌∷◌, arith, length}

abbrev pub layout : Layout
layout = record {
  batch = record { id = 5; flat_offset = 8 };
  packets = record { id = 1; flat_offset = 0 };
  packet = record { id = 4; flat_offset = 4 };
  payload = record { id = 1; flat_offset = 0 };
}

-- An inner message without a packet.
abbrev inner : List ℕ
inner = 4 ∷ 0 ∷ 0 ∷ 0 ∷ 3 ∷ 128 ∷ []

-- The array at 24: one element, 4 bytes behind the start of the table.
abbrev pub frame : List ℕ
frame =
    4 ∷ 0 ∷ 0 ∷ 0 ∷ 27 ∷ 128 ∷ 0 ∷ 0 ∷ 0 ∷ 0 ∷ 0 ∷ 0 ∷ 0 ∷ 0 ∷ 14 ∷ 0 ∷ 0 ∷ 0 ∷ 11 ∷ 128 ∷ 6 ∷ 0 ∷ 0
    ∷ 0 ∷ 1 ∷ 0 ∷ 0 ∷ 0 ∷ 4 ∷ 0 ∷ 0 ∷ 0 ∷ 6 ∷ 0 ∷ 0 ∷ 0 ∷ inner

frame_accepted : validate_batch layout frame ≡ ok true
unfolding validate_batch read_u32_le ftpn.Serialization.Validator.read_u16_le
    ftpn.Packet.Access.read ftpn.Serialization.Validator.resolve_field validate_packet_array
    ftpn.Serialization.Validator.validate_element ftpn.Serialization.Validator.resolve_string
    ftpn.Packet.Access.read_bytes
frame_accepted = refl

validate_packet_array-Returns_example : Returns (validate_packet_array layout frame 24) (λ v.
    v ≡ true
    → (count : ℕ) × (read_u32_le frame 24 ≡ ok count)
      × (24 + offset_size + count * offset_size ≤ length frame)
      × ((j : ℕ) → j < count → Accepted layout frame (24 + offset_size) j))
validate_packet_array-Returns_example = validate_packet_array-Returns layout frame 24 (omega arith)

validate_batch-Returns_example : Returns (validate_batch layout frame) Any
validate_batch-Returns_example = validate_batch-Returns layout frame (omega arith)
