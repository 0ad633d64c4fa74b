-- ===== src/Serialization/Batch/Runs.antt =====
-- A reader that gives one blob, and a frame without a batch.
use ftpn.Serialization.Validator.{Layout}
use ftpn.Serialization.Batch.{Reader, deserialize_batch_ip_packet}
use ftpn.Packet.Access.{ok}
use ftpn.Prelude.{ℕ, ◌≡◌, refl, List, [], ◌∷◌}

abbrev layout : Layout
layout = record {
  batch = record { id = 5; flat_offset = 8 };
  packets = record { id = 1; flat_offset = 0 };
  packet = record { id = 4; flat_offset = 4 };
  payload = record { id = 1; flat_offset = 0 };
}

-- An outer message without a batch.
abbrev frame : List ℕ
frame = 4 ∷ 0 ∷ 0 ∷ 0 ∷ 3 ∷ 128 ∷ []

abbrev reader : Reader
reader = record {
  msg_type = λ bytes. 3;
  packets = λ bytes. bytes ∷ [];
  payload = λ bytes. 69 ∷ [];
  batch_ip_packet = 3;
  ip_packet = 3;
}

-- The check accepts it, and what the library reads from it is given back.
accepted : deserialize_batch_ip_packet reader layout frame ≡ ok ((69 ∷ []) ∷ [])
unfolding deserialize_batch_ip_packet ftpn.Serialization.Validator.has_valid_yaff_root_offset
    ftpn.Serialization.Validator.read_u32_le ftpn.Serialization.Validator.read_u16_le
    ftpn.Packet.Access.read ftpn.Serialization.Validator.validate_batch
    ftpn.Serialization.Validator.resolve_field ftpn.Serialization.Validator.validate_packet_array
    ftpn.Serialization.Batch.collect
accepted = refl
