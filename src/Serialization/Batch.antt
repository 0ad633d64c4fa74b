-- ===== src/Serialization/Batch.antt =====
-- DeserializeBatchIPPacket of fptn/src/fptn-protocol-lib/protocol/yaff/yaff_serializer.cpp. What the
-- library reads from a frame is a parameter.
mod Runs
use ftpn.Packet.Access.{Access, ok, ◌>>=◌, Returns, Returns-ok, Returns-bind, Returns-if, Any}
use ftpn.Serialization.Validator.{Layout, u32, has_valid_yaff_root_offset, validate_batch}
use ftpn.Serialization.Validator.Safety.{has_valid_yaff_root_offset-Returns}
use ftpn.Serialization.Validator.Elements.{validate_batch-Returns}
use ftpn.Prelude.{
  ℕ, ◌+◌, ◌%◌, ◌≤◌, ◌<◌, ◌≡◌, refl, Bool, true, false, not, ◌&&◌, List, [], ◌∷◌, arith, length,
  take, length-take, ==_iff, ◌==◌, if◌then◌else◌, All,
}

-- The views of a message: its type, the blobs of its batch, the payload of its packet.
pub record Reader : Type 0 where
  pub msg_type : List ℕ → ℕ
  pub packets : List ℕ → List (List ℕ)
  pub payload : List ℕ → List ℕ
  pub batch_ip_packet : ℕ
  pub ip_packet : ℕ

abbrev is_empty : List ℕ → Bool
is_empty [] = true
is_empty (b ∷ bs) = false

-- A blob is read if its root offset is inside it.
unfoldable pub collect : Reader → List (List ℕ) → Access (List (List ℕ))
collect r [] = ok []
collect r (raw ∷ blobs) = do
  valid ← has_valid_yaff_root_offset raw
  payloads ← collect r blobs
  ok (
      if valid && r.msg_type raw == r.ip_packet && not (is_empty (r.payload raw))
      then r.payload raw ∷ payloads
      else payloads)

unfoldable pub deserialize_batch_ip_packet : Reader → Layout → List ℕ → Access (List (List ℕ))
unfolding collect
deserialize_batch_ip_packet r y buffer = if length buffer == 0 then ok [] else do
  -- The size as a uint32_t.
  let bytes = take (u32 (length buffer)) buffer
  rooted ← has_valid_yaff_root_offset bytes
  if not rooted then ok [] else do
    valid ← validate_batch y bytes
    if not valid
        then ok []
        else if not (r.msg_type buffer == r.batch_ip_packet)
        then ok []
        else collect r (r.packets buffer)

-- Payloads that are not empty, at most as many as the blobs.
abbrev pub PayloadsOf : List (List ℕ) → List (List ℕ) → Type 0
PayloadsOf blobs payloads =
    All (λ d. is_empty d ≡ false) payloads × (length payloads ≤ length blobs)

collect-Returns :
    (r : Reader) (blobs : List (List ℕ)) → Returns (collect r blobs) (PayloadsOf blobs)
unfolding collect
collect-Returns r [] = Returns-ok _ (tt, omega arith)
collect-Returns r (raw ∷ blobs) =
    Returns-bind _ _ (has_valid_yaff_root_offset-Returns raw) λ valid _.
      Returns-bind _ _ (collect-Returns r blobs) λ payloads h. Returns-ok _ (ground (arith, h))

-- For any received bytes, any layout and whatever the library reads from the frame, the check and the
-- collection read inside the bytes only and end; every payload they give is not empty, and there are
-- at most as many as the frame has blobs.
deserialize_batch_ip_packet-Returns :
    (r : Reader) (y : Layout) (buffer : List ℕ)
    → Returns (deserialize_batch_ip_packet r y buffer) (PayloadsOf (r.packets buffer))
unfolding deserialize_batch_ip_packet
deserialize_batch_ip_packet-Returns r y buffer =
    let bytes = take (u32 (length buffer)) buffer in
    let small : length bytes < 4294967296 =
      omega (arith, length-take (u32 (length buffer)) buffer) in
    let none_of : Returns (ok []) (PayloadsOf (r.packets buffer)) =
      Returns-ok [] (tt, omega arith) in
    Returns-if (length buffer == 0) _ _ (λ _. none_of)
      λ _. Returns-bind _ _ (has_valid_yaff_root_offset-Returns bytes) λ rooted _.
        Returns-if (not rooted) _ _ (λ _. none_of)
          λ _. Returns-bind _ _ (validate_batch-Returns y bytes small) λ valid _.
            Returns-if (not valid) _ _ (λ _. none_of)
              λ _.
                Returns-if (not (r.msg_type buffer == r.batch_ip_packet)) _ _ (λ _. none_of)
                  λ _. collect-Returns r (r.packets buffer)
