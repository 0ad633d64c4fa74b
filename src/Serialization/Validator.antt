-- ===== src/Serialization/Validator.antt =====
-- YaffBatchValidator of fptn/src/fptn-protocol-lib/protocol/yaff/yaff_serializer.cpp. A validator is
-- its bytes; their number is size_. Positions are uint32_t. A pointer that is moved to a blob stands
-- for the blob's bytes only.
pub mod Safety
pub mod Elements
mod Runs
use Prim.Native.Nat.{bit_and, bit_or}
use ftpn.Packet.Access.{Access, ok, ◌>>=◌, read, read_bytes}
use ftpn.Prelude.{
  ℕ, zero, suc, ◌+◌, ◌-◌, ◌*◌, ◌/◌, ◌%◌, Bool, true, false, not, ◌&&◌, Option, none, some, List,
  length, ltb, leb, ◌==◌, if◌then◌else◌,
}

abbrev pub u32 : ℕ → ℕ
u32 n = n % 4294967296

abbrev pub header_size : ℕ
header_size = 2

abbrev pub offset_size : ℕ
offset_size = 4

abbrev pub flat_layout_bit : ℕ
flat_layout_bit = 0x8000

-- The generated number of a field and its offset in the flat layout.
pub record Field : Type 0 where
  pub id : ℕ
  pub flat_offset : ℕ

pub record Layout : Type 0 where
  pub batch : Field
  pub packets : Field
  pub packet : Field
  pub payload : Field

abbrev pub flat_typed_limit : ℕ → ℕ
flat_typed_limit id = bit_or (id * 4) 0x8003 % 65536

-- The words are little-endian.
unfoldable pub read_u16_le : List ℕ → ℕ → Access ℕ
read_u16_le p i = do low ← read p i; high ← read p (i + 1); ok (low + high * 256)

unfoldable pub read_u32_le : List ℕ → ℕ → Access ℕ
read_u32_le p i = do low ← read_u16_le p i; high ← read_u16_le p (i + 2); ok (low + high * 65536)

unfoldable pub has_valid_yaff_root_offset : List ℕ → Access Bool
has_valid_yaff_root_offset p =
    if ltb (length p) offset_size
    then ok false
    else do offset ← read_u32_le p 0; ok (ltb offset (length p))

-- The bytes of a String, or of an array's header and data.
pub record Span : Type 0 where
  pub data_offset : ℕ
  pub length : ℕ

module _ (p : List ℕ) where
  abbrev pub size : ℕ
  size = length p

  abbrev pub in_bounds : ℕ → ℕ → Bool
  in_bounds pos len = leb pos size && leb len (size - pos)

  -- `none` is the result false; a target of 0 is an absent field.
  unfoldable pub resolve_field : ℕ → Field → Access (Option ℕ)
  resolve_field message field = if not (in_bounds message header_size) then ok none else do
    typed_limit ← read_u16_le p message
    if bit_and typed_limit flat_layout_bit == 0
        then ok none
        else if leb typed_limit (flat_typed_limit field.id)
        then ok (some 0)
        else do
          let pointer_offset = u32 (message + header_size + field.flat_offset)
          if not (in_bounds pointer_offset offset_size) then ok none else do
            pointer ← read_u32_le p pointer_offset
            if pointer == 0
                then ok (some 0)
                else if ltb (size - message) pointer
                then ok none
                else ok (some (u32 (message + pointer)))

  unfoldable pub resolve_string : ℕ → Access (Option Span)
  resolve_string offset = if not (in_bounds offset offset_size) then ok none else do
    len ← read_u32_le p offset
    let data_offset = u32 (offset + offset_size)
    ok (
        if in_bounds data_offset len
        then some (record { data_offset = data_offset; length = len })
        else none)

  -- An absent target ends the check with true, a malformed one with false.
  abbrev pub on_target : Option ℕ → (ℕ → Access Bool) → Access Bool
  on_target none k = ok false
  on_target (some target) k = if target == 0 then ok true else k target

  unfoldable pub validate_inner : Layout → Access Bool
  validate_inner y = if not (in_bounds 0 offset_size) then ok false else do
    root ← read_u32_le p 0
    packet ← resolve_field root y.packet
    on_target packet λ message. do
      payload ← resolve_field message y.payload
      on_target payload
          λ target. do span ← resolve_string target; ok (elim span [ none ↦ false | some _ ↦ true ])

module _ (y : Layout) (p : List ℕ) where
  -- The body of the loop for one element of the table: go on, or return false.
  unfoldable pub validate_element : ℕ → ℕ → Access Bool
  unfolding validate_inner
  validate_element table i = do
    element ← read_u32_le p (table + i * offset_size)
    if element == 0 then ok true else if ltb (size p - table) element then ok false else do
      span ← resolve_string p (u32 (table + element))
      elim span [
        | none ↦ ok false
        | some s ↦ do blob ← read_bytes p s.data_offset s.length; validate_inner blob y
      ]

  -- The elements from number `i` on, of which `left` are left.
  unfoldable pub validate_elements : ℕ → ℕ → ℕ → Access Bool
  validate_elements table zero i = ok true
  validate_elements table (suc left) i = do
    valid ← validate_element table i
    if valid then validate_elements table left (i + 1) else ok false

  unfoldable pub validate_packet_array : ℕ → Access Bool
  unfolding validate_elements
  validate_packet_array array = if not (in_bounds p array offset_size) then ok false else do
    count ← read_u32_le p array
    let table = u32 (array + offset_size)
    if ltb (size p / offset_size) count
        then ok false
        else if not (in_bounds p table (u32 (count * offset_size)))
        then ok false
        else validate_elements table count 0

  unfoldable pub validate_batch : Access Bool
  validate_batch = if not (in_bounds p 0 offset_size) then ok false else do
    root ← read_u32_le p 0
    batch ← resolve_field p root y.batch
    on_target p batch λ message. do
      array ← resolve_field p message y.packets
      on_target p array validate_packet_array
