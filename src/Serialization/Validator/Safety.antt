-- ===== src/Serialization/Validator/Safety.antt =====
-- The check of a frame reads inside the bytes it was given, for any frame and any layout.
use ftpn.Packet.Access.{
  Returns-with, Access, ok, Returns, Returns-ok, Returns-bind, Returns-if, Any, read-Returns,
}
use Prim.Native.Nat.{bit_and}
use native.Mathlib.Nat.{mod-eq_of_lt}
use ftpn.Serialization.Validator.{
  flat_layout_bit, flat_typed_limit, u32, header_size, offset_size, Field, Layout, Span,
  read_u16_le, read_u32_le, has_valid_yaff_root_offset, size, in_bounds, resolve_field,
  resolve_string, on_target, validate_inner,
}
use ftpn.Prelude.{
  ℕ, ◌+◌, ◌-◌, ◌≤◌, ◌<◌, ◌≡◌, not, Bool, Option, none, some, List, arith, length, ltb, leb, ◌==◌,
  if◌then◌else◌,
}

read_u16_le-Returns : (p : List ℕ) (i : ℕ) → i + 1 < length p → Returns (read_u16_le p i) Any
unfolding read_u16_le
read_u16_le-Returns p i lt =
    Returns-bind _ _ (read-Returns p i (omega arith))
      λ low _. Returns-bind _ _ (read-Returns p (i + 1) lt) λ high _. Returns-ok _ tt

pub read_u32_le-Returns : (p : List ℕ) (i : ℕ) → i + 3 < length p → Returns (read_u32_le p i) Any
unfolding read_u32_le
read_u32_le-Returns p i lt = Returns-bind _ _ (read_u16_le-Returns p i (omega arith)) λ low _.
    Returns-bind _ _ (read_u16_le-Returns p (i + 2) (omega arith)) λ high _. Returns-ok _ tt

pub u32-below : (n : ℕ) → n < 4294967296 → u32 n ≡ n
u32-below n h = mod-eq_of_lt h

pub has_valid_yaff_root_offset-Returns : (p : List ℕ) → Returns (has_valid_yaff_root_offset p) Any
unfolding has_valid_yaff_root_offset
has_valid_yaff_root_offset-Returns p =
    Returns-if (ltb (length p) offset_size) _ _ (λ _. Returns-ok _ tt)
      λ fits.
        Returns-bind _ _ (read_u32_le-Returns p 0 (ground (arith, fits)))
          λ offset _. Returns-ok _ tt

-- A String at a position: its length in front of its bytes, all inside the buffer.
abbrev pub StringAt : List ℕ → ℕ → Option Span → Type 0
StringAt p offset none = Unit
StringAt p offset (some s) =
    (s.data_offset ≡ offset + offset_size)
    × (read_u32_le p offset ≡ ok s.length)
    × (offset + offset_size + s.length ≤ length p)

module _ (p : List ℕ) where
  pub resolve_field-Returns :
      (message : ℕ) (field : Field) → Returns (resolve_field p message field) Any
  unfolding resolve_field
  resolve_field-Returns message field =
      Returns-if (not (in_bounds p message header_size)) _ _ (λ _. Returns-ok _ tt)
        λ fits.
          Returns-bind _ _ (read_u16_le-Returns p message (ground (arith, fits))) λ typed_limit _.
            Returns-if (bit_and typed_limit flat_layout_bit == 0) _ _ (λ _. Returns-ok _ tt)
              λ _.
                Returns-if (leb typed_limit (flat_typed_limit field.id)) _ _ (λ _. Returns-ok _ tt)
                  λ _.
                    Returns-if
                      (not
                        (in_bounds p (u32 (message + header_size + field.flat_offset)) offset_size))
                      _ _ (λ _. Returns-ok _ tt)
                      λ there.
                        Returns-bind _ _
                          (read_u32_le-Returns p (u32 (message + header_size + field.flat_offset))
                            (ground (arith, there)))
                          λ pointer _.
                            Returns-if (pointer == 0) _ _ (λ _. Returns-ok _ tt)
                              λ _.
                                Returns-if (ltb (size p - message) pointer) _ _
                                  (λ _. Returns-ok _ tt) λ _. Returns-ok _ tt

  pub resolve_string-Returns :
      (offset : ℕ) → length p < 4294967296 → Returns (resolve_string p offset) (StringAt p offset)
  unfolding resolve_string
  resolve_string-Returns offset small =
      Returns-if (not (in_bounds p offset offset_size)) _ _ (λ _. Returns-ok _ tt)
        λ fits.
          Returns-bind _ _ (Returns-with (read_u32_le-Returns p offset (ground (arith, fits))))
            λ len e. Returns-ok _ (at_string len (ground (arith, fits)) e.1)
    where
      at_string :
          (len : ℕ)
          → offset + offset_size ≤ length p
          → read_u32_le p offset ≡ ok len
          → StringAt p offset (
              if in_bounds p (u32 (offset + offset_size)) len
              then some (record { data_offset = u32 (offset + offset_size); length = len })
              else none)
      at_string len fits e = rw (u32-below (offset + offset_size) (omega arith)) (ground (arith, e))

  pub on_target-Returns :
      (target : Option ℕ) (k : ℕ → Access Bool)
      → ((t : ℕ) → Returns (k t) Any)
      → Returns (on_target p target k) Any
  on_target-Returns none k h = Returns-ok _ tt
  on_target-Returns (some t) k h = Returns-if (t == 0) _ _ (λ _. Returns-ok _ tt) λ _. h t

  pub validate_inner-Returns :
      (y : Layout) → length p < 4294967296 → Returns (validate_inner p y) Any
  unfolding validate_inner
  validate_inner-Returns y small =
      Returns-if (not (in_bounds p 0 offset_size)) _ _ (λ _. Returns-ok _ tt)
        λ fits. Returns-bind _ _ (read_u32_le-Returns p 0 (ground (arith, fits))) λ root _.
          Returns-bind _ _ (resolve_field-Returns root y.packet) λ packet _.
            on_target-Returns packet _ λ message.
              Returns-bind _ _ (resolve_field-Returns message y.payload) λ payload _.
                on_target-Returns payload _ λ target.
                  Returns-bind _ _ (resolve_string-Returns target small) λ span _. Returns-ok _ tt
