-- ===== src/Serialization/Validator/Elements.antt =====
-- What the check of a frame accepts: the table of the packets and each blob it points to.
use ftpn.Packet.Access.{
  Returns-with, Returns-weaken, ok, ◌>>=◌, read_bytes, Returns, Returns-ok, Returns-bind,
  Returns-if, Any, read_bytes-Returns,
}
use ftpn.Serialization.Validator.{
  u32, offset_size, Layout, Span, read_u32_le, size, in_bounds, validate_inner, validate_element,
  validate_elements, validate_packet_array, validate_batch,
}
use ftpn.Prelude.{
  ℕ, zero, suc, ◌+◌, ◌-◌, ◌*◌, ◌/◌, ◌≤◌, ◌<◌, ◌≡◌, ◌⊎◌, inl, inr, ap, ◌∙◌, not, true, false, Option,
  none, some, List, arith, length, ltb, ◌==◌, ==_iff, Bool-cases,
}
use ftpn.Serialization.Validator.Safety.{
  u32-below, read_u32_le-Returns, StringAt, resolve_field-Returns, resolve_string-Returns,
  on_target-Returns, validate_inner-Returns,
}

module _ (y : Layout) (p : List ℕ) where
  -- An element of the table is null, or points to a String inside the bytes whose blob is accepted.
  abbrev pub Accepted : ℕ → ℕ → Type 0
  Accepted table i =
      (element : ℕ) × (read_u32_le p (table + i * offset_size) ≡ ok element)
      × ((element ≡ 0)
          ⊎ ((len : ℕ) × (blob : List ℕ) × (read_u32_le p (table + element) ≡ ok len)
              × (table + element + offset_size + len ≤ length p)
              × (read_bytes p (table + element + offset_size) len ≡ ok blob)
              × (validate_inner blob y ≡ ok true)))

  blob-Accepted :
      (table i element : ℕ)
      → length p < 4294967296
      → read_u32_le p (table + i * offset_size) ≡ ok element
      → (span : Option Span) → StringAt p (table + element) span
      → Returns
          (elim span [
            | none ↦ ok false
            | some s ↦ read_bytes p s.data_offset s.length >>= λ blob. validate_inner blob y
          ])
          (λ v. v ≡ true → Accepted table i)
  blob-Accepted table i element small e none h = Returns-ok _ λ v. absurd (ground (arith, v))
  blob-Accepted table i element small e (some s) (at, len, fits) =
      Returns-bind _ _
        (Returns-with (read_bytes-Returns p s.data_offset s.length (omega (arith, at))))
        λ blob b.
          Returns-weaken (Returns-with (validate_inner-Returns blob y (omega (arith, b.0, at))))
            λ v w yes. (element, e, inr (s.length, blob, len, fits, rw (← at) b.1, w.1 ∙ ap ok yes))

  validate_element-Returns :
      (table i : ℕ)
      → length p < 4294967296
      → table + i * offset_size + 3 < length p
      → Returns (validate_element y p table i) (λ v. v ≡ true → Accepted table i)
  unfolding validate_element
  validate_element-Returns table i small there =
      Returns-bind _ _ (Returns-with (read_u32_le-Returns p (table + i * offset_size) there))
        λ element e.
          Returns-if (element == 0) _ _
            (λ null. Returns-ok _ λ _. (element, e.1, inl (ground (arith, null))))
            λ _.
              Returns-if (ltb (size p - table) element) _ _
                (λ _. Returns-ok _ λ h. absurd (ground (arith, h)))
                λ near. rw (u32-below (table + element) (ground (arith, near))) (
                  Returns-bind _ _ (resolve_string-Returns p (table + element) small)
                    (blob-Accepted table i element small e.1))

  validate_elements-Returns :
      (table left i : ℕ)
      → length p < 4294967296
      → table + (i + left) * offset_size ≤ length p
      → Returns
          (validate_elements y p table left i)
          (λ v. v ≡ true → (j : ℕ) → i ≤ j → j < i + left → Accepted table j)
  unfolding validate_elements
  validate_elements-Returns table zero i small le = Returns-ok _ λ _ j from to. absurd (omega arith)
  validate_elements-Returns table (suc left) i small le =
      Returns-bind _ _ (validate_element-Returns table i small (omega arith)) λ valid here.
        Returns-if valid _ _
          (λ yes.
            Returns-weaken (validate_elements-Returns table left (i + 1) small (omega arith))
              λ v later all j from to. elim (Bool-cases (j == i)) [
                | inl e ↦ rw ((==_iff j i).0 e) (here yes)
                | inr e ↦ later all j (ground (arith, e)) (omega arith)
              ])
          (λ _. Returns-ok _ λ h. absurd (ground (arith, h)))

  -- For any bytes below 4 GiB and any layout the check of a packet array reads inside the bytes only
  -- and ends, and if it accepts then the table lies inside the bytes and each of its elements is null
  -- or points to a String inside the bytes, whose own bytes pass the check of an inner message.
  pub validate_packet_array-Returns :
      (array : ℕ)
      → length p < 4294967296
      → Returns (validate_packet_array y p array) (λ v.
        v ≡ true
        → (count : ℕ) × (read_u32_le p array ≡ ok count)
          × (array + offset_size + count * offset_size ≤ length p)
          × ((j : ℕ) → j < count → Accepted (array + offset_size) j))
  unfolding validate_packet_array
  validate_packet_array-Returns array small =
      Returns-if (not (in_bounds p array offset_size)) _ _
        (λ _. Returns-ok _ λ h. absurd (ground (arith, h)))
        λ fits.
          Returns-bind _ _ (Returns-with (read_u32_le-Returns p array (ground (arith, fits))))
            λ count e.
              Returns-if (ltb (size p / offset_size) count) _ _
                (λ _. Returns-ok _ λ h. absurd (ground (arith, h)))
                λ few.
                  Returns-if
                    (not (in_bounds p (u32 (array + offset_size)) (u32 (count * offset_size)))) _ _
                    (λ _. Returns-ok _ λ h. absurd (ground (arith, h)))
                    λ table.
                      let start = u32-below (array + offset_size) (ground (arith, fits)) in
                      let bytes = u32-below (count * offset_size) (ground (arith, few)) in
                      let inside : array + offset_size + count * offset_size ≤ length p =
                        ground (arith, table, start, bytes) in
                      rw start (
                        Returns-weaken
                          (validate_elements-Returns (array + offset_size) count 0 small
                            (omega (arith, inside)))
                          λ v h yes.
                            (count, e.1, inside, λ j lt. h yes j (omega arith) (omega arith)))

  -- The whole check of a frame below 4 GiB reads inside its bytes only and ends, whatever they are.
  pub validate_batch-Returns : length p < 4294967296 → Returns (validate_batch y p) Any
  unfolding validate_batch
  validate_batch-Returns small =
      Returns-if (not (in_bounds p 0 offset_size)) _ _ (λ _. Returns-ok _ tt)
        λ fits. Returns-bind _ _ (read_u32_le-Returns p 0 (ground (arith, fits))) λ root _.
          Returns-bind _ _ (resolve_field-Returns p root y.batch) λ batch _.
            on_target-Returns p batch _ λ message.
              Returns-bind _ _ (resolve_field-Returns p message y.packets) λ array _.
                on_target-Returns p array _
                  λ target. Returns-weaken (validate_packet_array-Returns target small) λ _ _. tt
