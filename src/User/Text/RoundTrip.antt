-- ===== src/User/Text/RoundTrip.antt =====
-- What was written is read back: words, numbers and lines.
use ftpn.Filter.DomainBlacklist.{is_space}
use ftpn.User.Text.{
  add_to_line, lines_of, skip_space, break_space, read_word, is_digit, read_digits, pos,
  starts_with_digit, read_unsigned, read_signed, read_int, write_digits, write_int,
}
use ftpn.Prelude.{
  ℕ, zero, suc, ◌+◌, ◌*◌, ◌/◌, ◌%◌, ◌≤◌, ◌<◌, ◌≡◌, refl, ap, ◌∙◌, inl, inr, true, false, some, List,
  [], ◌∷◌, ◌++◌, arith, ltb, All, ◌==◌, le→leb, Bool-cases,
}

-- A word: no blanks.
abbrev pub NoSpace : List ℕ → Type 0
NoSpace s = All (λ c. is_space c ≡ false) s

break_space-word : (w t : List ℕ) → NoSpace w → break_space (w ++ 32 ∷ t) ≡ (w, 32 ∷ t)
unfolding break_space is_space
break_space-word [] t h = refl
break_space-word (c ∷ w) t h = ground (arith, break_space-word w t h.1, h.0)

break_space-end : (w : List ℕ) → NoSpace w → break_space w ≡ (w, [])
unfolding break_space
break_space-end [] h = refl
break_space-end (c ∷ w) h = ground (arith, break_space-end w h.1, h.0)

-- A word in front of a blank, with or without one before it.
pub read_word-word :
    (c : ℕ) (w t : List ℕ) → NoSpace (c ∷ w) → read_word ((c ∷ w) ++ 32 ∷ t) ≡ some (c ∷ w, 32 ∷ t)
unfolding read_word skip_space
read_word-word c w t h = let e = break_space-word (c ∷ w) t h in rw h.0 (rw e refl)

pub read_word-space : (s : List ℕ) → read_word (32 ∷ s) ≡ read_word s
unfolding read_word skip_space is_space
read_word-space s = refl

pub read_word-end : (c : ℕ) (w : List ℕ) → NoSpace (c ∷ w) → read_word (c ∷ w) ≡ some (c ∷ w, [])
unfolding read_word skip_space
read_word-end c w h = let e = break_space-end (c ∷ w) h in rw h.0 (rw e refl)

-- 10 to that power.
limit10 : ℕ → ℕ
limit10 zero = 1
limit10 (suc k) = 10 * limit10 k

read_digits-digit :
    (n m : ℕ) (s : List ℕ) → n < 10 → read_digits ((b'0' + n) ∷ s) m ≡ read_digits s (m * 10 + n)
unfolding read_digits
read_digits-digit n m s h = ground arith

read_digits-write_digits :
    (fuel n : ℕ) (s : List ℕ)
    → n < limit10 fuel
    → read_digits (write_digits fuel n s) 0 ≡ read_digits s n
unfolding write_digits limit10
read_digits-write_digits zero n s h = ap (λ (m : ℕ). read_digits s m) (omega (arith, h))
read_digits-write_digits (suc fuel) n s h = elim (Bool-cases (ltb n 10)) [
  | inl e ↦
      rw e (
        read_digits-digit n 0 s (ground (arith, e)) ∙ ap (λ (m : ℕ). read_digits s m) (omega arith))
  | inr e ↦ rw e (
      read_digits-write_digits fuel (n / 10) ((b'0' + n % 10) ∷ s) (omega (arith, h))
      ∙ read_digits-digit (n % 10) (n / 10) s (omega arith)
      ∙ ap (λ (m : ℕ). read_digits s m) (omega arith))
]

write_digits-append :
    (fuel n : ℕ) (s t : List ℕ) → write_digits fuel n s ++ t ≡ write_digits fuel n (s ++ t)
unfolding write_digits
write_digits-append zero n s t = refl
write_digits-append (suc fuel) n s t = elim (Bool-cases (ltb n 10)) [
  | inl e ↦ rw e refl
  | inr e ↦ rw e (write_digits-append fuel (n / 10) ((b'0' + n % 10) ∷ s) t)
]

write_digits-digit :
    (fuel n c : ℕ) (s : List ℕ)
    → is_digit c ≡ true
    → starts_with_digit (write_digits fuel n (c ∷ s)) ≡ true
unfolding write_digits
write_digits-digit zero n c s h = h
write_digits-digit (suc fuel) n c s h = elim (Bool-cases (ltb n 10)) [
  | inl e ↦ rw e (ground (arith, e))
  | inr e ↦ rw e (write_digits-digit fuel (n / 10) (b'0' + n % 10) (c ∷ s) (ground arith))
]

write_digits-some_digit :
    (fuel n : ℕ) (s : List ℕ) → starts_with_digit (write_digits (suc fuel) n s) ≡ true
unfolding write_digits
write_digits-some_digit fuel n s = elim (Bool-cases (ltb n 10)) [
  | inl e ↦ rw e (ground (arith, e))
  | inr e ↦ rw e (write_digits-digit fuel (n / 10) (b'0' + n % 10) s (ground arith))
]

read_int-digit :
    (s : List ℕ) → starts_with_digit s ≡ true → read_int s ≡ read_unsigned 2147483647 pos s
unfolding read_int skip_space is_space read_signed
read_int-digit [] h = absurd (ground (arith, h))
read_int-digit (c ∷ s) h = ground (arith, h)

fits_in_ten : (n : ℕ) → n ≤ 2147483647 → n < limit10 10
unfolding limit10
fits_in_ten n h = omega (arith, h)

read_digits-end : (t : List ℕ) (n : ℕ) → read_digits (32 ∷ t) n ≡ (n, 32 ∷ t)
unfolding read_digits
read_digits-end t n = refl

-- A number that an int holds, behind a blank and in front of any text that starts with one.
pub read_int-write_int :
    (n : ℕ) (t : List ℕ)
    → n ≤ 2147483647
    → read_int (32 ∷ (write_int (pos n) ++ 32 ∷ t)) ≡ some (pos n, 32 ∷ t)
unfolding write_int
read_int-write_int n t h =
    let written = write_digits-append 10 n [] (32 ∷ t) in
    let first = write_digits-some_digit 9 n (32 ∷ t) in
    one_blank (write_digits 10 n [] ++ 32 ∷ t)
    ∙ ap read_int written
    ∙ read_int-digit (write_digits 10 n (32 ∷ t)) first
    ∙ read_it n t h first
  where
    one_blank : (s : List ℕ) → read_int (32 ∷ s) ≡ read_int s
    one_blank s = unfold read_int in unfold skip_space in unfold is_space in refl

    read_it :
        (n : ℕ) (t : List ℕ)
        → n ≤ 2147483647
        → starts_with_digit (write_digits 10 n (32 ∷ t)) ≡ true
        → read_unsigned 2147483647 pos (write_digits 10 n (32 ∷ t)) ≡ some (pos n, 32 ∷ t)
    read_it n t h first =
        let digits =
          read_digits-write_digits 10 n (32 ∷ t) (fits_in_ten n h) ∙ read_digits-end t n in
        unfold read_unsigned in rw (first, digits) (rw (le→leb n 2147483647 h) refl)

-- A line that has no line feed, in front of any text.
pub lines_of-line :
    (line rest : List ℕ)
    → All (λ c. c == 10 ≡ false) line
    → lines_of (line ++ 10 ∷ rest) ≡ line ∷ lines_of rest
unfolding lines_of add_to_line
lines_of-line [] rest h = refl
lines_of-line (c ∷ line) rest h = let ih = lines_of-line line rest h.1 in rw h.0 (rw ih refl)
