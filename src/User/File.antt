-- ===== src/User/File.antt =====
-- What SaveUsers writes, LoadUsers reads back.
use ftpn.Filter.DomainBlacklist.{is_space, same_domain, text_key}
use ftpn.User.{
  UserEntry, Users, UserFile, written, save_users, load_users, user_line, users_text,
  parse_user_line, load_lines, word_or_empty,
}
use ftpn.User.Text.{lines_of, read_word, ℤ, pos, negsuc, read_int, write_digits, write_int}
use ftpn.User.Text.RoundTrip.{
  NoSpace, read_word-word, read_word-space, read_word-end, read_int-write_int, lines_of-line,
}
use ftpn.Prelude.{
  ℕ, zero, suc, ◌+◌, ◌/◌, ◌%◌, ◌≤◌, ◌≡◌, refl, ap, ◌∙◌, inl, inr, Bool, true, false, Option, none,
  some, List, [], ◌∷◌, ◌++◌, arith, ltb, All, All-append, ◌==◌, find_key, assign, find_key-assign,
  if◌then◌else◌, Bool-cases,
}

abbrev pub IsWord : List ℕ → Type 0
IsWord [] = ⊥
IsWord (c ∷ w) = NoSpace (c ∷ w)

abbrev pub InRange : ℤ → Type 0
InRange (pos n) = n ≤ 2147483647
InRange (negsuc n) = ⊥

-- What the file can hold: words, with no salt or one, and a bandwidth that an int holds.
pub record Storable (username : List ℕ) (u : UserEntry) : Type 0 where
  pub named : IsWord username
  pub hashed : IsWord u.password_hash
  pub in_range : InRange u.bandwidth
  pub salted : NoSpace u.salt

abbrev pub AllStorable : Users → Type 0
AllStorable [] = Unit
AllStorable ((username, u) ∷ users) = Storable username u × AllStorable users

-- No name stands twice in the list, as in a map.
abbrev pub Unique : Users → Type 0
Unique [] = Unit
Unique ((username, u) ∷ users) = (find_key username users ≡ none) × Unique users

read_back : (w t : List ℕ) → IsWord w → read_word (w ++ 32 ∷ t) ≡ some (w, 32 ∷ t)
read_back [] t h = absurd h
read_back (c ∷ w) t h = read_word-word c w t h

flag_of : (b : Bool) → same_domain ((if b then b'1' else b'0') ∷ []) (b'1' ∷ []) ≡ b
unfolding same_domain
flag_of true = refl
flag_of false = refl

flag_word :
    (b : Bool) (t : List ℕ)
    → read_word ((if b then b'1' else b'0') ∷ 32 ∷ t)
      ≡ some ((if b then b'1' else b'0') ∷ [], 32 ∷ t)
unfolding is_space
flag_word true t = read_word-word b'1' [] t (refl, tt)
flag_word false t = read_word-word b'0' [] t (refl, tt)

salt_back : (salt : List ℕ) → NoSpace salt → word_or_empty (read_word (32 ∷ salt)) ≡ salt
unfolding read_word is_space
salt_back [] h = refl
salt_back (c ∷ w) h = ap word_or_empty (read_word-space (c ∷ w) ∙ read_word-end c w h)

int_back :
    (b : ℤ) (t : List ℕ) → InRange b → read_int (32 ∷ (write_int b ++ 32 ∷ t)) ≡ some (b, 32 ∷ t)
int_back (pos n) t h = read_int-write_int n t h
int_back (negsuc n) t h = absurd h

-- A line that was written for a user gives the user.
parse_user_line-user_line :
    (username : List ℕ) (u : UserEntry)
    → Storable username u
    → parse_user_line (user_line username u) ≡ some (username, u)
unfolding parse_user_line user_line
parse_user_line-user_line username u s =
    let flag : List ℕ = (if u.is_premium then b'1' else b'0') ∷ 32 ∷ u.salt in
    let bandwidth : List ℕ = write_int u.bandwidth ++ 32 ∷ flag in
    let hash : List ℕ = u.password_hash ++ 32 ∷ bandwidth in
    rw
      (
        read_back username hash s.named,
        read_word-space hash ∙ read_back u.password_hash bandwidth s.hashed,
        int_back u.bandwidth flag s.in_range,
        read_word-space flag ∙ flag_word u.is_premium u.salt,
        salt_back u.salt s.salted,
        flag_of u.is_premium,
      )
      refl

abbrev NoLineFeed : List ℕ → Type 0
NoLineFeed = All (λ c. c == 10 ≡ false)

NoSpace-NoLineFeed : (s : List ℕ) → NoSpace s → NoLineFeed s
unfolding is_space
NoSpace-NoLineFeed [] h = tt
NoSpace-NoLineFeed (c ∷ s) h = (ground (arith, h.0), NoSpace-NoLineFeed s h.1)

IsWord-NoLineFeed : (s : List ℕ) → IsWord s → NoLineFeed s
IsWord-NoLineFeed [] h = absurd h
IsWord-NoLineFeed (c ∷ s) h = NoSpace-NoLineFeed (c ∷ s) h

write_digits-NoLineFeed :
    (fuel n : ℕ) (s : List ℕ) → NoLineFeed s → NoLineFeed (write_digits fuel n s)
unfolding write_digits
write_digits-NoLineFeed zero n s h = h
write_digits-NoLineFeed (suc fuel) n s h = elim (Bool-cases (ltb n 10)) [
  | inl e ↦ rw e (ground (arith, e), h)
  | inr e ↦ rw e (write_digits-NoLineFeed fuel (n / 10) ((b'0' + n % 10) ∷ s) (ground arith, h))
]

write_int-NoLineFeed : (b : ℤ) → NoLineFeed (write_int b)
unfolding write_int
write_int-NoLineFeed (pos n) = write_digits-NoLineFeed 10 n [] tt
write_int-NoLineFeed (negsuc n) = (refl, write_digits-NoLineFeed 10 (suc n) [] tt)

flag-NoLineFeed : (b : Bool) → (if b then b'1' else b'0') == 10 ≡ false
flag-NoLineFeed true = refl
flag-NoLineFeed false = refl

user_line-NoLineFeed :
    (username : List ℕ) (u : UserEntry) → Storable username u → NoLineFeed (user_line username u)
unfolding user_line
user_line-NoLineFeed username u s = All-append _ username _ (IsWord-NoLineFeed username s.named) (
  refl,
  All-append _ u.password_hash _ (IsWord-NoLineFeed u.password_hash s.hashed) (
    refl,
    All-append _ (write_int u.bandwidth) _ (write_int-NoLineFeed u.bandwidth)
        (refl, (flag-NoLineFeed u.is_premium, (refl, NoSpace-NoLineFeed u.salt s.salted))),
  ),
)

-- What is found first.
abbrev first_of : Option UserEntry → Option UserEntry → Option UserEntry
first_of none o = o
first_of (some u) o = some u

load_lines-parsed :
    (line : List ℕ) (lines : List (List ℕ)) (username : List ℕ) (u : UserEntry) (acc : Users)
    → parse_user_line line ≡ some (username, u)
    → load_lines (line ∷ lines) acc ≡ load_lines lines (assign username u acc)
unfolding load_lines
load_lines-parsed line lines username u acc e = rw (e, load_lines) refl

nothing_stored :
    (v : List ℕ) (acc : Users)
    → find_key v (load_lines (lines_of []) acc) ≡ first_of (find_key v []) (find_key v acc)
unfolding load_lines lines_of find_key
nothing_stored v acc = refl

-- The first user of a list is found under the name, and a later one under another.
first_of-cons :
    (v username : List ℕ) (u : UserEntry) (users acc : Users)
    → find_key username users ≡ none
    → first_of (find_key v users) (if same_domain username v then some u else find_key v acc)
      ≡ first_of (find_key v ((username, u) ∷ users)) (find_key v acc)
unfolding find_key
first_of-cons v username u users acc q = elim (Bool-cases (same_domain username v)) [
  | inl e ↦
      let same : username ≡ v = (text_key.same_iff username v).0 e in
      let gone = rw same at q in rw (e, gone) refl
  | inr e ↦ rw e refl
]

load_lines-users_text :
    (v : List ℕ) (users acc : Users)
    → AllStorable users
    → Unique users
    → find_key v (load_lines (lines_of (users_text users)) acc)
      ≡ first_of (find_key v users) (find_key v acc)
unfolding users_text
load_lines-users_text v [] acc s q = nothing_stored v acc
load_lines-users_text v ((username, u) ∷ users) acc (s, ss) (q, qs) =
    let text =
      lines_of-line (user_line username u) (users_text users) (user_line-NoLineFeed username u s) in
    let parsed =
      load_lines-parsed (user_line username u) (lines_of (users_text users)) username u acc
        (parse_user_line-user_line username u s) in
    ap (λ (lines : List (List ℕ)). find_key v (load_lines lines acc)) text
    ∙ ap (find_key v) parsed
    ∙ load_lines-users_text v users (assign username u acc) ss qs
    ∙ ap (first_of (find_key v users)) (find_key-assign username v u acc)
    ∙ first_of-cons v username u users acc q

-- A list of users that the file can hold is read back from what SaveUsers wrote: every name has the same
-- entry, or none.
pub load_users-save_users :
    (v : List ℕ) (users : Users) (f : UserFile) (t : ℕ)
    → AllStorable users
    → Unique users
    → find_key v (load_users (save_users (written t) users f)) ≡ find_key v users
unfolding load_users save_users
load_users-save_users v users f t s q =
    load_lines-users_text v users [] s q ∙ first_or_none (find_key v users)
  where
    first_or_none : (o : Option UserEntry) → first_of o (find_key v []) ≡ o
    first_or_none none = unfold find_key in refl
    first_or_none (some u) = refl
