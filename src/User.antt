-- ===== src/User.antt =====
-- fptn/src/common/user/common_user_manager.h: the user list, which a file keeps. What the file system, the
-- random generator and SHA-256 answer are arguments; a time is a number.
pub mod Text
pub mod File
pub mod Login
mod Runs
use ftpn.Filter.DomainBlacklist.{is_empty, same_domain, text_key}
use ftpn.User.Text.{lines_of, read_word, ℤ, pos, negsuc, negative, read_int, write_int}
use ftpn.Prelude.{
  ℕ, suc, ◌+◌, ◌-◌, ◌*◌, ◌/◌, ◌%◌, Bool, true, false, not, ◌&&◌, ◌||◌, Option, none, some, List, [],
  ◌∷◌, ◌++◌, leb, ltb, ◌==◌, find_key, erase_key, assign, if◌then◌else◌,
}

-- The fields first, second, third and fourth of the source.
pub record UserEntry : Type 0 where
  pub password_hash : List ℕ
  pub bandwidth : ℤ
  pub is_premium : Bool
  pub salt : List ℕ

abbrev pub Users : Type 0
Users = List (List ℕ × UserEntry)

-- The file and its time of change; `none` if there is no file.
pub record UserFile : Type 0 where
  pub content : Option (List ℕ)
  pub changed : ℕ

pub record UserManager : Type 0 where
  pub users : Users
  pub last_write_time : ℕ

-- What becomes of a write: the new time of the file, or a failure to open or rename it.
pub data Written : Type 0 where
  written : ℕ → Written
  not_written : Written

abbrev pub is_alnum : ℕ → Bool
is_alnum c = (leb b'0' c && leb c b'9') || (leb b'A' c && leb c b'Z') || (leb b'a' c && leb c b'z')

unfoldable pub all_alnum : List ℕ → Bool
all_alnum [] = true
all_alnum (c ∷ s) = is_alnum c && all_alnum s

unfoldable pub validate_username : List ℕ → Bool
unfolding all_alnum
validate_username username = not (is_empty username) && all_alnum username

-- The two digits that std::hex writes for a byte.
abbrev pub hex_digit : ℕ → ℕ
hex_digit d = if ltb d 10 then b'0' + d else b'a' + (d - 10)

unfoldable pub to_hex : List ℕ → List ℕ
to_hex [] = []
to_hex (b ∷ bytes) = hex_digit (b / 16) ∷ hex_digit (b % 16) ∷ to_hex bytes

-- GenerateSalt, over the bytes of RAND_bytes if it succeeds.
unfoldable pub generate_salt : Option (List ℕ) → List ℕ
unfolding to_hex
generate_salt none = []
generate_salt (some bytes) = to_hex bytes

-- HashPassword, over the digest of the salt and the password if OpenSSL makes it.
unfoldable pub hash_password : (List ℕ → Option (List ℕ)) → List ℕ → List ℕ → List ℕ
unfolding to_hex
hash_password sha256 password salt = elim (sha256 (salt ++ password)) [
  | none ↦ []
  | some bytes ↦ to_hex bytes
]

-- One line of SaveUsers.
unfoldable pub user_line : List ℕ → UserEntry → List ℕ
unfolding write_int
user_line username u =
    username
    ++ 32
      ∷ (u.password_hash
          ++ 32
            ∷ (write_int u.bandwidth ++ 32 ∷ (if u.is_premium then b'1' else b'0') ∷ 32 ∷ u.salt))

unfoldable pub users_text : Users → List ℕ
unfolding user_line
users_text [] = []
users_text ((username, u) ∷ users) = user_line username u ++ 10 ∷ users_text users

unfoldable pub save_users : Written → Users → UserFile → UserFile
unfolding users_text
save_users not_written users f = f
save_users (written t) users f = record { content = some (users_text users); changed = t }

-- iss >> salt, which may stay empty.
abbrev pub word_or_empty : Option (List ℕ × List ℕ) → List ℕ
word_or_empty none = []
word_or_empty (some (word, rest)) = word

infixl 20 ◌>>=◌
abbrev pub ◌>>=◌ : {A B : Type 0} → Option A → (A → Option B) → Option B
none >>= f = none
some a >>= f = f a

-- The reads from one line of LoadUsers.
unfoldable pub parse_user_line : List ℕ → Option (List ℕ × UserEntry)
parse_user_line line = do
  (username, after_name) ← read_word line
  (hash, after_hash) ← read_word after_name
  (bandwidth, after_bandwidth) ← read_int after_hash
  (premium, after_premium) ← read_word after_bandwidth
  some (
    username,
    record {
      password_hash = hash;
      bandwidth = bandwidth;
      is_premium = same_domain premium (b'1' ∷ []);
      salt = word_or_empty (read_word after_premium);
    },
  )

-- The loop of LoadUsers: a line that does not parse is skipped.
unfoldable pub load_lines : List (List ℕ) → Users → Users
unfolding parse_user_line
load_lines [] users = users
load_lines (line ∷ lines) users = elim (parse_user_line line) [
  | none ↦ load_lines lines users
  | some (username, u) ↦ load_lines lines (assign username u users)
]

unfoldable pub load_users : UserFile → Users
unfolding load_lines
load_users f = elim f.content [ none ↦ [] | some text ↦ load_lines (lines_of text) [] ]

unfoldable pub reload_if_changed : UserFile → UserManager → UserManager
unfolding load_users
reload_if_changed f m = elim f.content [
  | none ↦ m
  | some _ ↦
      if f.changed == m.last_write_time
      then m
      else record { users = load_users f; last_write_time = f.changed }
]

abbrev pub is_negative : ℤ → Bool
is_negative (pos n) = false
is_negative (negsuc n) = true

abbrev pub is_known : Option UserEntry → Bool
is_known none = false
is_known (some u) = true

module _ (sha256 : List ℕ → Option (List ℕ)) where
  -- The test of Authenticate on what stands under the name.
  unfoldable pub check_entry : List ℕ → Option UserEntry → Bool
  unfolding hash_password
  check_entry password none = false
  check_entry password (some u) = same_domain u.password_hash (hash_password sha256 password u.salt)

  unfoldable pub check_password : List ℕ → List ℕ → Users → Bool
  unfolding check_entry
  check_password username password users = check_entry password (find_key username users)

  unfoldable pub authenticate : List ℕ → List ℕ → UserFile → UserManager → UserManager × Bool
  unfolding reload_if_changed check_password
  authenticate username password f m =
      let loaded = reload_if_changed f m in (loaded, check_password username password loaded.users)

  unfoldable pub add_user :
      Option (List ℕ)
      → Written
      → List ℕ
      → List ℕ
      → ℤ
      → UserFile
      → UserManager
      → UserFile × UserManager × Bool
  unfolding validate_username generate_salt hash_password save_users
  add_user random outcome username password bandwidth f m =
      if not (validate_username username)
        || is_negative bandwidth
        || is_known (find_key username m.users)
      then (f, m, false)
      else let salt = generate_salt random in
        let users =
          assign username
            (record {
              password_hash = hash_password sha256 password salt;
              bandwidth = bandwidth;
              is_premium = false;
              salt = salt;
            })
            m.users in
        (save_users outcome users f, record m { users = users }, true)

  unfoldable pub delete_user :
      Written → List ℕ → UserFile → UserManager → UserFile × UserManager × Bool
  unfolding save_users
  delete_user outcome username f m =
      if is_known (find_key username m.users)
      then (
        save_users outcome (erase_key username m.users) f,
        record m { users = erase_key username m.users },
        true,
      )
      else (f, m, false)

-- second * 1024 * 1024; `none` if the product does not fit an int, undefined behaviour of the source.
unfoldable pub bits_of : ℤ → Option ℤ
bits_of (pos n) = if ltb (n * 1048576) 2147483648 then some (pos (n * 1048576)) else none
bits_of (negsuc n) =
    if leb (suc n * 1048576) 2147483648 then some (negative (suc n * 1048576)) else none

unfoldable pub bits_of_entry : Option UserEntry → Option ℤ
unfolding bits_of
bits_of_entry none = some (pos 0)
bits_of_entry (some u) = bits_of u.bandwidth

unfoldable pub get_user_bandwidth_bit : List ℕ → UserManager → Option ℤ
unfolding bits_of_entry
get_user_bandwidth_bit username m = bits_of_entry (find_key username m.users)
