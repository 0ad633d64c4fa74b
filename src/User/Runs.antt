-- ===== src/User/Runs.antt =====
-- Two users, a file and a toy digest.
use ftpn.Filter.DomainBlacklist.{same_domain, text_key}
use ftpn.User.{
  UserEntry, Users, UserFile, UserManager, written, not_written, users_text, reload_if_changed,
  save_users, load_users, check_password, check_entry, authenticate, add_user, delete_user,
  get_user_bandwidth_bit,
}
use ftpn.User.Text.{pos}
use ftpn.User.File.{load_users-save_users}
use ftpn.User.Login.{InFile, UpToDate, new_entry, authenticate-add_user}
use ftpn.Prelude.{
  ℕ, ◌*◌, ◌≤◌, ◌≡◌, ◌⊎◌, ◌↔◌, refl, true, false, Option, none, some, List, [], ◌∷◌, ◌++◌, arith,
  find_key, if◌then◌else◌,
}

abbrev toy_digest : List ℕ → Option (List ℕ)
toy_digest s = some (7 ∷ [])

abbrev entry : ℕ → UserEntry
entry n = record {
  password_hash = b'0' ∷ b'7' ∷ [];
  bandwidth = pos n;
  is_premium = true;
  salt = [];
}

abbrev ann : List ℕ
ann = b'a' ∷ b'n' ∷ b'n' ∷ []

abbrev bob : List ℕ
bob = b'b' ∷ b'o' ∷ b'b' ∷ []

abbrev users : Users
users = (ann, entry 2048) ∷ (bob, entry 10) ∷ []

abbrev manager : UserManager
manager = record { users = users; last_write_time = 1 }

abbrev file : UserFile
file = record { content = none; changed = 0 }

-- The list of the manager, written at the time that it has seen.
abbrev kept_file : UserFile
kept_file = record { content = some (users_text users); changed = 1 }

kept_file-UpToDate : UpToDate kept_file manager
unfolding reload_if_changed
kept_file-UpToDate v = refl

users-InFile : InFile users
unfolding ftpn.Filter.DomainBlacklist.is_space find_key same_domain
users-InFile = (
  (
    record {
      named = (refl, (refl, (refl, tt)));
      hashed = (refl, (refl, tt));
      in_range = omega arith;
      salted = tt;
    },
    (
      record {
        named = (refl, (refl, (refl, tt)));
        hashed = (refl, (refl, tt));
        in_range = omega arith;
        salted = tt;
      },
      tt,
    ),
  ),
  (refl, (refl, tt)),
)

load_users-save_users_example :
    find_key ann (load_users (save_users (written 2) users file)) ≡ find_key ann users
load_users-save_users_example = load_users-save_users ann users file 2 users-InFile.0 users-InFile.1

loaded_again :
    load_users (save_users (written 2) users file) ≡ (bob, entry 10) ∷ (ann, entry 2048) ∷ []
unfolding load_users save_users ftpn.User.Text.lines_of ftpn.User.Text.read_word
    ftpn.Filter.DomainBlacklist.is_space ftpn.User.Text.read_int ftpn.Prelude.assign same_domain
loaded_again = refl

abbrev carl : List ℕ
carl = b'c' ∷ b'9' ∷ []

added :
    (add_user toy_digest (some (3 ∷ [])) (written 5) carl (b'p' ∷ []) (pos 4) kept_file manager).2
    ≡ true
unfolding add_user find_key same_domain
added = refl

authenticate-add_user_example :
    let (f', m', _) =
      add_user toy_digest (some (3 ∷ [])) (written 5) carl (b'p' ∷ []) (pos 4) kept_file manager in
    InFile m'.users
    × ((v q : List ℕ)
        → (authenticate toy_digest v q f' m').1 ≡ (
            if same_domain carl v
            then check_entry toy_digest q
                (some (new_entry toy_digest (some (3 ∷ [])) (b'p' ∷ []) (pos 4)))
            else (authenticate toy_digest v q kept_file manager).1))
authenticate-add_user_example =
    authenticate-add_user toy_digest (some (3 ∷ [])) 5 carl (b'p' ∷ []) (pos 4) kept_file manager
      users-InFile kept_file-UpToDate (omega arith) (7, [], refl, omega arith) (omega arith) added

-- Behind DeleteUser and a reading of the file the name is gone.
deleted :
    let (f', m', done) = delete_user toy_digest (written 5) bob file manager in
    (done ≡ true) × ((authenticate toy_digest bob [] f' m').1 ≡ false)
unfolding delete_user authenticate ftpn.User.save_users ftpn.User.Text.lines_of
    ftpn.User.Text.read_word ftpn.Filter.DomainBlacklist.is_space ftpn.User.Text.read_int
    ftpn.Prelude.assign same_domain find_key
deleted = (refl, refl)

found_ann : find_key ann users ≡ some (entry 2048)
unfolding find_key same_domain
found_ann = refl

-- A write that fails is not seen: AddUser returns true, and behind the next reading of the file the user is
-- gone.
lost_user :
    let (f', m', done) =
      add_user toy_digest
        (some (3 ∷ []))
        not_written
        carl
        (b'p' ∷ [])
        (pos 4)
        (save_users (written 2) users file)
        manager in
    (done ≡ true) × ((authenticate toy_digest carl (b'p' ∷ []) f' m').1 ≡ false)
unfolding add_user authenticate ftpn.User.save_users ftpn.User.Text.lines_of
    ftpn.User.Text.read_word ftpn.Filter.DomainBlacklist.is_space ftpn.User.Text.read_int
    ftpn.Prelude.assign same_domain find_key
lost_user = (refl, refl)

-- AddUser does not read a changed file: a name that only the file has logs in before, and is written over.
abbrev changed_file : UserFile
changed_file = record { content = some (users_text ((carl, entry 1) ∷ [])); changed = 3 }

overwritten :
    ((authenticate toy_digest carl [] changed_file manager).0.users ≡ (carl, entry 1) ∷ [])
    × ((add_user toy_digest
          (some (3 ∷ []))
          (written 5)
          carl
          (b'p' ∷ [])
          (pos 4)
          changed_file
          manager).2
        ≡ true)
unfolding authenticate ftpn.User.users_text ftpn.User.Text.lines_of ftpn.User.Text.read_word
    ftpn.Filter.DomainBlacklist.is_space ftpn.User.Text.read_int ftpn.Prelude.assign same_domain
    find_key add_user
overwritten = (refl, refl)
