-- ===== src/User/Login.antt =====
-- Who can log in behind AddUser and DeleteUser, through the file.
use ftpn.Filter.DomainBlacklist.{is_space, same_domain, text_key}
use mathlib.Core.Path.{subst}
use ftpn.User.{
  UserEntry, Users, UserFile, UserManager, written, all_alnum, validate_username, hex_digit, to_hex,
  generate_salt, hash_password, save_users, reload_if_changed, check_entry, check_password,
  authenticate, is_negative, is_known, add_user, delete_user, bits_of, bits_of_entry,
  get_user_bandwidth_bit,
}
use ftpn.User.Text.{ℤ, pos}
use ftpn.User.Text.RoundTrip.{NoSpace}
use ftpn.User.File.{IsWord, InRange, AllStorable, Unique, load_users-save_users}
use ftpn.Prelude.{
  ℕ, ◌*◌, ◌/◌, ◌%◌, ◌<◌, ◌≤◌, ◌≡◌, ◌⊎◌, ◌↔◌, ltb, refl, ap, sym, ◌∙◌, inl, inr, Bool, true, false,
  not, ◌||◌, Option, none, some, List, [], ◌∷◌, ◌++◌, arith, All, ◌==◌, find_key, erase_key, assign,
  find_key-erase_key, find_key-assign, if◌then◌else◌, Bool-cases,
}

hex_digit-NoSpace : (d : ℕ) → d < 16 → is_space (hex_digit d) ≡ false
unfolding is_space
hex_digit-NoSpace d h = ground (arith, h)

to_hex-NoSpace : (bytes : List ℕ) → All (λ b. b < 256) bytes → NoSpace (to_hex bytes)
unfolding to_hex
to_hex-NoSpace [] h = tt
to_hex-NoSpace (b ∷ bytes) h = (
  hex_digit-NoSpace (b / 16) (omega (arith, h.0)),
  (hex_digit-NoSpace (b % 16) (omega arith), to_hex-NoSpace bytes h.1),
)

all_alnum-NoSpace : (s : List ℕ) → all_alnum s ≡ true → NoSpace s
unfolding all_alnum is_space
all_alnum-NoSpace [] h = tt
all_alnum-NoSpace (c ∷ s) h = (ground (arith, h), all_alnum-NoSpace s (ground (arith, h)))

validate_username-IsWord : (s : List ℕ) → validate_username s ≡ true → IsWord s
unfolding validate_username
validate_username-IsWord [] h = absurd (ground (arith, h))
validate_username-IsWord (c ∷ s) h = all_alnum-NoSpace (c ∷ s) h

erase_key-AllStorable :
    (v : List ℕ) (users : Users) → AllStorable users → AllStorable (erase_key v users)
unfolding erase_key
erase_key-AllStorable v [] s = tt
erase_key-AllStorable v ((username, u) ∷ users) s = elim (Bool-cases (same_domain username v)) [
  | inl e ↦ rw e (erase_key-AllStorable v users s.1)
  | inr e ↦ rw e (s.0, erase_key-AllStorable v users s.1)
]

if_none : (b : Bool) (o : Option UserEntry) → o ≡ none → (if b then none else o) ≡ none
if_none true o h = refl
if_none false o h = h

erase_key-Unique : (v : List ℕ) (users : Users) → Unique users → Unique (erase_key v users)
unfolding erase_key
erase_key-Unique v [] q = tt
erase_key-Unique v ((username, u) ∷ users) q = elim (Bool-cases (same_domain username v)) [
  | inl e ↦ rw e (erase_key-Unique v users q.1)
  | inr e ↦ rw e (
    find_key-erase_key v username users ∙ if_none (same_domain v username) _ q.0,
    erase_key-Unique v users q.1,
  )
]

same_self : (s : List ℕ) → same_domain s s ≡ true
same_self s = (text_key.same_iff s s).1 refl

assign-Unique :
    (v : List ℕ) (u : UserEntry) (users : Users) → Unique users → Unique (assign v u users)
unfolding assign
assign-Unique v u users q =
    (find_key-erase_key v v users ∙ rw (same_self v) refl, erase_key-Unique v users q)

-- Every user in the list can be kept by the file, and stands there once.
abbrev pub InFile : Users → Type 0
InFile users = AllStorable users × Unique users

-- A reading of the file gives every name the entry that it has in memory.
abbrev pub UpToDate : UserFile → UserManager → Type 0
UpToDate f m = (v : List ℕ) → find_key v (reload_if_changed f m).users ≡ find_key v m.users

module _ (sha256 : List ℕ → Option (List ℕ)) where
  -- Behind a write of the list that is in memory, the login sees that list, reloaded or not.
  authenticate-saved :
      (v password : List ℕ) (users : Users) (f : UserFile) (m : UserManager) (t : ℕ)
      → InFile users
      → (authenticate sha256 v password
          (save_users (written t) users f)
          (record m { users = users })).1
        ≡ check_entry sha256 password (find_key v users)
  unfolding authenticate reload_if_changed save_users check_password
  authenticate-saved v password users f m t (s, q) = elim (Bool-cases (t == m.last_write_time)) [
    | inl e ↦ rw e refl
    | inr e ↦ rw e (ap (check_entry sha256 password) (load_users-save_users v users f t s q))
  ]

  -- The entry that AddUser makes.
  abbrev pub new_entry : Option (List ℕ) → List ℕ → ℤ → UserEntry
  new_entry random password bandwidth = record {
    password_hash = hash_password sha256 password (generate_salt random);
    bandwidth = bandwidth;
    is_premium = false;
    salt = generate_salt random;
  }

  -- OpenSSL makes a digest of bytes, not empty, for the salted password.
  abbrev pub Digests : Option (List ℕ) → List ℕ → Type 0
  Digests random password =
      (b : ℕ) × (bytes : List ℕ) × (sha256 (generate_salt random ++ password) ≡ some (b ∷ bytes))
      × All (λ c. c < 256) (b ∷ bytes)

  abbrev pub IsRandom : Option (List ℕ) → Type 0
  IsRandom none = Unit
  IsRandom (some bytes) = All (λ b. b < 256) bytes

  salt-NoSpace : (random : Option (List ℕ)) → IsRandom random → NoSpace (generate_salt random)
  unfolding generate_salt
  salt-NoSpace none h = tt
  salt-NoSpace (some bytes) h = to_hex-NoSpace bytes h

  to_hex-IsWord :
      (b : ℕ) (bytes : List ℕ) → All (λ c. c < 256) (b ∷ bytes) → IsWord (to_hex (b ∷ bytes))
  unfolding to_hex
  to_hex-IsWord b bytes h = to_hex-NoSpace (b ∷ bytes) h

  hash_password-some :
      (random : Option (List ℕ)) (password bytes : List ℕ)
      → sha256 (generate_salt random ++ password) ≡ some bytes
      → hash_password sha256 password (generate_salt random) ≡ to_hex bytes
  unfolding hash_password
  hash_password-some random password bytes e = rw (e, hash_password) refl

  hash-IsWord :
      (random : Option (List ℕ)) (password : List ℕ)
      → Digests random password
      → IsWord (hash_password sha256 password (generate_salt random))
  hash-IsWord random password (b, bytes, e, h) =
      subst IsWord (sym (hash_password-some random password (b ∷ bytes) e))
        (to_hex-IsWord b bytes h)

  pub authenticate-add_user :
      (random : Option (List ℕ)) (t : ℕ) (username password : List ℕ) (bandwidth : ℤ) (f : UserFile)
      (m : UserManager)
      → InFile m.users
      → UpToDate f m
      → IsRandom random
      → Digests random password
      → InRange bandwidth
      → (add_user sha256 random (written t) username password bandwidth f m).2 ≡ true
      → let (f', m', _) = add_user sha256 random (written t) username password bandwidth f m in
        InFile m'.users
        × ((v q : List ℕ)
            → (authenticate sha256 v q f' m').1 ≡ (
                if same_domain username v
                then check_entry sha256 q (some (new_entry random password bandwidth))
                else (authenticate sha256 v q f m).1))
  unfolding add_user
  authenticate-add_user random t username password bandwidth f m (s, u) up r d b added =
      elim (Bool-cases (
        not (validate_username username)
        || is_negative bandwidth
        || is_known (find_key username m.users))) [
          | inl e ↦ absurd (let a = rw e at added in ground (arith, a))
          | inr e ↦
              let users = assign username (new_entry random password bandwidth) m.users in
              let kept = kept_users (ground (arith, e)) in
              rw e (
                kept,
                λ v q.
                    authenticate-saved v q users f m t kept
                    ∙ ap (check_entry sha256 q)
                        (find_key-assign username v (new_entry random password bandwidth) m.users)
                    ∙ either (same_domain username v) q (new_entry random password bandwidth)
                        (find_key v m.users)
                    ∙ before (same_domain username v) v q (new_entry random password bandwidth),
              )
        ]
    where
      kept_users :
          validate_username username ≡ true
          → InFile (assign username (new_entry random password bandwidth) m.users)
      kept_users valid = (
        unfold assign in
            (
              record {
                named = validate_username-IsWord username valid;
                hashed = hash-IsWord random password d;
                in_range = b;
                salted = salt-NoSpace random r;
              },
              erase_key-AllStorable username m.users s,
            ),
        assign-Unique username (new_entry random password bandwidth) m.users u,
      )

      either :
          (c : Bool) (q : List ℕ) (x : UserEntry) (o : Option UserEntry)
          → check_entry sha256 q (if c then some x else o)
            ≡ (if c then check_entry sha256 q (some x) else check_entry sha256 q o)
      either true q x o = refl
      either false q x o = refl

      before :
          (c : Bool) (v q : List ℕ) (x : UserEntry)
          → (if c then check_entry sha256 q (some x) else check_entry sha256 q (find_key v m.users))
            ≡ (if c then check_entry sha256 q (some x) else (authenticate sha256 v q f m).1)
      before true v q x = refl
      before false v q x =
          unfold authenticate check_password in ap (check_entry sha256 q) (sym (up v))

  -- Behind a DeleteUser that returned true and whose write succeeded, the list can be kept by the file,
  -- nobody logs in under the name, and every other name logs in exactly as before.
  pub authenticate-delete_user :
      (t : ℕ) (username : List ℕ) (f : UserFile) (m : UserManager)
      → InFile m.users
      → (delete_user sha256 (written t) username f m).2 ≡ true
      → let (f', m', _) = delete_user sha256 (written t) username f m in
        InFile m'.users
        × ((v q : List ℕ)
            → (authenticate sha256 v q f' m').1 ≡ (
                if same_domain username v
                then false
                else check_entry sha256 q (find_key v m.users)))
  unfolding delete_user
  authenticate-delete_user t username f m (s, u) deleted =
      elim (Bool-cases (is_known (find_key username m.users))) [
        | inr e ↦ absurd (let d = rw e at deleted in ground (arith, d))
        | inl e ↦
            let users = erase_key username m.users in
            let kept : InFile users =
              (erase_key-AllStorable username m.users s, erase_key-Unique username m.users u) in
            rw e (
              kept,
              λ v q.
                  authenticate-saved v q users f m t kept
                  ∙ ap (check_entry sha256 q) (find_key-erase_key username v m.users)
                  ∙ either (same_domain username v) q (find_key v m.users),
            )
      ]
    where
      either :
          (c : Bool) (q : List ℕ) (o : Option UserEntry)
          → check_entry sha256 q (if c then none else o)
            ≡ (if c then false else check_entry sha256 q o)
      either true q o = unfold check_entry in refl
      either false q o = refl

-- The bandwidth in bits of a user with a limit of that many megabytes overflows an int exactly from 2048
-- on; below that it is the product.
get_user_bandwidth_bit-overflow :
    (username : List ℕ) (m : UserManager) (u : UserEntry) (n : ℕ)
    → find_key username m.users ≡ some u
    → u.bandwidth ≡ pos n
    → ((get_user_bandwidth_bit username m ≡ none) ↔ (2048 ≤ n))
      × ((get_user_bandwidth_bit username m ≡ none)
          ⊎ (get_user_bandwidth_bit username m ≡ some (pos (n * 1048576))))
unfolding get_user_bandwidth_bit
get_user_bandwidth_bit-overflow username m u n e b =
    let same : bits_of_entry (find_key username m.users) ≡ bits_of (pos n) =
      ap bits_of_entry e ∙ ap bits_of b in
    subst
      (λ (o : Option ℤ). ((o ≡ none) ↔ (2048 ≤ n)) × ((o ≡ none) ⊎ (o ≡ some (pos (n * 1048576)))))
      (sym same) (by_test (ltb (n * 1048576) 2147483648) refl)
  where
    by_test :
        (c : Bool)
        → ltb (n * 1048576) 2147483648 ≡ c
        → (((if c then some (pos (n * 1048576)) else none) ≡ none) ↔ (2048 ≤ n))
          × (((if c then some (pos (n * 1048576)) else none) ≡ none)
              ⊎ ((if c then some (pos (n * 1048576)) else none) ≡ some (pos (n * 1048576))))
    by_test true h = ((λ x. absurd (cc), λ x. absurd (ground (arith, h, x))), inr refl)
    by_test false h = ((λ x. ground (arith, h), λ x. refl), inl refl)
