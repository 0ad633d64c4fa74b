-- ===== src/Connection/Login.antt =====
-- ConnectionManager::Login and GetDns of
-- fptn/src/fptn-protocol-lib/connection/connection_manager/connection_manager.cpp. What the server answers
-- to the n-th request of a call, and how the JSON library and boost read a text, are parameters.
pub mod Attempts
use ftpn.Prelude.{
  ℕ, zero, suc, ◌+◌, ◌≤◌, ◌<◌, ◌≡◌, ◌⊎◌, refl, sym, ◌∙◌, inl, inr, Bool, true, false, not, ◌&&◌,
  ◌||◌, Option, none, some, List, [], ◌∷◌, arith, ◌==◌, if◌then◌else◌, Bool-cases,
}

-- https::Response
pub record Response : Type 0 where
  pub body : List ℕ
  pub code : ℕ
  pub errmsg : List ℕ

-- What msg[key] gives for a body: the text of an exception, no such key, or a text.
pub data Field : Type 0 where
  failed : List ℕ → Field
  absent : Field
  present : List ℕ → Field

-- An IPv4Address or IPv6Address is its text, or empty.
pub record Manager : Type 0 where
  pub jwt_access_token : List ℕ
  pub latest_error : List ℕ
  pub latest_error_code : ℕ
  pub dns_ipv4 : Option (List ℕ)
  pub dns_ipv6 : Option (List ℕ)

abbrev pub is_nonempty : List ℕ → Bool
is_nonempty [] = false
is_nonempty (c ∷ s) = true

abbrev pub is_set : Option (List ℕ) → Bool
is_set none = false
is_set (some a) = true

abbrev pub max_retries : ℕ
max_retries = 5

abbrev pub unavailable : List ℕ
unavailable =
    b'A' ∷ b'u' ∷ b't' ∷ b'h' ∷ b'o' ∷ b'r' ∷ b'i' ∷ b'z' ∷ b'a' ∷ b't' ∷ b'i' ∷ b'o' ∷ b'n' ∷ b' '
    ∷ b's' ∷ b'e' ∷ b'r' ∷ b'v' ∷ b'e' ∷ b'r' ∷ b' ' ∷ b'i' ∷ b's' ∷ b' ' ∷ b'u' ∷ b'n' ∷ b'a'
    ∷ b'v' ∷ b'a' ∷ b'i' ∷ b'l' ∷ b'a' ∷ b'b' ∷ b'l' ∷ b'e' ∷ b',' ∷ b' ' ∷ b't' ∷ b'r' ∷ b'y'
    ∷ b' ' ∷ b'a' ∷ b'g' ∷ b'a' ∷ b'i' ∷ b'n' ∷ b' ' ∷ b'l' ∷ b'a' ∷ b't' ∷ b'e' ∷ b'r' ∷ []

-- How a loop over the attempts ends: the state, what it returned if it did, and the requests made.
abbrev pub Ended : Type 0
Ended = Manager × Option Bool × ℕ

-- The keys that are asked for.
pub data KeyName : Type 0 where
  access_token message dns dns_ipv6_key : KeyName

-- The loop over the attempts that Login and GetDns share: `left` of them are left, and the next request
-- is the one of number `i`.
module _ (pass : Response → Manager → Manager × Option Bool) (responses : ℕ → Response) where
  unfoldable pub attempts : ℕ → ℕ → Manager → Ended
  attempts zero i m = (m, none, i)
  attempts (suc left) i m =
      let out = pass (responses i) m in
      elim out.1 [ some b ↦ (out.0, some b, suc i) | none ↦ attempts left (suc i) out.0 ]

abbrev pub returned : Option Bool → Bool
returned none = false
returned (some b) = b

module _ (field : List ℕ → KeyName → Field) where
  unfoldable pub extract_error_message : Response → List ℕ
  extract_error_message r =
      if is_nonempty r.errmsg
      then r.errmsg
      else elim (field r.body KeyName.message) [ present text ↦ text | _ ↦ r.body ]

  abbrev pub refuse : Response → List ℕ → Manager → Manager
  refuse r error m = record m {
    jwt_access_token = [];
    latest_error = error;
    latest_error_code = r.code;
  }

  -- The branch of code 200.
  abbrev pub accept : Response → Field → Manager → Manager × Option Bool
  accept r (failed what) m = (refuse r what m, none)
  accept r absent m = (m, none)
  accept r (present token) m = (record m { jwt_access_token = token }, some true)

  -- The loop body of Login.
  unfoldable pub login_pass : Response → Manager → Manager × Option Bool
  login_pass r m =
      if r.code == 200
      then accept r (field r.body KeyName.access_token) m
      else if r.code == 401 || r.code == 403
      then (refuse r (extract_error_message r) m, some false)
      else if r.code == 503
      then (refuse r unavailable m, none)
      else (refuse r (extract_error_message r) m, none)

  unfoldable pub login : (ℕ → Response) → Manager → Manager × Bool × ℕ
  unfolding attempts login_pass
  login responses m =
      if is_nonempty m.jwt_access_token
      then (m, true, 0)
      else let r = attempts login_pass responses max_retries 0 m in (r.0, returned r.1, r.2)

  module _ (read_ipv4 read_ipv6 : List ℕ → Option (List ℕ)) (default_ipv6 : List ℕ) where
    -- The assignments of GetDns, behind the reading of both texts.
    abbrev pub take_ipv6 : List ℕ → Field → Manager → Manager × Option Bool
    take_ipv6 four (failed what) m = (record m { latest_error = what }, none)
    take_ipv6 four absent m =
        (record m { dns_ipv4 = read_ipv4 four; dns_ipv6 = read_ipv6 default_ipv6 }, some true)
    take_ipv6 four (present six) m =
        (record m { dns_ipv4 = read_ipv4 four; dns_ipv6 = read_ipv6 six }, some true)

    abbrev pub take_dns : Response → Field → Manager → Manager × Option Bool
    take_dns r (failed what) m = (record m { latest_error = what }, none)
    take_dns r absent m = (m, none)
    take_dns r (present four) m = take_ipv6 four (field r.body KeyName.dns_ipv6_key) m

    -- The loop body of GetDns.
    unfoldable pub dns_pass : Response → Manager → Manager × Option Bool
    dns_pass r m =
        if r.code == 200
        then take_dns r (field r.body KeyName.dns) m
        else (record m { latest_error = r.errmsg }, none)

    -- The addresses that are returned stand in the state.
    unfoldable pub get_dns : (ℕ → Response) → Manager → Manager × ℕ
    unfolding attempts dns_pass
    get_dns responses m =
        if is_set m.dns_ipv4 && is_set m.dns_ipv6
        then (m, 0)
        else let r = attempts dns_pass responses max_retries 0 m in (r.0, r.2)
