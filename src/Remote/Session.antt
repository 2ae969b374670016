-- ===== src/Remote/Session.antt =====
-- The sessions and credentials of src/api.rs. The HMAC, both base64 codings and the check of UTF-8
-- belong to crates and the standard library and are parameters; the clock is an argument.
pub mod Compare
pub mod Tokens
pub mod Authorize
mod Tests
use Prim.Native.Nat.{bit_or, bit_xor}
use mlai_trade.Common.{
  ℕ, zero, suc, ◌+◌, ◌-◌, ◌*◌, ◌^◌, ◌≡◌, max, Bool, true, false, not, ◌&&◌, ◌||◌, Option, none,
  some, List, [], ◌∷◌, ◌++◌, if◌then◌else◌, leb, ltb, ◌==◌, length, get_elem?,
}
use mlai_trade.Remote.Text.{
  same_text, split, before_first, behind_first, trim, strip_prefix, decimal, parse_unsigned,
}

-- `ApiSslRuntimeConfig`, as far as the sessions read it.
pub record AuthConfig : Type 0 where
  pub auth_enabled : Bool
  pub auth_username : List ℕ
  pub auth_password : List ℕ

abbrev pub byte_or_zero : Option ℕ → ℕ
byte_or_zero none = 0
byte_or_zero (some c) = c

-- The loop of `constant_time_eq` from index `i` on, for the indices that are left.
unfoldable pub diff_loop : List ℕ → List ℕ → ℕ → ℕ → ℕ → ℕ
diff_loop left right zero i diff = diff
diff_loop left right (suc n) i diff =
    diff_loop left right n (suc i)
      (bit_or diff (bit_xor (byte_or_zero (get_elem? left i)) (byte_or_zero (get_elem? right i))))

unfoldable pub constant_time_eq : List ℕ → List ℕ → Bool
unfolding diff_loop
constant_time_eq left right =
    diff_loop left right (max (length left) (length right)) 0 (bit_xor (length left) (length right))
    == 0

abbrev pub session_max_age : ℕ
session_max_age = 30 * 24 * 60 * 60

-- mlai-trade-api-ssl-session-v1:
abbrev session_label : List ℕ
session_label =
    109 ∷ 108 ∷ 97 ∷ 105 ∷ 45 ∷ 116 ∷ 114 ∷ 97 ∷ 100 ∷ 101 ∷ 45 ∷ 97 ∷ 112 ∷ 105 ∷ 45 ∷ 115 ∷ 115
    ∷ 108 ∷ 45 ∷ 115 ∷ 101 ∷ 115 ∷ 115 ∷ 105 ∷ 111 ∷ 110 ∷ 45 ∷ 118 ∷ 49 ∷ 58 ∷ []

abbrev pub version : List ℕ
version = 118 ∷ 49 ∷ []

abbrev pub u64_limit : ℕ
u64_limit = 2 ^ 64

-- The crates' functions: `hmac key message` fails for a key that is not taken.
pub record Crypto : Type 0 where
  pub hmac : List ℕ → List ℕ → Option (List ℕ)
  pub url_safe : List ℕ → List ℕ
  pub decode : List ℕ → Option (List ℕ)
  pub from_utf8 : List ℕ → Option (List ℕ)

abbrev pub encoded : (List ℕ → List ℕ) → Option (List ℕ) → Option (List ℕ)
encoded encode none = none
encoded encode (some bytes) = some (encode bytes)

-- A signature that could not be made matches none.
abbrev pub check_signature : List ℕ → Option (List ℕ) → Bool
check_signature signature none = false
check_signature signature (some expected) = constant_time_eq signature expected

module _ (crypto : Crypto) (status : AuthConfig) where
  unfoldable pub sign_auth_session : ℕ → Option (List ℕ)
  sign_auth_session expires_at = encoded crypto.url_safe (
      crypto.hmac (session_label ++ (status.auth_username ++ (58 ∷ status.auth_password)))
        (version ++ (58 ∷ decimal expires_at)))

  abbrev token_text : ℕ → Option (List ℕ) → Option (List ℕ)
  token_text expires_at none = none
  token_text expires_at (some signature) =
      some (version ++ (46 ∷ (decimal expires_at ++ (46 ∷ signature))))

  unfoldable pub auth_session_token : ℕ → Option (List ℕ)
  auth_session_token now =
      token_text (now + session_max_age) (sign_auth_session (now + session_max_age))

  -- The tests behind the parts of a token, with those that follow the third.
  unfoldable pub check_parts : ℕ → List ℕ → Option ℕ → List ℕ → List (List ℕ) → Bool
  check_parts now first none signature rest = false
  check_parts now first (some expires_at) signature (extra ∷ rest) = false
  check_parts now first (some expires_at) signature [] =
      if not (same_text first version) || leb expires_at now
      then false
      else check_signature signature (sign_auth_session expires_at)

  unfoldable pub parts_valid : ℕ → List (List ℕ) → Bool
  unfolding check_parts
  parts_valid now [] = false
  parts_valid now (first ∷ []) = false
  parts_valid now (first ∷ expires ∷ []) = false
  parts_valid now (first ∷ expires ∷ signature ∷ rest) =
      check_parts now first (parse_unsigned u64_limit expires) signature rest

  unfoldable pub auth_session_token_valid : ℕ → List ℕ → Bool
  unfolding parts_valid
  auth_session_token_valid now token = parts_valid now (split 46 token)

  unfoldable pub remote_credentials_valid : List ℕ → List ℕ → Bool
  unfolding constant_time_eq
  remote_credentials_valid username password =
      constant_time_eq username status.auth_username
      && constant_time_eq password status.auth_password

-- A request's headers, read as text: a cookie that is no text is missing, an authorization may be no text.
pub data HeaderText : Type 0 where
  absent not_text : HeaderText
  text : List ℕ → HeaderText

pub record Request : Type 0 where
  pub cookie : HeaderText
  pub authorization : HeaderText
  pub prefers_html : Bool

abbrev matching_cookie : List ℕ → List ℕ → Option (List ℕ) → Option (List ℕ) → Option (List ℕ)
matching_cookie name found none later = later
matching_cookie name found (some value) later = if same_text found name then some value else later

unfoldable pub find_cookie : List ℕ → List (List ℕ) → Option (List ℕ)
find_cookie name [] = none
find_cookie name (part ∷ parts) =
    matching_cookie name (before_first 61 (trim part)) (behind_first 61 (trim part))
      (find_cookie name parts)

unfoldable pub request_cookie : Request → List ℕ → Option (List ℕ)
unfolding find_cookie
request_cookie request name = elim request.cookie [
  | absent ↦ none
  | not_text ↦ none
  | text value ↦ find_cookie name (split 59 value)
]

-- The reasons of a refusal.
pub data AuthError : Type 0 where
  invalid_header basic_required invalid_payload invalid_encoding invalid_format : AuthError
  required bad_credentials : AuthError

pub data Credentials : Type 0 where
  no_credentials : Credentials
  credentials : List ℕ → List ℕ → Credentials
  bad_header : AuthError → Credentials

abbrev split_credentials : List ℕ → Option (List ℕ) → Credentials
split_credentials username none = bad_header invalid_format
split_credentials username (some password) = credentials username password

module _ (crypto : Crypto) where
  abbrev decoded_text : Option (List ℕ) → Credentials
  decoded_text none = bad_header invalid_encoding
  decoded_text (some plain) = split_credentials (before_first 58 plain) (behind_first 58 plain)

  abbrev decoded_bytes : Option (List ℕ) → Credentials
  decoded_bytes none = bad_header invalid_payload
  decoded_bytes (some bytes) = decoded_text (crypto.from_utf8 bytes)

  abbrev basic_payload : Option (List ℕ) → Credentials
  basic_payload none = bad_header basic_required
  basic_payload (some payload) = decoded_bytes (crypto.decode (trim payload))

  unfoldable pub basic_auth_credentials : Request → Credentials
  basic_auth_credentials request = elim request.authorization [
    | absent ↦ no_credentials
    | not_text ↦ bad_header invalid_header
    | text value ↦ basic_payload (strip_prefix (66 ∷ 97 ∷ 115 ∷ 105 ∷ 99 ∷ 32 ∷ []) value)
  ]

-- mlai_trade_session
abbrev pub session_cookie : List ℕ
session_cookie =
    109 ∷ 108 ∷ 97 ∷ 105 ∷ 95 ∷ 116 ∷ 114 ∷ 97 ∷ 100 ∷ 101 ∷ 95 ∷ 115 ∷ 101 ∷ 115 ∷ 115 ∷ 105 ∷ 111
    ∷ 110 ∷ []

-- `Ok(())`, a login page or an error in JSON.
pub data Verdict : Type 0 where
  allowed : Verdict
  login_page : ℕ → Option AuthError → Verdict
  json_error : AuthError → Verdict

abbrev refused : Bool → AuthError → Verdict
refused true e = login_page 401 (some e)
refused false e = json_error e

abbrev auth_required : Bool → Verdict
auth_required true = login_page 200 none
auth_required false = json_error required

-- `loopback` is whether the peer's address is one.
module _ (crypto : Crypto) (status : AuthConfig) where
  abbrev pub cookie_valid : ℕ → Option (List ℕ) → Bool
  cookie_valid now none = false
  cookie_valid now (some token) = auth_session_token_valid crypto status now token

  unfoldable pub authorize_credentials : Bool → Credentials → Verdict
  authorize_credentials html no_credentials = auth_required html
  authorize_credentials html (bad_header e) = refused html e
  authorize_credentials html (credentials username password) =
      if remote_credentials_valid crypto status username password
      then allowed
      else refused html bad_credentials

  unfoldable pub authorize_remote_request : ℕ → Bool → Request → Verdict
  unfolding authorize_credentials
  authorize_remote_request now loopback request =
      if loopback
      then allowed
      else if not status.auth_enabled
      then allowed
      else if cookie_valid now (request_cookie request session_cookie)
      then allowed
      else authorize_credentials request.prefers_html (basic_auth_credentials crypto request)
