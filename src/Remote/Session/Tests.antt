-- ===== src/Remote/Session/Tests.antt =====
-- Sessions with a toy signature in place of the HMAC: the sum of key and message in decimal.
use mlai_trade.Common.{ℕ, ◌+◌, ◌*◌, ◌≡◌, refl, ◌↔◌, true, false, some, List, [], ◌∷◌, arith, ltb}
use mlai_trade.Remote.Text.{decimal}
use mlai_trade.Remote.Session.{
  AuthConfig, Crypto, HeaderText, Request, Verdict, constant_time_eq, auth_session_token,
  auth_session_token_valid, sign_auth_session, request_cookie, basic_auth_credentials,
  remote_credentials_valid, authorize_remote_request,
}
use mlai_trade.Remote.Session.Tokens.{auth_session_token_valid-auth_session_token}
use mlai_trade.Remote.Session.Authorize.{MayPass, authorize_remote_request_iff}

abbrev total : List ℕ → ℕ
total [] = 0
total (c ∷ cs) = c + total cs

abbrev toy : Crypto
toy = record {
  hmac = λ key message. some (decimal (total key * 3 + total message));
  url_safe = λ bytes. bytes;
  decode = λ bytes. some bytes;
  from_utf8 = λ bytes. some bytes;
}

-- The name "ab" and the password "c".
abbrev status : AuthConfig
status = record { auth_enabled = true; auth_username = 97 ∷ 98 ∷ []; auth_password = 99 ∷ [] }

abbrev one : List ℕ
one = 1 ∷ []

abbrev one_zero : List ℕ
one_zero = 1 ∷ 0 ∷ []

longer_differs : constant_time_eq (1 ∷ []) (1 ∷ 0 ∷ []) ≡ false
unfolding constant_time_eq
longer_differs = refl

-- v1.9.8960
abbrev some_token : List ℕ
some_token = 118 ∷ 49 ∷ 46 ∷ 57 ∷ 46 ∷ 56 ∷ 57 ∷ 54 ∷ 48 ∷ []

auth_session_token_valid-auth_session_token_example :
    (token : List ℕ) × (auth_session_token toy status 1000 ≡ some token)
    × (auth_session_token_valid toy status 5000 token ≡ ltb 5000 (1000 + 2592000))
unfolding sign_auth_session
auth_session_token_valid-auth_session_token_example =
    auth_session_token_valid-auth_session_token toy status 1000 5000 _ (omega arith) refl
      (refl, (refl, (refl, (refl, (refl, tt)))))

-- Basic ab:c
abbrev signed_in : Request
signed_in = record {
  cookie = HeaderText.absent;
  authorization = HeaderText.text (66 ∷ 97 ∷ 115 ∷ 105 ∷ 99 ∷ 32 ∷ 97 ∷ 98 ∷ 58 ∷ 99 ∷ []);
  prefers_html = false;
}

right_password : authorize_remote_request toy status 7 false signed_in ≡ Verdict.allowed
unfolding authorize_remote_request request_cookie basic_auth_credentials remote_credentials_valid
right_password = refl

authorize_remote_request_iff_example :
    (authorize_remote_request toy status 7 false signed_in ≡ Verdict.allowed)
    ↔ MayPass toy status 7 false signed_in
authorize_remote_request_iff_example = authorize_remote_request_iff toy status 7 false signed_in
