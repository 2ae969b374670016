-- ===== src/Remote/Session/Authorize.antt =====
-- Who src/api.rs `authorize_remote_request` lets in.
use mlai_trade.Common.{ℕ, ◌≡◌, refl, ◌↔◌, ◌⊎◌, Bool, true, false, Option, none, some, List, arith}
use mlai_trade.Remote.Session.{
  AuthConfig, Crypto, auth_session_token_valid, remote_credentials_valid, Request, request_cookie,
  Credentials, no_credentials, credentials, bad_header, basic_auth_credentials, session_cookie,
  allowed, cookie_valid, authorize_credentials, authorize_remote_request,
}
use mlai_trade.Remote.Session.Compare.{constant_time_eq_iff}
use mlai_trade.Remote.Session.Tokens.{IsSigned, auth_session_token_valid_iff}

module _ (crypto : Crypto) (status : AuthConfig) where
  credentials_iff :
      (username password : List ℕ)
      → (remote_credentials_valid crypto status username password ≡ true)
        ↔ ((username ≡ status.auth_username) × (password ≡ status.auth_password))
  unfolding remote_credentials_valid
  credentials_iff username password = ground (
    arith,
    constant_time_eq_iff username status.auth_username,
    constant_time_eq_iff password status.auth_password,
  )

  authorize_credentials_iff :
      (html : Bool) (c : Credentials)
      → (authorize_credentials crypto status html c ≡ allowed)
        ↔ (c ≡ credentials status.auth_username status.auth_password)
  unfolding authorize_credentials
  authorize_credentials_iff html no_credentials = ground arith
  authorize_credentials_iff html (bad_header e) = ground arith
  authorize_credentials_iff html (credentials username password) =
      grind (arith, credentials_iff username password)

  -- The ways past the check: the machine itself, no check configured, a signed session, the credentials.
  abbrev pub MayPass : ℕ → Bool → Request → Type 0
  MayPass now loopback request =
      (loopback ≡ true)
      ⊎ (status.auth_enabled ≡ false)
      ⊎ ((token : List ℕ) × (request_cookie request session_cookie ≡ some token)
          × IsSigned crypto status now token)
      ⊎ (basic_auth_credentials crypto request
          ≡ credentials status.auth_username status.auth_password)

  cookie_iff :
      (now : ℕ) (cookie : Option (List ℕ))
      → (cookie_valid crypto status now cookie ≡ true)
        ↔ ((token : List ℕ) × (cookie ≡ some token) × IsSigned crypto status now token)
  cookie_iff now none = ground arith
  cookie_iff now (some token) = (
    λ h. (token, refl, (auth_session_token_valid_iff crypto status now token).0 h),
    λ h. valid h.0 h.1 h.2,
  )
    where
      valid :
          (other : List ℕ)
          → some token ≡ some other
          → IsSigned crypto status now other
          → auth_session_token_valid crypto status now token ≡ true
      valid other e signed =
          let same : token ≡ other = ground arith in
          rw same ((auth_session_token_valid_iff crypto status now other).1 signed)

  -- A request is let in exactly when it comes from the machine itself, no check is configured, its session
  -- cookie is a signed token that has not expired, or its basic authorization is the configured name and password.
  pub authorize_remote_request_iff :
      (now : ℕ) (loopback : Bool) (request : Request)
      → (authorize_remote_request crypto status now loopback request ≡ allowed)
        ↔ MayPass now loopback request
  unfolding authorize_remote_request
  authorize_remote_request_iff now loopback request = ground (
    arith,
    cookie_iff now (request_cookie request session_cookie),
    authorize_credentials_iff request.prefers_html (basic_auth_credentials crypto request),
  )
