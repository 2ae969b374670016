-- ===== src/Remote/Session/Tokens.antt =====
-- The session tokens of src/api.rs: what is accepted, and that a new token is.
use mlai_trade.Common.{
  ℕ, suc, ◌+◌, ◌*◌, ◌<◌, ◌≡◌, refl, ap, sym, ◌∙◌, ◌↔◌, inl, inr, true, false, not, ◌||◌, Option,
  none, some, List, [], ◌∷◌, ◌++◌, arith, leb, ltb, Bool-cases, Option-cases,
}
use mlai_trade.Remote.Text.{same_text, split, decimal, parse_unsigned}
use mlai_trade.Remote.Text.Laws.{
  same_text_iff, Without, split-Without, split-append, digits_of-digits, digits-Without,
  parse_unsigned-decimal,
}
use mlai_trade.Remote.Session.{
  AuthConfig, Crypto, constant_time_eq, session_max_age, version, u64_limit, check_signature,
  sign_auth_session, auth_session_token, check_parts, parts_valid, auth_session_token_valid,
}
use mlai_trade.Remote.Session.Compare.{constant_time_eq_iff}

module _ (crypto : Crypto) (status : AuthConfig) where
  -- A token of three parts: the version, a time that is not reached and the signature of that time.
  pub record IsSigned (now : ℕ) (token : List ℕ) : Type 0 where
    pub expires : List ℕ
    pub expires_at : ℕ
    pub signature : List ℕ
    pub parts : split 46 token ≡ version ∷ expires ∷ signature ∷ []
    pub expiry : parse_unsigned u64_limit expires ≡ some expires_at
    pub later : now < expires_at
    pub signed : sign_auth_session crypto status expires_at ≡ some signature

  matching_parts :
      (now : ℕ) (token first expires signature : List ℕ) (rest : List (List ℕ))
      → split 46 token ≡ first ∷ expires ∷ signature ∷ rest
      → check_parts crypto status now first (parse_unsigned u64_limit expires) signature rest ≡ true
      → IsSigned now token
  unfolding check_parts
  matching_parts now token first expires signature rest e h =
      elim (Option-cases (parse_unsigned u64_limit expires)) [
        | inl no_time ↦ let h' = h in absurd (ground (arith, rw no_time at h'))
        | inr (expires_at, found) ↦ let h' = h in checked expires_at rest e found (rw found at h')
      ]
    where
      signed_time :
          (expires_at : ℕ) (expected : Option (List ℕ))
          → sign_auth_session crypto status expires_at ≡ expected
          → check_signature signature expected ≡ true
          → expected ≡ some signature
      signed_time expires_at none e h = ground (arith, h)
      signed_time expires_at (some expected) e h =
          ap some (sym ((constant_time_eq_iff signature expected).0 h))

      checked :
          (expires_at : ℕ) (rest : List (List ℕ))
          → split 46 token ≡ first ∷ expires ∷ signature ∷ rest
          → parse_unsigned u64_limit expires ≡ some expires_at
          → check_parts crypto status now first (some expires_at) signature rest ≡ true
          → IsSigned now token
      checked expires_at (extra ∷ rest) e found h = ground (arith, h)
      checked expires_at [] e found h =
          elim (Bool-cases (not (same_text first version) || leb expires_at now)) [
            | inl bad ↦ let h' = h in absurd (ground (arith, rw (check_parts, bad) at h'))
            | inr good ↦
                let h' = h in
                let is_version : first ≡ version =
                  (same_text_iff first version).0 (ground (arith, good)) in
                record {
                  expires = expires;
                  expires_at = expires_at;
                  signature = signature;
                  parts = rw is_version at e;
                  expiry = found;
                  later = ground (arith, good);
                  signed = signed_time expires_at _ refl (rw (check_parts, good) at h');
                }
          ]

  valid-IsSigned :
      (now : ℕ) (token : List ℕ)
      → auth_session_token_valid crypto status now token ≡ true
      → IsSigned now token
  unfolding auth_session_token_valid parts_valid
  valid-IsSigned now token h = three_parts (split 46 token) refl h
    where
      three_parts :
          (parts : List (List ℕ))
          → split 46 token ≡ parts
          → parts_valid crypto status now parts ≡ true
          → IsSigned now token
      three_parts [] e h = ground (arith, h)
      three_parts (first ∷ []) e h = ground (arith, h)
      three_parts (first ∷ expires ∷ []) e h = ground (arith, h)
      three_parts (first ∷ expires ∷ signature ∷ rest) e h =
          matching_parts now token first expires signature rest e h

  IsSigned-valid :
      (now : ℕ) (token : List ℕ)
      → IsSigned now token
      → auth_session_token_valid crypto status now token ≡ true
  unfolding auth_session_token_valid check_parts
  IsSigned-valid now token s =
      let fresh : leb s.expires_at now ≡ false = ground (arith, s.later) in
      let same : constant_time_eq s.signature s.signature ≡ true =
        (constant_time_eq_iff s.signature s.signature).1 refl in
      rw (auth_session_token_valid, s.parts, s.expiry, fresh, s.signed) same

  -- A token is accepted exactly when it has three parts, the version, an unsigned number of 64 bits behind
  -- the clock, and the signature of that number under the configured credentials.
  pub auth_session_token_valid_iff :
      (now : ℕ) (token : List ℕ)
      → (auth_session_token_valid crypto status now token ≡ true) ↔ IsSigned now token
  auth_session_token_valid_iff now token = (valid-IsSigned now token, IsSigned-valid now token)

  token_parts :
      (expires_at : ℕ) (signature : List ℕ)
      → Without 46 signature
      → split 46 (version ++ (46 ∷ (decimal expires_at ++ (46 ∷ signature))))
        ≡ version ∷ decimal expires_at ∷ signature ∷ []
  token_parts expires_at signature clean =
      let digits =
        digits-Without 46 (decimal expires_at) refl
          (digits_of-digits (suc expires_at) expires_at) in
      split-append 46 version (decimal expires_at ++ (46 ∷ signature)) (refl, (refl, tt))
      ∙ ap (λ (parts : List (List ℕ)). version ∷ parts)
          (split-append 46 (decimal expires_at) signature digits
            ∙ ap (λ (parts : List (List ℕ)). decimal expires_at ∷ parts)
                (split-Without 46 signature clean))

  check_own :
      (later expires_at : ℕ) (signature : List ℕ)
      → sign_auth_session crypto status expires_at ≡ some signature
      → check_parts crypto status later version (some expires_at) signature []
        ≡ ltb later expires_at
  unfolding check_parts
  check_own later expires_at signature signed =
      let same : constant_time_eq signature signature ≡ true =
        (constant_time_eq_iff signature signature).1 refl in
      elim (Bool-cases (leb expires_at later)) [
        | inl expired ↦ rw (check_parts, expired) (ground (arith, expired))
        | inr fresh ↦ rw (check_parts, fresh, signed, same) (ground (arith, fresh))
      ]

  -- A new token is accepted until 30 days have passed and not after, if its time of expiry is a number of 64
  -- bits and its signature, in base64 of the URL alphabet, has no dot.
  pub auth_session_token_valid-auth_session_token :
      (now later : ℕ) (signature : List ℕ)
      → now + session_max_age < u64_limit
      → sign_auth_session crypto status (now + session_max_age) ≡ some signature
      → Without 46 signature
      → (token : List ℕ) × (auth_session_token crypto status now ≡ some token)
        × (auth_session_token_valid crypto status later token ≡ ltb later (now + 30 * 24 * 60 * 60))
  unfolding auth_session_token auth_session_token_valid parts_valid
  auth_session_token_valid-auth_session_token now later signature h signed clean = (
    version ++ (46 ∷ (decimal (now + session_max_age) ++ (46 ∷ signature))),
    rw signed refl,
    accepted,
  )
    where
      accepted :
          auth_session_token_valid crypto status later
            (version ++ (46 ∷ (decimal (now + session_max_age) ++ (46 ∷ signature))))
          ≡ ltb later (now + session_max_age)
      accepted =
          rw
            (
              auth_session_token_valid,
              token_parts (now + session_max_age) signature clean,
              parse_unsigned-decimal u64_limit (now + session_max_age) h,
            )
            (check_own later (now + session_max_age) signature signed)
