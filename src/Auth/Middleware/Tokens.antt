-- ===== src/Auth/Middleware/Tokens.antt =====
-- The way of a token from the account service to the handlers.
use shig.Common.{
  ◌⊎◌, inl, inr, ◌+◌, ◌%◌, ◌^◌, Text-discrete, Text, Text-discrete, none, some, [], ◌∷◌, ◌++◌, ◌≡◌,
  ℕ, ◌≤◌, refl, arith,
}
use shig.Streams.{not_found, failed, Account, Query, found, not_found, failed}
use shig.Auth.Jwt.{
  Claims, Jwt, JwtToken, Claims, create_jwt_token, validate_token, not_before_date, in_time,
}
use shig.Auth.Account.{User, get_auth_token}
use shig.Auth.Middleware.{bearer, strip_prefix, passed, http_middleware}

strip_prefix-append : (p t : Text) → strip_prefix p (p ++ t) ≡ some t
unfolding strip_prefix
strip_prefix-append [] t = refl
strip_prefix-append (c ∷ p) t = ground (arith, strip_prefix-append p t)

found-cases :
    {A : Type 0} (q : Query A) → ((a : A) × (q ≡ found a)) ⊎ ((q ≡ not_found) ⊎ (q ≡ failed))
found-cases (found a) = inl (a, refl)
found-cases not_found = inr (inl refl)
found-cases failed = inr (inr refl)

module _ (jwt : Jwt) (config : JwtToken) where
  created-passes :
      (uuid t : Text) (now later : ℕ)
      → create_jwt_token jwt config uuid now ≡ some t
      → not_before_date ≤ later
      → http_middleware jwt config (bearer ++ t) later ≡ passed uuid
  unfolding create_jwt_token http_middleware validate_token in_time
  created-passes uuid t now later e h =
      let c : Claims = record {
        uuid = some uuid;
        expires_at = some ((now + config.default_expire_time) % 2 ^ 64);
        exp = none;
        nbf = some not_before_date;
      } in
      ground (arith, strip_prefix-append bearer t, jwt.parse_law config.key c t later e)

  -- A token that the account service gives out logs in its account at any time from the fixed date
  -- of `nbf` on, however long after its ExpiresAt; and only who knows the instance's token gets
  -- one, for an account that is found.
  pub token-never_expires :
      (instance_token : Text) (first_account : Text → Query Account) (user : User) (t : Text)
      (now later : ℕ)
      → get_auth_token jwt config instance_token first_account user now ≡ some t
      → not_before_date ≤ later
      → (user.token ≡ instance_token)
        × (a : Account) × (first_account user.user_id ≡ found a)
        × (http_middleware jwt config (bearer ++ t) later ≡ passed a.uuid)
  unfolding get_auth_token
  token-never_expires instance_token first_account user t now later e h =
      elim (Text-discrete user.token instance_token) [
        | no ne ↦ absurd (ground arith)
        | yes same ↦ elim (found-cases (first_account user.user_id)) [
          | inr q ↦ absurd (ground arith)
          | inl (a, q) ↦ (same, a, q, created-passes a.uuid t now later (ground arith) h)
        ]
      ]
