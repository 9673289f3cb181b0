-- ===== src/Auth/Http/Grants.antt =====
-- When POST /token issues tokens, over any store.
use akira_mcp.Base.{ℕ, ◌≡◌, ◌≢◌, ◌⊎◌, inl, inr, true, false, some, [], arith, list_eq, nat_eq}
use akira_mcp.Base.Text.{Text}
use akira_mcp.Auth.Types.{Result-cases, ok, err, User, OAuthCode, user_not_found}
use akira_mcp.Auth.Http.{StoreApi, Env, World, goes, replied, issued}
use akira_mcp.Auth.Http.Credentials.{check_credentials, issue_pair, invalid_credentials}
use akira_mcp.Auth.Http.Token.{TokenRequest, grant_password, grant_authorization_code}

module _ (api : StoreApi) (env : Env) (w : World api.State) where
  -- Three reasons, one answer: for a non-empty name and password, an unknown name, a wrong password and an unverified email are
  -- refused with the same reply, and nothing is written.
  pub credentials_indistinct :
      (username password : Text)
      → username ≢ []
      → password ≢ []
      → (api.get_user_by_username username w.store ≡ err user_not_found)
        ⊎ ((u : User) × (api.get_user_by_username username w.store ≡ ok u)
            × ((env.password_matches u.password_hash password ≡ false)
                ⊎ (u.email_verified ≡ false)))
      → check_credentials api env username password w ≡ (w, replied invalid_credentials)
  unfolding check_credentials
  credentials_indistinct username password hu hp reason = ground arith

  -- Tokens for a password go only to a user of that name whose email is verified and whose stored
  -- hash the password matches, and the access token is the user's.
  pub grant_password_sound :
      (req : TokenRequest) (access refresh : Text) (ttl : ℕ)
      → (grant_password api env req w).1 ≡ goes (issued access refresh ttl)
      → (u : User) × (api.get_user_by_username req.username w.store ≡ ok u)
        × (env.password_matches u.password_hash req.password ≡ true)
        × (u.email_verified ≡ true)
        × (env.sign_access u.id ≡ some access)
  unfolding grant_password check_credentials issue_pair
  grant_password_sound req access refresh ttl h =
      elim (Result-cases (api.get_user_by_username req.username w.store)) [
        | inr (e, p) ↦ ground (arith, p)
        | inl (u, p) ↦ (u, p, ground (arith, p), ground (arith, p), ground (arith, p))
      ]

  -- Tokens for an authorization code go out only if the store gave up a code under the hash of the
  -- request's code, issued to the request's client and redirect URI, and the verifier's S256 hash is the code's
  -- challenge; the access token is the code's user's.
  pub grant_code_sound :
      (req : TokenRequest) (access refresh : Text) (ttl : ℕ)
      → (grant_authorization_code api env req w).1 ≡ goes (issued access refresh ttl)
      → (c : OAuthCode) × ((api.consume_oauth_code (env.hash_token req.code) w.store).1 ≡ ok c)
        × (c.client_id ≡ req.client_id)
        × (c.redirect_uri ≡ req.redirect_uri)
        × (env.s256 req.code_verifier ≡ c.code_challenge)
        × (env.sign_access c.user_id ≡ some access)
  unfolding grant_authorization_code issue_pair
  grant_code_sound req access refresh ttl h =
      elim (Result-cases (api.consume_oauth_code (env.hash_token req.code) w.store).1) [
        | inr (e, p) ↦ ground (arith, p)
        | inl (c, p) ↦
            (c, p, ground (arith, p), ground (arith, p), ground (arith, p), ground (arith, p))
      ]
