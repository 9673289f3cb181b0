-- ===== src/Auth/Http/Flow.antt =====
-- The authorization code flow: what POST /authorize/confirm hands out, and that POST /token takes it.
use akira_mcp.Base.{
  ℕ, ◌+◌, ◌≤◌, ◌≡◌, ◌≢◌, ◌⊎◌, inl, inr, true, not, Option, none, some, List, [], ◌∷◌, ◌++◌, length,
  arith, list_eq, nat_eq, Option-cases, sym, ltb, All,
}
use akira_mcp.Base.Map.{lookup-insert, retain, erase}
use akira_mcp.Auth.Memory.Users.{get_user_by_username}
use akira_mcp.Base.Text.{Text, bytes}
use akira_mcp.Auth.Types.{Result-cases, ok, User, OAuthCode, OAuthClient}
use akira_mcp.Auth.Memory.{Store}
use akira_mcp.Auth.Memory.OAuth.{save_oauth_code, consume_oauth_code}
use akira_mcp.Auth.Http.{
  StoreApi, Env, Url, World, Outcome-cases, goes, confirmed, registered, decoded,
}
use akira_mcp.Auth.Http.Credentials.{check_credentials, issue_pair}
use akira_mcp.Auth.Http.Token.{TokenRequest, grant_authorization_code}
use akira_mcp.Auth.Http.Stored.{memory_api}
use akira_mcp.Auth.Http.OAuth.{
  AuthorizeConfirmRequest, AuthorizeParams, RegistrationRequest, validate_authorize,
  handle_authorize_confirm, handle_oauth_register, validate_redirect_uri, first_bad_uri, is_known,
  with_state, pkce_challenge_min, pkce_challenge_max,
}

-- The text is one of the list.
abbrev pub OneOf : Text → List Text → Type 0
OneOf uri [] = ⊥
OneOf uri (u ∷ us) = (u ≡ uri) ⊎ OneOf uri us

is_known-OneOf : (us : List Text) (uri : Text) → is_known us uri ≡ true → OneOf uri us
unfolding is_known
is_known-OneOf [] uri h = cc
is_known-OneOf (u ∷ us) uri h = ground (arith, is_known-OneOf us uri)

first_bad_uri-none :
    (parse_url : Text → Option Url) (uris : List Text)
    → first_bad_uri parse_url uris ≡ none
    → All (λ uri. validate_redirect_uri parse_url uri ≡ none) uris
unfolding first_bad_uri
first_bad_uri-none parse_url [] h = tt
first_bad_uri-none parse_url (uri ∷ uris) h =
    elim (Option-cases (validate_redirect_uri parse_url uri)) [
      | inr (problem, e) ↦ ground (arith, e)
      | inl e ↦ (e, first_bad_uri-none parse_url uris (ground (arith, e)))
    ]

module _ (api : StoreApi) (env : Env) (w : World api.State) where
  -- Parameters that pass validation name a known client and exactly one of its registered redirect URIs, ask for a code, and
  -- carry an S256 challenge of 43 to 128 bytes; validation itself writes nothing.
  pub validate_authorize_sound :
      (p : AuthorizeParams) (c : OAuthClient)
      → (validate_authorize api env p w).1 ≡ goes c
      → (api.get_oauth_client p.client_id w.store ≡ ok c)
        × OneOf p.redirect_uri c.redirect_uris
        × (p.response_type ≡ bytes "code")
        × (p.code_challenge_method ≡ bytes "S256")
        × (pkce_challenge_min ≤ length p.code_challenge)
        × (length p.code_challenge ≤ pkce_challenge_max)
        × (p.client_id ≢ [])
        × (p.redirect_uri ≢ [])
        × ((validate_authorize api env p w).0 ≡ w)
  unfolding validate_authorize
  validate_authorize_sound p c h = elim (Result-cases (api.get_oauth_client p.client_id w.store)) [
    | inr (e, q) ↦ ground (arith, q)
    | inl (d, q) ↦ (
      ground (arith, q),
      ground (arith, q, is_known-OneOf d.redirect_uris p.redirect_uri),
      ground (arith, q),
      ground (arith, q),
      ground (arith, q),
      ground (arith, q),
      ground (arith, q),
      ground (arith, q),
      ground (arith, q),
    )
  ]

  check_world : (name password : Text) → (check_credentials api env name password w).0 ≡ w
  unfolding check_credentials
  check_world name password = ground arith

  check_sound :
      (name password : Text) (u : User)
      → (check_credentials api env name password w).1 ≡ goes u
      → (api.get_user_by_username name w.store ≡ ok u)
        × (u.email_verified ≡ true)
        × (env.password_matches u.password_hash password ≡ true)
  unfolding check_credentials
  check_sound name password u h = ground arith

  -- The record that a confirmed request stores.
  abbrev pub saved_code : AuthorizeParams → Text → Text → OAuthCode
  saved_code p user_id code = record {
    code_hash = env.hash_token code;
    user_id = user_id;
    client_id = p.client_id;
    redirect_uri = p.redirect_uri;
    scope = p.scope;
    code_challenge = p.code_challenge;
    code_challenge_method = p.code_challenge_method;
    expires_at = env.now + env.code_ttl;
    created_at = env.now;
  }

  -- What a confirmed request went through.
  confirm_parts :
      (req : AuthorizeConfirmRequest) (location : Text)
      → (handle_authorize_confirm api env (decoded req) w).1 ≡ goes (confirmed location)
      → (u : User) × (c : OAuthClient) × (code : Text) × ((check_credentials api env req.username
            req.password w).1
          ≡ goes u)
        × ((validate_authorize api env req.params w).1 ≡ goes c)
        × (env.draw_oauth_code ≡ some code)
        × (location
            ≡ with_state api env req.params.state
                (req.params.redirect_uri ++ bytes "?code=" ++ env.query_escape code))
        × ((handle_authorize_confirm api env (decoded req) w).0 ≡ record w {
          store = (api.save_oauth_code (saved_code req.params u.id code) w.store).0;
        })
  unfolding handle_authorize_confirm
  confirm_parts req location h =
      let same = check_world req.username req.password in
      elim (Outcome-cases (check_credentials api env req.username req.password w).1) [
        | inr (x, e) ↦ ground (arith, e)
        | inl (u, e) ↦ elim (Outcome-cases (validate_authorize api env req.params w).1) [
          | inr (x, f) ↦ ground (arith, e, f, same)
          | inl (c, f) ↦ elim (Option-cases env.draw_oauth_code) [
            | inl g ↦ ground (arith, e, f, g, same)
            | inr (code, g) ↦ (
              u,
              c,
              code,
              e,
              f,
              g,
              ground (arith, e, f, g, same, validate_authorize_sound req.params c f),
              ground (arith, e, f, g, same, validate_authorize_sound req.params c f),
            )
          ]
        ]
      ]

  -- The redirect URI with the code behind it, and the state behind that, if there is one.
  abbrev pub SendsBack : AuthorizeParams → Text → Text → Type 0
  SendsBack p code location =
      let back = p.redirect_uri ++ bytes "?code=" ++ env.query_escape code in
      ((p.state ≡ []) × (location ≡ back))
      ⊎ ((p.state ≢ []) × (location ≡ back ++ bytes "&state=" ++ env.query_escape p.state))

  -- A client that POST /oauth/register accepts has at least one redirect URI, and each of them is
  -- https, or http to the machine itself.
  pub register_uris_safe :
      (req : RegistrationRequest) (id name : Text) (uris : List Text)
      → (handle_oauth_register api env (decoded req) w).1 ≡ goes (registered id name uris)
      → (uris ≢ []) × All (λ uri. validate_redirect_uri env.parse_url uri ≡ none) uris
  unfolding handle_oauth_register
  register_uris_safe req id name uris h =
      ground (arith, first_bad_uri-none env.parse_url req.redirect_uris)

code_injective : {o : Option Text} (a b : Text) → o ≡ some a → o ≡ some b → a ≡ b
code_injective a b p q = ground arith

-- Exchanging a code that was just stored.
exchange_saved :
    (env : Env) (now : ℕ) (id : Text) (c : OAuthCode) (saved_at : ℕ) (w : World Store)
    (tok : TokenRequest)
    → c.code_hash ≡ env.hash_token tok.code
    → tok.code ≢ []
    → tok.client_id ≢ []
    → tok.redirect_uri ≢ []
    → tok.code_verifier ≢ []
    → tok.client_id ≡ c.client_id
    → tok.redirect_uri ≡ c.redirect_uri
    → env.s256 tok.code_verifier ≡ c.code_challenge
    → now ≤ c.expires_at
    → let s = (save_oauth_code c saved_at w.store).0 in
      grant_authorization_code (memory_api now id) env tok (record w { store = s })
      ≡ issue_pair
          (memory_api now id)
          env
          c.user_id
          (record w { store = record s { codes = erase c.code_hash s.codes } })
unfolding grant_authorization_code save_oauth_code consume_oauth_code
exchange_saved env now id c saved_at w tok h1 h2 h3 h4 h5 h6 h7 h8 h9 = ground (
  arith,
  lookup-insert c.code_hash c.code_hash c
      (retain (λ d. not (ltb d.expires_at saved_at)) w.store.codes),
)

-- The code that a confirmed login hands out buys tokens: sent to POST /token with the same client
-- and redirect URI and with a non-empty verifier whose S256 hash is the challenge, no later than the
-- code's lifetime allows, over the in-memory store and the same token hash, it comes to the issue of
-- tokens for the user who logged in, on a store without the code.
pub confirm_then_exchange :
    (env env' : Env) (now now' : ℕ) (id id' : Text) (w : World Store)
    (req : AuthorizeConfirmRequest) (location : Text) (tok : TokenRequest)
    → (handle_authorize_confirm (memory_api now id) env (decoded req) w).1
      ≡ goes (confirmed location)
    → env.draw_oauth_code ≡ some tok.code
    → tok.code ≢ []
    → tok.client_id ≡ req.params.client_id
    → tok.redirect_uri ≡ req.params.redirect_uri
    → tok.code_verifier ≢ []
    → env'.s256 tok.code_verifier ≡ req.params.code_challenge
    → env'.hash_token tok.code ≡ env.hash_token tok.code
    → now' ≤ env.now + env.code_ttl
    → let w' = (handle_authorize_confirm (memory_api now id) env (decoded req) w).0 in
      (u : User) × (get_user_by_username req.username w.store ≡ ok u)
      × (grant_authorization_code (memory_api now' id') env' tok w'
          ≡ issue_pair (memory_api now' id') env' u.id (record w' {
            store = record w'.store { codes = erase (env.hash_token tok.code) w'.store.codes };
          }))
confirm_then_exchange env env' now now' id id' w req location tok h drawn h1 h2 h3 h4 h5 h6 h7 =
    let api = memory_api now id in
    let (u, c, code, e, f, g, l, after) = confirm_parts api env w req location h in
    let sound = validate_authorize_sound api env w req.params c f in
    (
      u,
      (check_sound api env w req.username req.password u e).0,
      rw (after, code_injective code tok.code g drawn)
          (exchange_saved env' now' id' (saved_code api env w req.params u.id tok.code) now w tok
            (sym h6) h1 (ground (arith, sound)) (ground (arith, sound)) h4 h2 h3 h5 h7),
    )
