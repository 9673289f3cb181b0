-- ===== src/Auth/Http/OAuth.antt =====
-- internal/auth/httpapi/oauth.go
use akira_mcp.Base.{
  ℕ, ◌+◌, ◌++◌, String, Bool, false, not, ◌||◌, Option, none, some, List, [], ◌∷◌, ◌==◌, list_eq,
  nat_eq, if◌then◌else◌, length, ltb,
}
use akira_mcp.Base.Text.{Text, bytes}
use akira_mcp.Auth.Types.{StoreError, oauth_client_not_found, OAuthClient}
use akira_mcp.Auth.Http.{
  StoreApi, Env, Url, Handler, Reply, failure, registered, redirect, confirmed, Body, server_error,
  invalid_request, ◌>>=◌, ◌>>◌, pure, stop, fail_if, or_reply, reads, writes, decode,
}
use akira_mcp.Auth.Http.Credentials.{check_credentials}

-- registrationRequest, as far as it is read
pub record RegistrationRequest : Type 0 where
  pub client_name : Text
  pub redirect_uris : List Text
  pub token_endpoint_auth_method : Text

pub record AuthorizeParams : Type 0 where
  pub response_type : Text
  pub client_id : Text
  pub redirect_uri : Text
  pub scope : Text
  pub state : Text
  pub code_challenge : Text
  pub code_challenge_method : Text

pub record AuthorizeConfirmRequest : Type 0 where
  pub username : Text
  pub password : Text
  pub params : AuthorizeParams

abbrev pub pkce_challenge_min : ℕ
pkce_challenge_min = 43

abbrev pub pkce_challenge_max : ℕ
pkce_challenge_max = 128

abbrev is_local : Text → Bool
is_local host = host == bytes "localhost" || (host == bytes "127.0.0.1" || host == bytes "::1")

abbrev redirect_error_of : Option Url → Option String
redirect_error_of none = some "invalid redirect_uri"
redirect_error_of (some u) =
    if u.scheme == bytes "https"
    then none
    else if u.scheme == bytes "http"
    then (if is_local u.hostname
        then none
        else some "http redirect_uri is only allowed for localhost")
    else some "redirect_uri must use http or https"

-- validateRedirectURI: what is wrong with the URI, if anything
unfoldable pub validate_redirect_uri : (Text → Option Url) → Text → Option String
validate_redirect_uri parse_url uri = redirect_error_of (parse_url uri)

-- The first registered URI that is refused.
unfoldable pub first_bad_uri : (Text → Option Url) → List Text → Option String
unfolding validate_redirect_uri
first_bad_uri parse_url [] = none
first_bad_uri parse_url (uri ∷ uris) = elim (validate_redirect_uri parse_url uri) [
  | some problem ↦ some problem
  | none ↦ first_bad_uri parse_url uris
]

-- `known` of validateAuthorize
unfoldable pub is_known : List Text → Text → Bool
is_known [] uri = false
is_known (u ∷ uris) uri = u == uri || is_known uris uri

abbrev client_error : StoreError → Reply
client_error oauth_client_not_found = failure 400 "invalid_client" "unknown client_id"
client_error _ = server_error "authorization failed"

abbrev or_root : Text → Text
or_root [] = bytes "/"
or_root (c ∷ s) = c ∷ s

-- strings.TrimSuffix(s, "/")
unfoldable trim_slash : Text → Text
trim_slash [] = []
trim_slash (c ∷ []) = if c == b'/' then [] else c ∷ []
trim_slash (c ∷ d ∷ s) = c ∷ trim_slash (d ∷ s)

module _ (api : StoreApi) (env : Env) where
  abbrev check_uris : Option String → Handler api.State (Unit {0})
  check_uris none = pure tt
  check_uris (some problem) = stop (failure 400 "invalid_client_metadata" problem)

  -- handleOAuthRegister
  unfoldable pub handle_oauth_register : Body RegistrationRequest → Handler api.State Reply
  handle_oauth_register body = do
    req ← decode body
    fail_if (req.redirect_uris == [])
        (failure 400 "invalid_client_metadata" "redirect_uris is required")
    check_uris (first_bad_uri env.parse_url req.redirect_uris)
    fail_if
        (not
          (req.token_endpoint_auth_method == [] || req.token_endpoint_auth_method == bytes "none"))
        (failure 400 "invalid_client_metadata" "token_endpoint_auth_method must be \"none\"")
    client_id ← or_reply env.draw_client_id (server_error "registration failed")
    writes
        (api.save_oauth_client (record {
          client_id = client_id;
          client_name = req.client_name;
          redirect_uris = req.redirect_uris;
          created_at = env.now;
        }))
        (λ _. server_error "registration failed")
    pure (registered client_id req.client_name req.redirect_uris)

  -- validateAuthorize
  unfoldable pub validate_authorize : AuthorizeParams → Handler api.State OAuthClient
  validate_authorize p = do
    fail_if (not (p.response_type == bytes "code"))
        (failure 400 "unsupported_response_type" "response_type must be \"code\"")
    fail_if (p.client_id == [] || p.redirect_uri == [])
        (invalid_request "client_id and redirect_uri are required")
    fail_if
        (ltb (length p.code_challenge) pkce_challenge_min
          || ltb pkce_challenge_max (length p.code_challenge))
        (invalid_request "code_challenge is required and must be 43..128 characters")
    fail_if (not (p.code_challenge_method == bytes "S256"))
        (invalid_request "code_challenge_method must be \"S256\"")
    client ← reads (api.get_oauth_client p.client_id) client_error
    fail_if (not (is_known client.redirect_uris p.redirect_uri))
        (invalid_request "redirect_uri is not registered for this client")
    pure client

  -- handleAuthorize: the parsed query, and the raw one that the form is handed.
  unfoldable handle_authorize : AuthorizeParams → Text → Handler api.State Reply
  handle_authorize p raw_query = do
    client ← validate_authorize p
    pure (redirect (or_root (trim_slash env.frontend_url) ++ bytes "?" ++ raw_query))

  -- the query that carries the code, and the state if there is one
  abbrev pub with_state : Text → Text → Text
  with_state [] location = location
  with_state (c ∷ state) location = location ++ bytes "&state=" ++ env.query_escape (c ∷ state)

  -- handleAuthorizeConfirm
  unfoldable pub handle_authorize_confirm : Body AuthorizeConfirmRequest → Handler api.State Reply
  handle_authorize_confirm body = do
    req ← decode body
    user ← check_credentials api env req.username req.password
    client ← validate_authorize req.params
    code ← or_reply env.draw_oauth_code (server_error "authorization failed")
    writes
        (api.save_oauth_code (record {
          code_hash = env.hash_token code;
          user_id = user.id;
          client_id = req.params.client_id;
          redirect_uri = req.params.redirect_uri;
          scope = req.params.scope;
          code_challenge = req.params.code_challenge;
          code_challenge_method = req.params.code_challenge_method;
          expires_at = env.now + env.code_ttl;
          created_at = env.now;
        }))
        (λ _. server_error "authorization failed")
    pure (
        confirmed (
          with_state req.params.state
            (req.params.redirect_uri ++ bytes "?code=" ++ env.query_escape code)))
