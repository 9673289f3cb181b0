-- ===== src/Auth/Http/Tests.antt =====
-- A small auth server: one store, one environment, some requests, and the handlers' theorems on them.
use akira_mcp.Base.{
  ◌<◌, ℕ, ◌≡◌, ◌≢◌, ◌⊎◌, List, [], ◌∷◌, ◌++◌, none, some, true, false, arith, refl, list_eq, nat_eq,
  ◌==◌, ◌/◌,
}
use akira_mcp.Base.Map.{lookup, insert, erase, retain}
use akira_mcp.Base.Text.{Text, bytes, has_prefix, contains_byte, trim_prefix, trim_space, to_lower}
use akira_mcp.Auth.Types.{RefreshToken, ok, User, EmailVerification, OAuthClient, OAuthCode}
use akira_mcp.Auth.Memory.{Store, empty_store}
use akira_mcp.Auth.Memory.Users.{
  get_user_by_username, get_user_by_id, get_user_by_email, create_user_with_code, create_user,
  set_connect_key, clashes,
}
use akira_mcp.Auth.Memory.Verification.{complete_email_verification, finish_verification}
use akira_mcp.Auth.Memory.Refresh.{save_refresh, rotate_refresh}
use akira_mcp.Auth.Memory.OneTime.{live_token}
use akira_mcp.Auth.Memory.OAuth.{
  save_oauth_client, get_oauth_client, save_oauth_code, consume_oauth_code,
}
use akira_mcp.Auth.Memory.Indexes.{Consistent, empty_store-Consistent}
use akira_mcp.Auth.Memory.History.{
  Call, creates_with_code, completes, saves_client, step, run, AllFresh, run-Consistent,
}
use akira_mcp.Auth.Http.{
  Env, World, issued, goes, decoded, confirmed, registered, pending_verification, regenerated,
  connect_key_attempts,
}
use akira_mcp.Auth.Http.Credentials.{check_credentials, issue_pair, nanos}
use akira_mcp.Auth.Http.Token.{
  TokenRequest, grant_password, grant_authorization_code, grant_refresh, handle_token,
}
use akira_mcp.Auth.Http.OAuth.{
  RegistrationRequest, AuthorizeParams, AuthorizeConfirmRequest, validate_authorize,
  handle_oauth_register, handle_authorize_confirm, validate_redirect_uri, first_bad_uri, is_known,
}
use akira_mcp.Auth.Http.Register.{
  RegisterRequest, VerifyRequest, normal_email, handle_register, handle_verify, complete_loop,
}
use akira_mcp.Auth.Http.Account.{
  handle_regenerate_connect_key, user_from_bearer, assign_connect_key,
}
use akira_mcp.Auth.Http.Stored.{memory_api}
use akira_mcp.Auth.Http.Grants.{grant_code_sound}
use akira_mcp.Auth.Http.Flow.{confirm_then_exchange}
use akira_mcp.Auth.Http.Verify.{
  verify_issues_unverified, verify_sound, AllRefused, Completes, SameAccounts,
}
use akira_mcp.Auth.Http.Rotation.{new_refresh, refresh_token_sound}

abbrev env : Env
env = record {
  hash_token = λ s. b'#' ∷ s;
  s256 = λ s. bytes "0123456789012345678901234567890123456789012" ++ s;
  password_matches = λ h p. h == p;
  hash_password = λ p. some p;
  sign_access = λ id. some id;
  draw_refresh = some (bytes "r");
  parse_access = λ t. some (some t);
  access_ttl = 60;
  refresh_ttl = 1_000;
  draw_key = λ _. some (bytes "k2");
  draw_client_id = some (bytes "c2");
  draw_oauth_code = some (bytes "o");
  draw_verification_code = bytes "123456";
  mail_accepted = λ address code. true;
  parse_url = λ uri. some (record { scheme = bytes "https"; hostname = bytes "c" });
  query_escape = λ s. s;
  email_ttl = 100;
  code_ttl = 100;
  public_url = bytes "https://a";
  frontend_url = bytes "https://f";
  now = 10;
}

abbrev client : OAuthClient
client = record {
  client_id = bytes "c";
  client_name = bytes "C";
  redirect_uris = bytes "https://c" ∷ [];
  created_at = 0;
}

-- Ann and bob have accounts; ann is verified, and bob has been mailed a code.
abbrev ann : User
ann = record {
  id = bytes "u1";
  username = bytes "ann";
  email = bytes "a@x";
  password_hash = bytes "password";
  connect_key = bytes "k2";
  email_verified = true;
}

abbrev bob : User
bob = record {
  id = bytes "u2";
  username = bytes "bob";
  email = bytes "b@x";
  password_hash = bytes "password";
  connect_key = [];
  email_verified = false;
}

abbrev mailed : EmailVerification
mailed = record {
  code_hash = bytes "#1";
  user_id = bytes "u2";
  expires_at = 100;
  created_at = 1;
  attempts = 0;
}

abbrev home : World Store
home = record {
  store = record {
    users = (bytes "ann", ann) ∷ (bytes "bob", bob) ∷ [];
    by_id = (bytes "u2", bytes "bob") ∷ (bytes "u1", bytes "ann") ∷ [];
    by_email = (bytes "b@x", bytes "bob") ∷ (bytes "a@x", bytes "ann") ∷ [];
    by_key = (bytes "k2", bytes "u1") ∷ [];
    refr = [];
    verifs = (bytes "u2", mailed) ∷ [];
    clients = (bytes "c", client) ∷ [];
    codes = [];
  };
  mail = [];
}

abbrev history : List (ℕ × Call)
history =
    (
      0,
      creates_with_code (bytes "u1") (bytes "ann") (bytes "a@x") (bytes "password") (bytes "#0")
          100,
    )
    ∷ (
      1,
      creates_with_code (bytes "u2") (bytes "bob") (bytes "b@x") (bytes "password") (bytes "#1")
          100,
    )
    ∷ (2, completes (bytes "u1") (bytes "#0") (bytes "k2"))
    ∷ (3, saves_client client)
    ∷ []

history-AllFresh : AllFresh empty_store history
unfolding run step create_user_with_code create_user complete_email_verification finish_verification
    save_oauth_client lookup insert erase list_eq nat_eq
history-AllFresh = (refl, (refl, (tt, (tt, tt))))

home-Consistent : Consistent home.store
unfolding run step create_user_with_code create_user complete_email_verification finish_verification
    save_oauth_client lookup insert erase list_eq nat_eq
home-Consistent = run-Consistent empty_store history history-AllFresh empty_store-Consistent

abbrev params : AuthorizeParams
params = record {
  response_type = bytes "code";
  client_id = bytes "c";
  redirect_uri = bytes "https://c";
  scope = [];
  state = bytes "s";
  code_challenge = bytes "0123456789012345678901234567890123456789012v";
  code_challenge_method = bytes "S256";
}

abbrev login : AuthorizeConfirmRequest
login = record { username = bytes "ann"; password = bytes "password"; params = params }

abbrev exchange : TokenRequest
exchange = record {
  grant_type = bytes "authorization_code";
  username = [];
  password = [];
  refresh_token = [];
  code = bytes "o";
  client_id = bytes "c";
  redirect_uri = bytes "https://c";
  code_verifier = bytes "v";
}

abbrev location : Text
location = bytes "https://c?code=o&state=s"

confirms :
    (handle_authorize_confirm (memory_api 10 []) env (decoded login) home).1
    ≡ goes (confirmed location)
unfolding handle_authorize_confirm check_credentials validate_authorize is_known
    get_user_by_username get_oauth_client save_oauth_code lookup insert retain list_eq nat_eq
confirms = refl

confirm_then_exchange_example :
    let w = (handle_authorize_confirm (memory_api 10 []) env (decoded login) home).0 in
    (u : User) × (get_user_by_username (bytes "ann") home.store ≡ ok u)
    × (grant_authorization_code (memory_api 20 []) env exchange w
        ≡ issue_pair
            (memory_api 20 [])
            env
            u.id
            (record w { store = record w.store { codes = erase (bytes "#o") w.store.codes } }))
confirm_then_exchange_example =
    confirm_then_exchange env env 10 20 [] [] home login location exchange confirms refl
      (ground arith) refl refl (ground arith) refl refl (ground arith)

validates : (validate_authorize (memory_api 10 []) env params home).1 ≡ goes client
unfolding validate_authorize is_known get_oauth_client lookup list_eq nat_eq
validates = refl

abbrev new_client : RegistrationRequest
new_client = record {
  client_name = bytes "N";
  redirect_uris = bytes "https://n" ∷ [];
  token_endpoint_auth_method = [];
}

registers_client :
    (handle_oauth_register (memory_api 10 []) env (decoded new_client) home).1
    ≡ goes (registered (bytes "c2") (bytes "N") (bytes "https://n" ∷ []))
unfolding handle_oauth_register save_oauth_client first_bad_uri validate_redirect_uri lookup insert
    list_eq nat_eq
registers_client = refl

-- Bob's password is right, but his email is not verified.
bob_found : get_user_by_username (bytes "bob") home.store ≡ ok bob
unfolding get_user_by_username lookup list_eq nat_eq
bob_found = refl

abbrev sign_in : TokenRequest
sign_in = record {
  grant_type = bytes "password";
  username = bytes "ann";
  password = bytes "password";
  refresh_token = [];
  code = [];
  client_id = [];
  redirect_uri = [];
  code_verifier = [];
}

signs_in :
    (grant_password (memory_api 10 []) env sign_in home).1
    ≡ goes (issued (bytes "u1") (bytes "r") (60 / nanos))
unfolding grant_password check_credentials issue_pair get_user_by_username save_refresh lookup
    insert list_eq nat_eq
signs_in = refl

abbrev confirmed_home : World Store
confirmed_home = (handle_authorize_confirm (memory_api 10 []) env (decoded login) home).0

exchanges :
    (grant_authorization_code (memory_api 20 []) env exchange confirmed_home).1
    ≡ goes (issued (bytes "u1") (bytes "r") (60 / nanos))
unfolding handle_authorize_confirm check_credentials validate_authorize is_known
    get_user_by_username get_oauth_client save_oauth_code grant_authorization_code
    consume_oauth_code issue_pair save_refresh lookup insert erase retain list_eq nat_eq
exchanges = refl

grant_code_sound_example :
    (c : OAuthCode) × ((consume_oauth_code (bytes "#o") 20 confirmed_home.store).1 ≡ ok c)
    × (c.client_id ≡ bytes "c")
    × (c.redirect_uri ≡ bytes "https://c")
    × (bytes "0123456789012345678901234567890123456789012v" ≡ c.code_challenge)
    × (some c.user_id ≡ some (bytes "u1"))
grant_code_sound_example =
    grant_code_sound (memory_api 20 []) env confirmed_home exchange (bytes "u1") (bytes "r")
      (60 / nanos) exchanges

ann_by_email : get_user_by_email (normal_email (bytes " A@x")) home.store ≡ ok ann
unfolding get_user_by_email trim_space to_lower lookup list_eq nat_eq
ann_by_email = refl

bob_by_email : get_user_by_email (normal_email (bytes "b@x")) home.store ≡ ok bob
unfolding get_user_by_email trim_space to_lower lookup list_eq nat_eq
bob_by_email = refl

a_normal : normal_email (bytes " A@x") ≡ bytes "a@x"
unfolding trim_space to_lower nat_eq
a_normal = refl

b_normal : normal_email (bytes "b@x") ≡ bytes "b@x"
unfolding trim_space to_lower nat_eq
b_normal = refl

a_not_empty : normal_email (bytes " A@x") ≢ []
a_not_empty = ground (arith, a_normal)

b_not_empty : normal_email (bytes "b@x") ≢ []
b_not_empty = ground (arith, b_normal)

-- An environment whose mail server refuses everything.
abbrev no_mail : Env
no_mail = record env { mail_accepted = λ address code. false }

abbrev signup : RegisterRequest
signup = record { username = bytes "cat"; email = bytes "C@x"; password = bytes "password" }

signs_up :
    (handle_register (memory_api 10 (bytes "u3")) env (decoded signup) home).1
    ≡ goes (pending_verification 201)
unfolding handle_register create_user_with_code create_user trim_space to_lower contains_byte lookup
    insert list_eq nat_eq
signs_up = refl

abbrev signed_up : World Store
signed_up = (handle_register (memory_api 10 (bytes "u3")) env (decoded signup) home).0

-- Each key that `env` draws is ann's.
abbrev bob_verifies : VerifyRequest
bob_verifies = record { email = bytes "b@x"; code = bytes "1" }

bob_waits : lookup (bytes "u2") home.store.verifs ≡ some mailed
unfolding lookup list_eq nat_eq
bob_waits = refl

k2_taken : clashes (lookup (bytes "k2") home.store.by_key) (bytes "u2") ≡ true
unfolding lookup list_eq nat_eq
k2_taken = refl

verify_issues_unverified_example :
    let (w, r) = handle_verify (memory_api 10 []) env (decoded bob_verifies) home in
    (r ≡ goes (issued (bytes "u2") (bytes "r") (60 / nanos)))
    × (w.store.users ≡ home.store.users)
    × (w.store.by_key ≡ home.store.by_key)
    × (w.store.verifs ≡ home.store.verifs)
verify_issues_unverified_example =
    verify_issues_unverified env 10 [] home bob_verifies bob mailed (bytes "u2") (bytes "r")
      b_not_empty (ground arith) bob_by_email bob_waits refl (ground arith) (ground arith)
      (λ i. (bytes "k2", refl, k2_taken)) refl refl

-- An environment that draws a key that nobody has.
abbrev new_key : Env
new_key = record env { draw_key = λ _. some (bytes "k5") }

bob_is_verified :
    (handle_verify (memory_api 10 []) new_key (decoded bob_verifies) home).1
    ≡ goes (issued (bytes "u2") (bytes "r") (60 / nanos))
unfolding handle_verify complete_loop issue_pair save_refresh complete_email_verification
    finish_verification get_user_by_email trim_space to_lower lookup insert erase list_eq nat_eq
bob_is_verified = refl

-- The store after Bob's verification.
abbrev bob_done : Store
bob_done = (handle_verify (memory_api 10 []) new_key (decoded bob_verifies) home).0.store

verify_sound_example :
    (u : User) × (get_user_by_email (normal_email (bytes "b@x")) home.store ≡ ok u)
    × (some u.id ≡ some (bytes "u2"))
    × (((i : ℕ) × (key : Text) × (i < connect_key_attempts)
          × (some (bytes "k5") ≡ some key)
          × Completes 10 u.id (bytes "#1") key home.store bob_done)
        ⊎ (((key : Text) × (some (bytes "k5") ≡ some key)
              × AllRefused new_key 10 u.id (bytes "#1") home.store connect_key_attempts 0 key)
            × SameAccounts home.store bob_done))
verify_sound_example =
    verify_sound new_key 10 [] home bob_verifies (bytes "u2") (bytes "r") (60 / nanos)
      bob_is_verified

regenerates :
    (handle_regenerate_connect_key (memory_api 10 []) new_key (bytes "Bearer u1") home).1
    ≡ goes (regenerated (bytes "k5"))
unfolding handle_regenerate_connect_key user_from_bearer assign_connect_key set_connect_key
    get_user_by_id has_prefix trim_prefix lookup insert erase list_eq nat_eq
regenerates = refl

abbrev regenerated_home : World Store
regenerated_home =
    (handle_regenerate_connect_key (memory_api 10 []) new_key (bytes "Bearer u1") home).0

-- Ann has a session.
abbrev session : RefreshToken
session = record { token_hash = bytes "#q"; user_id = bytes "u1"; expires_at = 50; created_at = 0 }

abbrev with_session : World Store
with_session = record home { store = record home.store { refr = (bytes "#q", session) ∷ [] } }

abbrev renewal : TokenRequest
renewal = record {
  grant_type = bytes "refresh_token";
  username = [];
  password = [];
  refresh_token = bytes "q";
  code = [];
  client_id = [];
  redirect_uri = [];
  code_verifier = [];
}

renews :
    (handle_token (memory_api 10 []) env (decoded renewal) with_session).1
    ≡ goes (issued (bytes "u1") (bytes "r") (60 / nanos))
unfolding handle_token grant_refresh rotate_refresh lookup insert erase retain list_eq nat_eq
renews = refl

refresh_token_sound_example :
    let w = (handle_token (memory_api 10 []) env (decoded renewal) with_session).0 in
    (old : RefreshToken) × (live_token (bytes "#q") 10 with_session.store ≡ some old)
    × (some old.user_id ≡ some (bytes "u1"))
    × (lookup (bytes "#r") w.store.refr ≡ some (new_refresh env (bytes "r") old.user_id))
    × (lookup (bytes "#q") w.store.refr ≡ none)
refresh_token_sound_example =
    refresh_token_sound env 10 [] with_session renewal (bytes "u1") (bytes "r") (60 / nanos) refl
      renews (ground arith)
