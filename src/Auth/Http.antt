-- ===== src/Auth/Http.antt =====
-- internal/auth/httpapi/httpapi.go: what the handlers share. A handler reads a decoded request and
-- takes the world (the store and the mail that was sent) to the new world and the reply.
-- The store is an interface, as in internal/auth/store/store.go. Cryptography, randomness, the
-- clock and the mail server are the fields of `Env`, one reading of each for a request.
pub mod Credentials
pub mod Token
pub mod OAuth
pub mod Register
pub mod Account
pub mod Stored
pub mod Grants
pub mod Flow
pub mod Signup
pub mod Verify
pub mod Keys
pub mod Rotation
mod Tests
use akira_mcp.Base.{
  ℕ, ◌≡◌, ◌⊎◌, inl, inr, refl, Bool, true, false, Option, none, some, List, [], ◌∷◌, String,
}
use akira_mcp.Base.Text.{Text}
use akira_mcp.Auth.Types.{
  StoreError, Result, ok, err, User, RefreshToken, EmailVerification, OAuthClient, OAuthCode,
}

-- authstore.Store
pub record StoreApi : Type 1 where
  pub State : Type 0
  pub create_user_with_code : Text → Text → Text → Text → ℕ → State → State × Result User
  pub get_user_by_username : Text → State → Result User
  pub get_user_by_email : Text → State → Result User
  pub get_user_by_id : Text → State → Result User
  pub set_connect_key : Text → Text → State → State × Result (Unit {0})
  pub save_refresh : RefreshToken → State → State × Result (Unit {0})
  pub rotate_refresh : Text → RefreshToken → State → State × Result RefreshToken
  pub revoke_refresh : Text → State → State × Result (Unit {0})
  pub save_email_verification : EmailVerification → State → State × Result (Unit {0})
  pub complete_email_verification : Text → Text → Text → State → State × Result (Unit {0})
  pub save_oauth_client : OAuthClient → State → State × Result (Unit {0})
  pub get_oauth_client : Text → State → Result OAuthClient
  pub save_oauth_code : OAuthCode → State → State × Result (Unit {0})
  pub consume_oauth_code : Text → State → State × Result OAuthCode

-- A parsed absolute URL: its scheme and its host name without the port.
pub record Url : Type 0 where
  pub scheme : Text
  pub hostname : Text

-- What a request meets outside this code. `none` is a failed call.
pub record Env : Type 0 where
  -- sha256 in hex; and sha256 in base64url, as PKCE S256 wants it
  pub hash_token : Text → Text
  pub s256 : Text → Text
  -- bcrypt: the stored hash against a password, and a new hash
  pub password_matches : Text → Text → Bool
  pub hash_password : Text → Option Text
  -- authtoken.Manager: a signed access token for a user id, a raw refresh token, and the subject of
  -- a valid access token (`some none`: a valid token with no subject)
  pub sign_access : Text → Option Text
  pub draw_refresh : Option Text
  pub parse_access : Text → Option (Option Text)
  pub access_ttl : ℕ
  pub refresh_ttl : ℕ
  -- the connect keys, the client id, the codes that the request draws
  pub draw_key : ℕ → Option Text
  pub draw_client_id : Option Text
  pub draw_oauth_code : Option Text
  pub draw_verification_code : Text
  -- authmail.Sender: whether a code goes out to an address
  pub mail_accepted : Text → Text → Bool
  pub parse_url : Text → Option Url
  pub query_escape : Text → Text
  -- Config
  pub email_ttl : ℕ
  pub code_ttl : ℕ
  pub public_url : Text
  pub frontend_url : Text
  -- the handler's own reading of the clock
  pub now : ℕ

-- A code that went out to an address.
pub record Mail : Type 0 where
  pub address : Text
  pub code : Text

pub record World (S : Type 0) : Type 0 where
  pub store : S
  pub mail : List Mail

-- errorResponse, tokenResponse, registrationResponse, authorizeConfirmResponse and the maps that the
-- handlers answer with.
pub data Reply : Type 0 where
  failure : (status : ℕ) (code description : String) → Reply
  issued : (access refresh : Text) (expires_in : ℕ) → Reply
  pending_verification : (status : ℕ) → Reply
  no_content : Reply
  registered : (client_id client_name : Text) (redirect_uris : List Text) → Reply
  redirect : (location : Text) → Reply
  confirmed : (location : Text) → Reply
  account : (user_id username email : Text) (verified : Bool) (connect_key : Text) → Reply
  regenerated : (connect_key : Text) → Reply

-- decodeJSON: the decoded body, a malformed one, or one above maxBodyBytes.
pub data Body (A : Type 0) : Type 0 where
  decoded : A → Body A
  malformed too_large : Body A

-- A handler goes on with a value, or it has replied.
pub data Outcome (A : Type 0) : Type 0 where
  goes : A → Outcome A
  replied : Reply → Outcome A

pub Outcome-cases :
    {A : Type 0} (r : Outcome A) → ((a : A) × (r ≡ goes a)) ⊎ ((x : Reply) × (r ≡ replied x))
Outcome-cases (goes a) = inl (a, refl)
Outcome-cases (replied x) = inr (x, refl)

abbrev pub Handler : Type 0 → Type 0 → Type 0
Handler S A = World S → World S × Outcome A

module _ {S : Type 0} where
  abbrev pub resume : {A B : Type 0} → World S × Outcome A → (A → Handler S B) → World S × Outcome B
  resume (w, goes a) f = f a w
  resume (w, replied r) f = (w, replied r)

  infixl 10 ◌>>=◌ ◌>>◌
  abbrev pub ◌>>=◌ : {A B : Type 0} → Handler S A → (A → Handler S B) → Handler S B
  ◌>>=◌ m f w = resume (m w) f

  abbrev pub ◌>>◌ : {B : Type 0} → Handler S (Unit {0}) → Handler S B → Handler S B
  m >> n = m >>= λ _. n

  abbrev pub pure : {A : Type 0} → A → Handler S A
  pure a w = (w, goes a)

  abbrev pub stop : {A : Type 0} → Reply → Handler S A
  stop r w = (w, replied r)

  -- `if b { writeError; return }`
  abbrev pub fail_if : Bool → Reply → Handler S (Unit {0})
  fail_if true r = stop r
  fail_if false r = pure tt

  abbrev pub or_reply : {A : Type 0} → Option A → Reply → Handler S A
  or_reply none r = stop r
  or_reply (some a) r = pure a

  abbrev pub of_result : {A : Type 0} → Result A → (StoreError → Reply) → Handler S A
  of_result (ok a) r = pure a
  of_result (err e) r = stop (r e)

  abbrev pub reads : {A : Type 0} → (S → Result A) → (StoreError → Reply) → Handler S A
  reads f r w = of_result (f w.store) r w

  abbrev pub writes : {A : Type 0} → (S → S × Result A) → (StoreError → Reply) → Handler S A
  writes f r w = let (s, a) = f w.store in of_result a r (record w { store = s })

  abbrev pub decode : {A : Type 0} → Body A → Handler S A
  decode (decoded a) = pure a
  decode malformed = stop (failure 400 "invalid_request" "malformed JSON body")
  decode too_large = stop (failure 413 "invalid_request" "request body too large")

-- A handler answers with the reply that it ends in.
abbrev pub reply_of : Outcome Reply → Reply
reply_of (goes r) = r
reply_of (replied r) = r

abbrev pub server_error : String → Reply
server_error = failure 500 "server_error"

abbrev pub invalid_request : String → Reply
invalid_request = failure 400 "invalid_request"

abbrev pub connect_key_attempts : ℕ
connect_key_attempts = 8
