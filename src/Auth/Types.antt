-- ===== src/Auth/Types.antt =====
-- internal/auth/store/store.go and oauth.go: the records of the auth store and its errors.
-- Times are instants in nanoseconds; `t.After(u)` is `u < t`.
use akira_mcp.Base.{ℕ, Bool, List, ◌≡◌, ◌⊎◌, inl, inr, refl}
use akira_mcp.Base.Text.{Text}

-- The sentinel errors; `unavailable` stands for any other error of a store, such as a lost database.
pub data StoreError : Type 0 where
  user_not_found user_exists email_exists connect_key_exists : StoreError
  refresh_not_found verification_not_found verification_wrong_code : StoreError
  oauth_client_not_found oauth_code_not_found : StoreError
  unavailable : StoreError

pub data Result {ℓ} (A : Type ℓ) : Type ℓ where
  ok : A → Result A
  err : StoreError → Result A

pub Result-cases {ℓ} :
    {A : Type ℓ} (r : Result A) → ((a : A) × (r ≡ ok a)) ⊎ ((e : StoreError) × (r ≡ err e))
Result-cases (ok a) = inl (a, refl)
Result-cases (err e) = inr (e, refl)

pub record User : Type 0 where
  pub id : Text
  pub username : Text
  pub email : Text
  pub password_hash : Text
  pub connect_key : Text
  pub email_verified : Bool

pub record RefreshToken : Type 0 where
  pub token_hash : Text
  pub user_id : Text
  pub expires_at : ℕ
  pub created_at : ℕ

pub record EmailVerification : Type 0 where
  pub code_hash : Text
  pub user_id : Text
  pub expires_at : ℕ
  pub created_at : ℕ
  pub attempts : ℕ

pub record OAuthClient : Type 0 where
  pub client_id : Text
  pub client_name : Text
  pub redirect_uris : List Text
  pub created_at : ℕ

pub record OAuthCode : Type 0 where
  pub code_hash : Text
  pub user_id : Text
  pub client_id : Text
  pub redirect_uri : Text
  pub scope : Text
  pub code_challenge : Text
  pub code_challenge_method : Text
  pub expires_at : ℕ
  pub created_at : ℕ

abbrev pub max_verification_attempts : ℕ
max_verification_attempts = 5
