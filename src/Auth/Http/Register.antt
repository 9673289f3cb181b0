-- ===== src/Auth/Http/Register.antt =====
-- internal/auth/httpapi/register.go
use akira_mcp.Base.{
  ℕ, zero, suc, ◌+◌, not, ◌||◌, none, some, [], ◌∷◌, ◌==◌, list_eq, nat_eq, if◌then◌else◌, length,
  ltb,
}
use akira_mcp.Base.Text.{Text, trim_space, to_lower, contains_byte}
use akira_mcp.Auth.Types.{
  StoreError, user_not_found, user_exists, email_exists, connect_key_exists, verification_not_found,
  verification_wrong_code, unavailable, Result, ok, err,
}
use akira_mcp.Auth.Http.{
  StoreApi, Env, Handler, Reply, failure, pending_verification, Body, server_error, invalid_request,
  ◌>>=◌, ◌>>◌, pure, stop, fail_if, or_reply, reads, writes, decode, connect_key_attempts,
}
use akira_mcp.Auth.Http.Credentials.{issue_pair}

pub record RegisterRequest : Type 0 where
  pub username : Text
  pub email : Text
  pub password : Text

pub record VerifyRequest : Type 0 where
  pub email : Text
  pub code : Text

-- strings.TrimSpace(strings.ToLower(email))
abbrev pub normal_email : Text → Text
normal_email email = trim_space (to_lower email)

abbrev create_error : StoreError → Reply
create_error user_exists = failure 409 "user_exists" "username is already taken"
create_error email_exists = failure 409 "email_exists" "email is already registered"
create_error _ = server_error "registration failed"

abbrev pub invalid_code : Reply
invalid_code = failure 401 "invalid_code" "wrong or expired verification code"

abbrev lookup_error : StoreError → Reply
lookup_error user_not_found = invalid_code
lookup_error _ = server_error "verification failed"

abbrev complete_error : StoreError → Reply
complete_error verification_not_found = invalid_code
complete_error verification_wrong_code = invalid_code
complete_error _ = server_error "verification failed"

abbrev resend_error : StoreError → Reply
resend_error user_not_found = pending_verification 200
resend_error _ = server_error "resend failed"

module _ (api : StoreApi) (env : Env) where
  -- Mail.SendCode
  abbrev pub send_code : Text → Text → Handler api.State (Unit {0})
  send_code address code w =
      if env.mail_accepted address code
      then pure tt (record w { mail = record { address = address; code = code } ∷ w.mail })
      else stop (server_error "failed to send verification code") w

  -- handleRegister
  unfoldable pub handle_register : Body RegisterRequest → Handler api.State Reply
  handle_register body = do
    req ← decode body
    let username = trim_space req.username
    let email = normal_email req.email
    fail_if (username == [] || (email == [] || not (contains_byte b'@' email)))
        (invalid_request "username and a valid email are required")
    fail_if (ltb (length req.password) 8) (invalid_request "password must be at least 8 characters")
    fail_if (ltb 72 (length req.password)) (invalid_request "password must be at most 72 bytes")
    hash ← or_reply (env.hash_password req.password) (server_error "registration failed")
    user ←
        writes
          (api.create_user_with_code username email hash (env.hash_token env.draw_verification_code)
            (env.now + env.email_ttl))
          create_error
    send_code user.email env.draw_verification_code
    pure (pending_verification 201)

  -- The loop of handleVerify: `round` counts the keys drawn so far, `key` is the last of them, and
  -- the result is the variable `err` when the loop ends. A failed draw is `unavailable`.
  unfoldable pub complete_loop :
      ℕ → ℕ → Text → Text → Text → api.State → api.State × Result (Unit {0})
  complete_loop zero round user_id code_hash key s = (s, ok tt)
  complete_loop (suc left) round user_id code_hash key s =
      let (t, r) = api.complete_email_verification user_id code_hash key s in
      elim r [
        | ok _ ↦ (t, ok tt)
        | err e ↦ elim e [
          | connect_key_exists ↦ elim (env.draw_key (suc round)) [
            | none ↦ (t, err unavailable)
            | some key' ↦ complete_loop left (suc round) user_id code_hash key' t
          ]
          | other ↦ (t, err other)
        ]
      ]

  -- handleVerify
  unfoldable pub handle_verify : Body VerifyRequest → Handler api.State Reply
  handle_verify body = do
    req ← decode body
    let email = normal_email req.email
    fail_if (email == [] || req.code == []) (invalid_request "email and code are required")
    user ← reads (api.get_user_by_email email) lookup_error
    key ← or_reply (env.draw_key 0) (server_error "verification failed")
    writes (complete_loop connect_key_attempts 0 user.id (env.hash_token req.code) key)
        complete_error
    issue_pair api env user.id

  -- handleResend
  unfoldable pub handle_resend : Body Text → Handler api.State Reply
  handle_resend body = do
    raw ← decode body
    let email = normal_email raw
    fail_if (email == []) (invalid_request "email is required")
    user ← reads (api.get_user_by_email email) resend_error
    fail_if user.email_verified (pending_verification 200)
    send_code user.email env.draw_verification_code
    writes
        (api.save_email_verification (record {
          code_hash = env.hash_token env.draw_verification_code;
          user_id = user.id;
          expires_at = env.now + env.email_ttl;
          created_at = env.now;
          attempts = 0;
        }))
        (λ _. server_error "resend failed")
    pure (pending_verification 200)
