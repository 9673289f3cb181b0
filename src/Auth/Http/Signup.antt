-- ===== src/Auth/Http/Signup.antt =====
-- Registration and the repeated code, over the in-memory store or over any store.
use akira_mcp.Base.{
  ℕ, ◌+◌, ◌≤◌, ◌≡◌, ◌≢◌, ◌⊎◌, inl, inr, true, false, some, [], ◌∷◌, length, arith, list_eq, nat_eq,
  Option-cases, refl,
}
use akira_mcp.Base.Map.{lookup, lookup-insert}
use akira_mcp.Base.Text.{Text, trim_space, contains_byte}
use akira_mcp.Auth.Types.{Result-cases, ok, err, User, EmailVerification, user_not_found}
use akira_mcp.Auth.Memory.{Store}
use akira_mcp.Auth.Memory.Users.{new_user, get_user_by_username, create_user, create_user_with_code}
use akira_mcp.Auth.Http.{
  StoreApi, Env, World, goes, replied, pending_verification, server_error, decoded,
}
use akira_mcp.Auth.Http.Stored.{memory_api}
use akira_mcp.Auth.Http.Register.{RegisterRequest, handle_register, handle_resend, normal_email}

module _ (api : StoreApi) (env : Env) (w : World api.State) where
  -- A repeated code for an email that nobody has and one for an email that is verified get the same
  -- reply, and nothing is written or sent.
  pub resend_indistinct :
      (raw : Text)
      → normal_email raw ≢ []
      → (api.get_user_by_email (normal_email raw) w.store ≡ err user_not_found)
        ⊎ ((u : User) × (api.get_user_by_email (normal_email raw) w.store ≡ ok u)
            × (u.email_verified ≡ true))
      → handle_resend api env (decoded raw) w ≡ (w, replied (pending_verification 200))
  unfolding handle_resend
  resend_indistinct raw h reason = ground arith

  -- If the mail server refuses the new code, the store is as it was, so the code sent before still
  -- works.
  pub resend_mail_first :
      (raw : Text) (u : User)
      → normal_email raw ≢ []
      → api.get_user_by_email (normal_email raw) w.store ≡ ok u
      → u.email_verified ≡ false
      → env.mail_accepted u.email env.draw_verification_code ≡ false
      → handle_resend api env (decoded raw) w
        ≡ (w, replied (server_error "failed to send verification code"))
  unfolding handle_resend
  resend_mail_first raw u h found unverified refused = ground arith

  -- What a registration that is answered with pending_verification went through.
  register_parts :
      (req : RegisterRequest) (status : ℕ)
      → (handle_register api env (decoded req) w).1 ≡ goes (pending_verification status)
      → (hash : Text) × (u : User) × (let r =
            api.create_user_with_code
              (trim_space req.username)
              (normal_email req.email)
              hash
              (env.hash_token env.draw_verification_code)
              (env.now + env.email_ttl)
              w.store in
          (r.1 ≡ ok u)
          × ((handle_register api env (decoded req) w).0 ≡ record {
            store = r.0;
            mail = record { address = u.email; code = env.draw_verification_code } ∷ w.mail;
          })
          × (contains_byte b'@' (normal_email req.email) ≡ true)
          × (8 ≤ length req.password)
          × (length req.password ≤ 72))
  unfolding handle_register
  register_parts req status h = elim (Option-cases (env.hash_password req.password)) [
    | inl e ↦ ground (arith, e)
    | inr (hash, e) ↦
        let r =
          api.create_user_with_code (trim_space req.username) (normal_email req.email) hash
            (env.hash_token env.draw_verification_code) (env.now + env.email_ttl) w.store in
        elim (Result-cases r.1) [
          | inr (x, f) ↦ ground (arith, e, f)
          | inl (u, f) ↦ (
            hash,
            u,
            (
              f,
              ground (arith, e, f),
              ground (arith, e, f),
              ground (arith, e, f),
              ground (arith, e, f),
            ),
          )
        ]
  ]

created_with_code :
    (id name email hash code_hash : Text) (expires_at now : ℕ) (s : Store) (u : User)
    → (create_user_with_code id name email hash code_hash expires_at now s).1 ≡ ok u
    → let t = (create_user_with_code id name email hash code_hash expires_at now s).0 in
      (lookup name t.users ≡ some u)
      × (u.email ≡ email)
      × (u.email_verified ≡ false)
      × (lookup u.id t.verifs
          ≡ some (record {
            code_hash = code_hash;
            user_id = u.id;
            expires_at = expires_at;
            created_at = now;
            attempts = 0;
          }))
unfolding create_user_with_code create_user
created_with_code id name email hash code_hash expires_at now s u h =
    let v = new_user id name email hash in
    let c : EmailVerification = record {
      code_hash = code_hash;
      user_id = id;
      expires_at = expires_at;
      created_at = now;
      attempts = 0;
    } in
    (
      ground (arith, lookup-insert name name v s.users),
      ground arith,
      ground arith,
      ground (arith, lookup-insert id id c s.verifs),
    )

found_by_name :
    (name : Text) (u : User) (s : Store)
    → lookup name s.users ≡ some u
    → get_user_by_username name s ≡ ok u
unfolding get_user_by_username
found_by_name name u s h = ground arith

-- A registration over the in-memory store that is answered with pending_verification has a password
-- of 8 to 72 bytes and an email with an `@`; the user is stored under the trimmed name and the
-- normalised email, not verified, and exactly one mail went out: it carries to that email the code
-- whose hash is stored for the user, with no attempt counted.
pub register_mails_code :
    (env : Env) (now : ℕ) (id : Text) (w : World Store) (req : RegisterRequest) (status : ℕ)
    → (handle_register (memory_api now id) env (decoded req) w).1
      ≡ goes (pending_verification status)
    → let w' = (handle_register (memory_api now id) env (decoded req) w).0 in
      (u : User) × (get_user_by_username (trim_space req.username) w'.store ≡ ok u)
      × (u.email ≡ normal_email req.email)
      × (u.email_verified ≡ false)
      × (contains_byte b'@' u.email ≡ true)
      × (8 ≤ length req.password)
      × (length req.password ≤ 72)
      × (w'.mail ≡ record { address = u.email; code = env.draw_verification_code } ∷ w.mail)
      × (lookup u.id w'.store.verifs
          ≡ some (record {
            code_hash = env.hash_token env.draw_verification_code;
            user_id = u.id;
            expires_at = env.now + env.email_ttl;
            created_at = now;
            attempts = 0;
          }))
register_mails_code env now id w req status h =
    let (hash, u, parts) = register_parts (memory_api now id) env w req status h in
    let (found, email, unverified, sent) =
      created_with_code id (trim_space req.username) (normal_email req.email) hash
        (env.hash_token env.draw_verification_code) (env.now + env.email_ttl) now w.store u
        parts.0 in
    (
      u,
      rw parts.1 (found_by_name (trim_space req.username) u _ found),
      email,
      unverified,
      rw email parts.2,
      parts.3,
      parts.4,
      rw parts.1 refl,
      rw parts.1 sent,
    )
