-- ===== src/Auth/Http/Verify.antt =====
-- POST /verify over the in-memory store (handleVerify of internal/auth/httpapi/register.go).
use akira_mcp.Base.{
  ◌/◌, ℕ, zero, suc, ◌≤◌, ◌<◌, ◌≡◌, ◌≢◌, ◌⊎◌, inl, inr, true, some, [], arith, list_eq, nat_eq,
  Option-cases, refl, ◌+◌, none, ap, ◌∙◌, sym, subst,
}
use akira_mcp.Base.Map.{lookup, lookup-insert, lookup-erase}
use akira_mcp.Base.Text.{Text}
use akira_mcp.Auth.Types.{
  Result-cases, ok, err, User, EmailVerification, connect_key_exists, max_verification_attempts,
}
use akira_mcp.Auth.Memory.{Store, user_at}
use akira_mcp.Auth.Memory.Users.{get_user_by_email, clashes}
use akira_mcp.Auth.Memory.Verification.{complete_email_verification, finish_verification}
use akira_mcp.Auth.Memory.Refresh.{save_refresh}
use akira_mcp.Auth.Memory.Attempts.{complete_clash}
use akira_mcp.Auth.Http.{Env, World, goes, issued, decoded, connect_key_attempts}
use akira_mcp.Auth.Http.Credentials.{issue_pair, nanos}
use akira_mcp.Auth.Http.Stored.{memory_api}
use akira_mcp.Auth.Http.Register.{VerifyRequest, handle_verify, complete_loop, normal_email}

-- On a clash of keys the store is as it was.
clash_same :
    (user_id hash key : Text) (now : ℕ) (s : Store)
    → (complete_email_verification user_id hash key now s).1 ≡ err connect_key_exists
    → (complete_email_verification user_id hash key now s).0 ≡ s
unfolding complete_email_verification finish_verification
clash_same user_id hash key now s h = ground arith

module _ (env : Env) (now : ℕ) (id : Text) (s : Store) (user_id hash : Text)
    (tok : EmailVerification) (sent : lookup user_id s.verifs ≡ some tok)
    (right : tok.code_hash ≡ hash) (in_time : now ≤ tok.expires_at)
    (few : tok.attempts < max_verification_attempts)
    (taken : (i : ℕ)
      → (key : Text) × (env.draw_key i ≡ some key)
        × (clashes (lookup key s.by_key) user_id ≡ true)) where
  -- The loop uses all its rounds up and ends with no error.
  loop_exhausts :
      (left round : ℕ) (key : Text)
      → clashes (lookup key s.by_key) user_id ≡ true
      → complete_loop (memory_api now id) env left round user_id hash key s ≡ (s, ok tt)
  unfolding complete_loop
  loop_exhausts zero round key c = refl
  loop_exhausts (suc left) round key c =
      let (key', drawn, c') = taken (suc round) in
      ground (
        arith,
        complete_clash user_id key now s tok sent in_time few c,
        drawn,
        loop_exhausts left (suc round) key' c',
      )

-- The code was right, in time and before five wrong ones, but each connect key that POST /verify
-- draws belongs to another user: over the in-memory store the reply still is a pair of tokens, and
-- the user stays as before, with the code unused.
pub verify_issues_unverified :
    (env : Env) (now : ℕ) (id : Text) (w : World Store) (req : VerifyRequest) (u : User)
    (tok : EmailVerification) (access raw : Text)
    → normal_email req.email ≢ []
    → req.code ≢ []
    → get_user_by_email (normal_email req.email) w.store ≡ ok u
    → lookup u.id w.store.verifs ≡ some tok
    → tok.code_hash ≡ env.hash_token req.code
    → now ≤ tok.expires_at
    → tok.attempts < max_verification_attempts
    → ((i : ℕ)
        → (key : Text) × (env.draw_key i ≡ some key)
          × (clashes (lookup key w.store.by_key) u.id ≡ true))
    → env.sign_access u.id ≡ some access
    → env.draw_refresh ≡ some raw
    → let (w', r) = handle_verify (memory_api now id) env (decoded req) w in
      (r ≡ goes (issued access raw (env.access_ttl / nanos)))
      × (w'.store.users ≡ w.store.users)
      × (w'.store.by_key ≡ w.store.by_key)
      × (w'.store.verifs ≡ w.store.verifs)
unfolding handle_verify issue_pair save_refresh
verify_issues_unverified env now id w req u tok access raw h1 h2 found sent right in_time few taken
      signed drawn =
    let (key, first, c) = taken 0 in
    let loop =
      loop_exhausts env now id w.store u.id (env.hash_token req.code) tok sent right in_time few
        taken connect_key_attempts 0 key c in
    (
      ground (arith, first, loop),
      ground (arith, first, loop),
      ground (arith, first, loop),
      ground (arith, first, loop),
    )

-- Each of the keys that are tried is refused as another user's.
abbrev pub AllRefused : Env → ℕ → Text → Text → Store → ℕ → ℕ → Text → Type 0
AllRefused env now user_id hash s zero round key = Unit
AllRefused env now user_id hash s (suc left) round key =
    ((complete_email_verification user_id hash key now s).1 ≡ err connect_key_exists)
    × ((key' : Text) × (env.draw_key (suc round) ≡ some key')
        × AllRefused env now user_id hash s left (suc round) key')

-- The store took the code as the user's own, in time and before five wrong ones; then the code is
-- gone, and the user is verified and has the key.
abbrev pub Completes : ℕ → Text → Text → Text → Store → Store → Type 0
Completes now user_id hash key s after =
    (tok : EmailVerification) × (name : Text) × (lookup user_id s.verifs ≡ some tok)
    × (tok.code_hash ≡ hash)
    × (now ≤ tok.expires_at)
    × (tok.attempts < max_verification_attempts)
    × (lookup user_id s.by_id ≡ some name)
    × (lookup name after.users
        ≡ some (record (user_at s name) { email_verified = true; connect_key = key }))
    × (lookup key after.by_key ≡ some user_id)
    × (lookup user_id after.verifs ≡ none)

-- The users, their keys and their codes are the same.
abbrev pub SameAccounts : Store → Store → Type 0
SameAccounts s after =
    (after.users ≡ s.users) × (after.by_key ≡ s.by_key) × (after.verifs ≡ s.verifs)

accepted_sound :
    (now : ℕ) (user_id hash key : Text) (s after : Store)
    → (complete_email_verification user_id hash key now s).1 ≡ ok tt
    → SameAccounts (complete_email_verification user_id hash key now s).0 after
    → Completes now user_id hash key s after
unfolding complete_email_verification finish_verification
accepted_sound now user_id hash key s after h (users, keys, verifs) =
    elim (Option-cases (lookup user_id s.verifs)) [
      | inl e ↦ ground (arith, h, e)
      | inr (tok, e) ↦ elim (Option-cases (lookup user_id s.by_id)) [
        | inl f ↦ ground (arith, h, e, f)
        | inr (name, f) ↦
            let v : User = record (user_at s name) { email_verified = true; connect_key = key } in
            (
              tok,
              name,
              e,
              ground (arith, h, e, f),
              ground (arith, h, e, f),
              ground (arith, h, e, f),
              f,
              ground (arith, h, e, f, users, lookup-insert name name v s.users),
              ground (arith, h, e, f, keys, lookup-insert key key user_id s.by_key),
              ground (arith, h, e, f, verifs, lookup-erase user_id user_id s.verifs),
            )
      ]
    ]

-- The loop ends well with the completion under the key of one of its rounds, or with none.
loop_sound :
    (env : Env) (now : ℕ) (id user_id hash : Text) (s : Store) (left round : ℕ) (key : Text)
    → env.draw_key round ≡ some key
    → (complete_loop (memory_api now id) env left round user_id hash key s).1 ≡ ok tt
    → ((i : ℕ) × (k : Text) × (i < round + left)
        × (env.draw_key i ≡ some k)
        × (complete_email_verification user_id hash k now s
            ≡ complete_loop (memory_api now id) env left round user_id hash key s))
      ⊎ (AllRefused env now user_id hash s left round key
          × (complete_loop (memory_api now id) env left round user_id hash key s ≡ (s, ok tt)))
unfolding complete_loop
loop_sound env now id user_id hash s zero round key drawn h = inr (tt, refl)
loop_sound env now id user_id hash s (suc left) round key drawn h =
    elim (Result-cases (complete_email_verification user_id hash key now s).1) [
      | inl (a, e) ↦ inl (round, key, omega arith, drawn, ground (arith, e))
      | inr (connect_key_exists, e) ↦ elim (Option-cases (env.draw_key (suc round))) [
        | inl f ↦ ground (arith, e, f, h)
        | inr (key', f) ↦
            let same = clash_same user_id hash key now s e in
            elim (loop_sound env now id user_id hash s left (suc round) key' f
              (ground (arith, e, f, same, h))) [
                | inl (i, k, less, d, p) ↦
                    inl (i, k, omega (arith, less), d, ground (arith, e, f, same, p))
                | inr (q, p) ↦ inr ((e, (key', f, q)), ground (arith, e, f, same, p))
              ]
      ]
      | inr (other, e) ↦ ground (arith, e, h)
    ]

-- Tokens from POST /verify over the in-memory store mean one of two things. Either the store took
-- the hash of the given code as that of the user with that email, in time and before five wrong ones,
-- and afterwards the code is gone, the user is verified, and has one of the first eight drawn keys as
-- connect key; or all eight were refused as other users', and users, keys and codes are as before.
pub verify_sound :
    (env : Env) (now : ℕ) (id : Text) (w : World Store) (req : VerifyRequest) (access raw : Text)
    (ttl : ℕ)
    → (handle_verify (memory_api now id) env (decoded req) w).1 ≡ goes (issued access raw ttl)
    → (u : User) × (get_user_by_email (normal_email req.email) w.store ≡ ok u)
      × (env.sign_access u.id ≡ some access)
      × (((i : ℕ) × (key : Text) × (i < connect_key_attempts)
            × (env.draw_key i ≡ some key)
            × Completes now u.id
                (env.hash_token req.code)
                key
                w.store
                (handle_verify (memory_api now id) env (decoded req) w).0.store)
          ⊎ (((key : Text) × (env.draw_key 0 ≡ some key)
                × AllRefused env now u.id
                    (env.hash_token req.code)
                    w.store
                    connect_key_attempts
                    0
                    key)
              × SameAccounts w.store
                  (handle_verify (memory_api now id) env (decoded req) w).0.store))
unfolding handle_verify issue_pair save_refresh
verify_sound env now id w req access raw ttl h =
    let hash = env.hash_token req.code in
    elim (Result-cases (get_user_by_email (normal_email req.email) w.store)) [
      | inr (e, f) ↦ ground (arith, f, h)
      | inl (u, f) ↦ elim (Option-cases (env.draw_key 0)) [
        | inl g ↦ ground (arith, f, g, h)
        | inr (key, g) ↦
            let loop =
              complete_loop (memory_api now id) env connect_key_attempts 0 u.id hash key w.store in
            elim (Result-cases loop.1) [
              | inr (e, l) ↦ ground (arith, f, g, l, h)
              | inl (t, l) ↦
                  let final = (handle_verify (memory_api now id) env (decoded req) w).0.store in
                  let kept : SameAccounts loop.0 final = (
                    ground (arith, f, g, l, h),
                    ground (arith, f, g, l, h),
                    ground (arith, f, g, l, h),
                  ) in
                  (
                    u,
                    f,
                    ground (arith, f, g, l, h),
                    elim (loop_sound env now id u.id hash w.store connect_key_attempts 0 key g l) [
                      | inl (i, k, less, d, p) ↦ inl (
                        i,
                        k,
                        less,
                        d,
                        accepted_sound now u.id hash k w.store final (ap (λ r. r.1) p ∙ l)
                            (subst (λ r. SameAccounts r.0 final) (sym p) kept),
                      )
                      | inr (q, p) ↦ inr ((key, g, q), subst (λ r. SameAccounts r.0 final) p kept)
                    ],
                  )
            ]
      ]
    ]
