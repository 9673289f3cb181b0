-- ===== src/Auth/Memory/OneTime.antt =====
-- Refresh tokens and authorization codes are good for one use.
use akira_mcp.Base.{
  ℕ, ◌≡◌, ◌≢◌, Option-cases, Option, none, some, List, [], ◌∷◌, arith, list_eq, nat_eq, not, inl,
  inr, ◌==◌, ltb, if◌then◌else◌,
}
use akira_mcp.Base.Map.{lookup, erase, retain, keep_if, lookup-insert, lookup-erase, lookup-retain}
use akira_mcp.Base.Text.{Text}
use akira_mcp.Auth.Types.{
  RefreshToken, OAuthCode, Result, ok, err, refresh_not_found, oauth_code_not_found,
}
use akira_mcp.Auth.Memory.{Store}
use akira_mcp.Auth.Memory.Users.{create_user, create_user_with_code, verify_email, set_connect_key}
use akira_mcp.Auth.Memory.Verification.{
  complete_email_verification, finish_verification, save_email_verification,
}
use akira_mcp.Auth.Memory.Refresh.{save_refresh, rotate_refresh, revoke_refresh, live_tokens}
use akira_mcp.Auth.Memory.OAuth.{consume_oauth_code, save_oauth_client, save_oauth_code}
use akira_mcp.Auth.Memory.History.{
  Call, step, run, creates, creates_with_code, verifies, sets_key, saves_code, completes,
  saves_refresh, rotates, revokes, saves_client, saves_oauth_code, consumes,
}

-- The specification: a token is as good as absent once its time is over.
abbrev pub live_token : Text → ℕ → Store → Option RefreshToken
live_token h now s = keep_if (λ t. not (ltb t.expires_at now)) (lookup h s.refr)

abbrev pub rotation_result : Option RefreshToken → Result RefreshToken
rotation_result none = err refresh_not_found
rotation_result (some old) = ok old

abbrev pub rotated_token :
    Text → RefreshToken → Option RefreshToken → Text → Option RefreshToken → Option RefreshToken
rotated_token h tok none j before = before
rotated_token h tok (some old) j before =
    if j == tok.token_hash
    then some (record tok { user_id = old.user_id })
    else if j == h
    then none
    else before

-- RotateRefresh against its specification: it returns the old token exactly if that is there and has
-- not expired, and then swaps it for the new one, under the old one's user; every other token that
-- has not expired is left as it was, and an expired one is gone.
pub rotate_refresh-refines :
    (h : Text) (tok : RefreshToken) (now : ℕ) (s : Store) (j : Text)
    → ((rotate_refresh h tok now s).1 ≡ rotation_result (live_token h now s))
      × (lookup j (rotate_refresh h tok now s).0.refr
          ≡ rotated_token h tok (live_token h now s) j (live_token j now s))
unfolding rotate_refresh
rotate_refresh-refines h tok now s j =
    let p = λ (t : RefreshToken). not (ltb t.expires_at now) in
    let live = live_tokens now s.refr in
    elim (Option-cases (lookup h s.refr)) [
      | inl e ↦ (
        ground (arith, e, lookup-retain h p s.refr),
        ground (arith, e, lookup-retain h p s.refr, lookup-retain j p s.refr),
      )
      | inr (old, e) ↦ (
        ground (arith, e, lookup-retain h p s.refr),
        ground (
          arith,
          e,
          lookup-retain h p s.refr,
          lookup-retain j p s.refr,
          lookup-erase j h live,
          lookup-insert j tok.token_hash (record tok { user_id = old.user_id }) (erase h live),
        ),
      )
    ]

-- The call does not store a refresh token under the hash.
abbrev pub NoNewToken : Text → Call → Type 0
NoNewToken h (saves_refresh tok) = tok.token_hash ≢ h
NoNewToken h (rotates _ tok) = tok.token_hash ≢ h
NoNewToken h _ = Unit

abbrev pub NoNewCode : Text → Call → Type 0
NoNewCode h (saves_oauth_code code) = code.code_hash ≢ h
NoNewCode h _ = Unit

abbrev pub Always : (Call → Type 0) → List (ℕ × Call) → Type 0
Always P [] = Unit
Always P ((now, c) ∷ cs) = P c × Always P cs

-- A refresh token that is absent stays absent, as long as nobody stores one under its hash.
step-absent_token :
    (h : Text) (s : Store) (now : ℕ) (c : Call)
    → NoNewToken h c
    → lookup h s.refr ≡ none
    → lookup h (step s (now, c)).refr ≡ none
unfolding step
step-absent_token h s now (creates id n e p) q a = unfold create_user in ground arith
step-absent_token h s now (creates_with_code id n e p k t) q a =
    unfold create_user_with_code in ground arith
step-absent_token h s now (verifies id) q a = unfold verify_email in ground arith
step-absent_token h s now (sets_key id k) q a = unfold set_connect_key in ground arith
step-absent_token h s now (saves_code tok) q a = unfold save_email_verification in a
step-absent_token h s now (completes id k key) q a =
    unfold complete_email_verification finish_verification in ground arith
step-absent_token h s now (saves_refresh tok) q a =
    unfold save_refresh in ground (arith, lookup-insert h tok.token_hash tok s.refr)
step-absent_token h s now (rotates old tok) q a =
    ground (arith, rotate_refresh-refines old tok now s h)
step-absent_token h s now (revokes k) q a =
    unfold revoke_refresh in ground (arith, lookup-erase h k s.refr)
step-absent_token h s now (saves_client c) q a = unfold save_oauth_client in a
step-absent_token h s now (saves_oauth_code c) q a = unfold save_oauth_code in a
step-absent_token h s now (consumes k) q a = unfold consume_oauth_code in ground arith

run-absent_token :
    (h : Text) (s : Store) (cs : List (ℕ × Call))
    → Always (NoNewToken h) cs
    → lookup h s.refr ≡ none
    → lookup h (run s cs).refr ≡ none
unfolding run
run-absent_token h s [] q a = a
run-absent_token h s ((now, c) ∷ cs) q a =
    run-absent_token h (step s (now, c)) cs q.1 (step-absent_token h s now c q.0 a)

-- A refresh token is good for one rotation: whatever calls follow it, in any order and at any times,
-- a second rotation of the same token fails, unless someone stores a token under its hash again.
pub rotate_once :
    (h : Text) (tok tok' : RefreshToken) (now later : ℕ) (s : Store) (old : RefreshToken)
    (cs : List (ℕ × Call))
    → (rotate_refresh h tok now s).1 ≡ ok old
    → tok.token_hash ≢ h
    → Always (NoNewToken h) cs
    → (rotate_refresh h tok' later (run (rotate_refresh h tok now s).0 cs)).1
      ≡ err refresh_not_found
rotate_once h tok tok' now later s old cs won other q =
    let t = (rotate_refresh h tok now s).0 in
    ground (
      arith,
      rotate_refresh-refines h tok now s h,
      run-absent_token h t cs q,
      rotate_refresh-refines h tok' later (run t cs) h,
    )

-- A revoked refresh token cannot be rotated later, whatever calls come between, unless someone
-- stores a token under its hash again.
pub revoke_final :
    (h : Text) (tok : RefreshToken) (later : ℕ) (s : Store) (cs : List (ℕ × Call))
    → Always (NoNewToken h) cs
    → (rotate_refresh h tok later (run (revoke_refresh h s).0 cs)).1 ≡ err refresh_not_found
unfolding revoke_refresh
revoke_final h tok later s cs q =
    let t = (revoke_refresh h s).0 in
    ground (
      arith,
      lookup-erase h h s.refr,
      run-absent_token h t cs q,
      rotate_refresh-refines h tok later (run t cs) h,
    )

-- A code that is absent stays absent, as long as nobody stores one under its hash.
step-absent_code :
    (h : Text) (s : Store) (now : ℕ) (c : Call)
    → NoNewCode h c
    → lookup h s.codes ≡ none
    → lookup h (step s (now, c)).codes ≡ none
unfolding step
step-absent_code h s now (creates id n e p) q a = unfold create_user in ground arith
step-absent_code h s now (creates_with_code id n e p k t) q a =
    unfold create_user_with_code in ground arith
step-absent_code h s now (verifies id) q a = unfold verify_email in ground arith
step-absent_code h s now (sets_key id k) q a = unfold set_connect_key in ground arith
step-absent_code h s now (saves_code tok) q a = unfold save_email_verification in a
step-absent_code h s now (completes id k key) q a =
    unfold complete_email_verification finish_verification in ground arith
step-absent_code h s now (saves_refresh tok) q a = unfold save_refresh in a
step-absent_code h s now (rotates old tok) q a = unfold rotate_refresh in ground arith
step-absent_code h s now (revokes k) q a = unfold revoke_refresh in a
step-absent_code h s now (saves_client c) q a = unfold save_oauth_client in a
step-absent_code h s now (saves_oauth_code c) q a =
    unfold save_oauth_code in
    ground (
      arith,
      lookup-insert h c.code_hash c (retain (λ d. not (ltb d.expires_at now)) s.codes),
      lookup-retain h (λ (d : OAuthCode). not (ltb d.expires_at now)) s.codes,
    )
step-absent_code h s now (consumes k) q a =
    unfold consume_oauth_code in ground (arith, lookup-erase h k s.codes)

run-absent_code :
    (h : Text) (s : Store) (cs : List (ℕ × Call))
    → Always (NoNewCode h) cs
    → lookup h s.codes ≡ none
    → lookup h (run s cs).codes ≡ none
unfolding run
run-absent_code h s [] q a = a
run-absent_code h s ((now, c) ∷ cs) q a =
    run-absent_code h (step s (now, c)) cs q.1 (step-absent_code h s now c q.0 a)

consume-absent :
    (h : Text) (now : ℕ) (s : Store) → lookup h (consume_oauth_code h now s).0.codes ≡ none
unfolding consume_oauth_code
consume-absent h now s = ground (arith, lookup-erase h h s.codes)

-- An authorization code is good for one exchange, also if that exchange failed because the code had
-- expired: whatever calls follow, a second one fails, unless someone stores a code under its hash
-- again.
pub consume_once :
    (h : Text) (now later : ℕ) (s : Store) (cs : List (ℕ × Call))
    → Always (NoNewCode h) cs
    → (consume_oauth_code h later (run (consume_oauth_code h now s).0 cs)).1
      ≡ err oauth_code_not_found
unfolding consume_oauth_code
consume_once h now later s cs q =
    let t = (consume_oauth_code h now s).0 in
    ground (arith, consume-absent h now s, run-absent_code h t cs q)
