-- ===== src/Auth/Memory/Attempts.antt =====
-- A verification code cannot be guessed: five wrong codes lock the record.
use akira_mcp.Base.{
  ℕ, suc, min, ◌+◌, ◌≤◌, ◌≡◌, ◌≢◌, ◌⊎◌, Option-cases, none, some, List, [], ◌∷◌, arith, list_eq,
  nat_eq, inl, inr, length, subst, refl, ◌<◌, true, false,
}
use akira_mcp.Base.Map.{lookup, lookup-insert, lookup-erase}
use akira_mcp.Base.Text.{Text}
use akira_mcp.Auth.Types.{
  User, EmailVerification, ok, err, verification_not_found, max_verification_attempts,
  connect_key_exists,
}
use akira_mcp.Auth.Memory.{Store}
use akira_mcp.Auth.Memory.Users.{clashes, get_user_by_id, get_user_by_connect_key}
use akira_mcp.Auth.Memory.Indexes.{Consistent, user_of_id}
use akira_mcp.Auth.Memory.Verification.{complete_email_verification, finish_verification}

-- The calls of CompleteEmailVerification for one user: a time, a code's hash, and a connect key.
pub record Guess : Type 0 where
  pub now : ℕ
  pub code_hash : Text
  pub key : Text

unfoldable pub guess_all : Text → Store → List Guess → Store
guess_all id s [] = s
guess_all id s (g ∷ gs) =
    guess_all id (complete_email_verification id g.code_hash g.key g.now s).0 gs

abbrev pub AllWrong : Text → List Guess → Type 0
AllWrong right [] = Unit
AllWrong right (g ∷ gs) = (g.code_hash ≢ right) × AllWrong right gs

-- The user's record is gone, or is for the code `right` with at least `n` guesses counted, or five.
Counts : Text → Text → ℕ → Store → Type 0
Counts id right n s =
    (lookup id s.verifs ≡ none)
    ⊎ ((tok : EmailVerification) × (lookup id s.verifs ≡ some tok)
        × (tok.code_hash ≡ right)
        × (min n max_verification_attempts ≤ tok.attempts))

guess-Counts :
    (id right : Text) (n : ℕ) (s : Store) (g : Guess)
    → g.code_hash ≢ right
    → Counts id right n s
    → Counts id right (suc n) (complete_email_verification id g.code_hash g.key g.now s).0
unfolding Counts complete_email_verification
guess-Counts id right n s g wrong (inl e) = inl (ground (arith, e))
guess-Counts id right n s g wrong (inr (tok, e, same, m)) =
    elim (Option-cases
      (lookup id (complete_email_verification id g.code_hash g.key g.now s).0.verifs)) [
        | inl e' ↦ inl e'
        | inr (tok', e') ↦ inr (
          tok',
          e',
          ground (
            arith,
            lookup-erase id id s.verifs,
            lookup-insert id id (record tok { attempts = suc tok.attempts }) s.verifs,
          ),
          ground (
            arith,
            lookup-erase id id s.verifs,
            lookup-insert id id (record tok { attempts = suc tok.attempts }) s.verifs,
          ),
        )
      ]

guess_all-Counts :
    (id right : Text) (n : ℕ) (s : Store) (gs : List Guess)
    → AllWrong right gs
    → Counts id right n s
    → Counts id right (n + length gs) (guess_all id s gs)
unfolding guess_all Counts
guess_all-Counts id right n s [] w c = subst (λ k. Counts id right k s) (omega arith) c
guess_all-Counts id right n s (g ∷ gs) w c =
    let s' = (complete_email_verification id g.code_hash g.key g.now s).0 in
    subst (λ k. Counts id right k (guess_all id s' gs)) (omega arith)
      (guess_all-Counts id right (suc n) s' gs w.1 (guess-Counts id right n s g w.0 c))

-- After five or more guesses that are all wrong, at any times and with any connect keys, every
-- further guess is refused as if there were no code, the right one included.
pub locked_out :
    (id : Text) (s : Store) (tok : EmailVerification) (gs : List Guess) (g : Guess)
    → lookup id s.verifs ≡ some tok
    → AllWrong tok.code_hash gs
    → max_verification_attempts ≤ length gs
    → (complete_email_verification id g.code_hash g.key g.now (guess_all id s gs)).1
      ≡ err verification_not_found
unfolding Counts complete_email_verification
locked_out id s tok gs g e w many =
    elim (guess_all-Counts id tok.code_hash 0 s gs w (inr (tok, e, refl, omega arith))) [
      | inl gone ↦ ground arith
      | inr (tok', e', same, m) ↦ ground arith
    ]

-- The code that was sent, given in time, before five wrong guesses, and with a connect key that no
-- other user has: in a store with agreeing account maps the user then is verified, is found by the
-- new key, and the code is gone.
pub complete_verifies :
    (id key : Text) (now : ℕ) (s : Store) (tok : EmailVerification) (u : User)
    → Consistent s
    → lookup id s.verifs ≡ some tok
    → now ≤ tok.expires_at
    → tok.attempts < max_verification_attempts
    → clashes (lookup key s.by_key) id ≡ false
    → get_user_by_id id s ≡ ok u
    → let (t, r) = complete_email_verification id tok.code_hash key now s in
      (r ≡ ok tt)
      × (get_user_by_connect_key key t ≡ ok (record u { connect_key = key; email_verified = true }))
      × (lookup id t.verifs ≡ none)
unfolding complete_email_verification finish_verification get_user_by_id get_user_by_connect_key
complete_verifies id key now s tok u c e in_time few free found =
    elim (Option-cases (lookup id s.by_id)) [
      | inl e' ↦ ground arith
      | inr (name, e') ↦
          let (e'', same) = user_of_id s id name c.names e' in
          let v : User = record u { connect_key = key; email_verified = true } in
          (
            ground arith,
            ground (arith, lookup-insert key key id s.by_key, lookup-insert name name v s.users),
            ground (arith, lookup-erase id id s.verifs),
          )
    ]

-- A connect key that another user has: the right code, in time and before five wrong guesses, is
-- not used up, and the store is as it was.
pub complete_clash :
    (id key : Text) (now : ℕ) (s : Store) (tok : EmailVerification)
    → lookup id s.verifs ≡ some tok
    → now ≤ tok.expires_at
    → tok.attempts < max_verification_attempts
    → clashes (lookup key s.by_key) id ≡ true
    → complete_email_verification id tok.code_hash key now s ≡ (s, err connect_key_exists)
unfolding complete_email_verification finish_verification
complete_clash id key now s tok e in_time few taken = ground arith
