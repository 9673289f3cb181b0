-- ===== src/Auth/Postgres/Tokens.antt =====
-- internal/auth/store/postgres/tokens.go
use akira_mcp.Base.{
  ℕ, suc, not, none, some, ◌==◌, list_eq, nat_eq, if◌then◌else◌, ltb, leb, ◌⊎◌, inl, inr,
}
use akira_mcp.Base.Map.{Map, lookup, insert, erase}
use akira_mcp.Base.Text.{Text}
use akira_mcp.Auth.Types.{
  Result, ok, err, RefreshToken, EmailVerification, user_not_found, connect_key_exists,
  refresh_not_found, verification_not_found, verification_wrong_code, max_verification_attempts,
}
use akira_mcp.Auth.Postgres.{
  Tables, DbError, other_constraint, map_error, exists_row, update, micros,
}
use akira_mcp.Auth.Postgres.Users.{key_taken}

-- INSERT of a row under its primary key
abbrev pub insert_row {ℓ} : {V : Type ℓ} → Text → V → Map Text V → DbError ⊎ Map Text V
insert_row k v m = elim (lookup k m) [ some _ ↦ inl other_constraint | none ↦ inr (insert k v m) ]

-- The rows of a token and of a code.
abbrev refresh_row : RefreshToken → RefreshToken
refresh_row tok = record tok {
  expires_at = micros tok.expires_at;
  created_at = micros tok.created_at;
}

abbrev pub verification_row : EmailVerification → EmailVerification
verification_row tok = record tok {
  expires_at = micros tok.expires_at;
  created_at = micros tok.created_at;
}

-- SaveRefresh
unfoldable pub save_refresh : RefreshToken → Tables → Tables × Result (Unit {0})
save_refresh tok t = elim (insert_row tok.token_hash (refresh_row tok) t.refresh_tokens) [
  | inl e ↦ (t, err (map_error e))
  | inr rows ↦ (record t { refresh_tokens = rows }, ok tt)
]

-- RotateRefresh: the old token goes and the new one comes, or neither.
unfoldable pub rotate_refresh : Text → RefreshToken → ℕ → Tables → Tables × Result RefreshToken
rotate_refresh old_hash new_tok now t = elim (lookup old_hash t.refresh_tokens) [
  | none ↦ (t, err refresh_not_found)
  | some old ↦
      if not (ltb (micros now) old.expires_at)
      then (t, err refresh_not_found)
      else elim (insert_row new_tok.token_hash
          (refresh_row (record new_tok { user_id = old.user_id }))
          (erase old_hash t.refresh_tokens)) [
            | inl e ↦ (t, err (map_error e))
            | inr rows ↦ (record t { refresh_tokens = rows }, ok old)
          ]
]

-- RevokeRefresh
unfoldable pub revoke_refresh : Text → Tables → Tables × Result (Unit {0})
revoke_refresh hash t = (record t { refresh_tokens = erase hash t.refresh_tokens }, ok tt)

-- SaveEmailVerification: the user's row is replaced, with no attempts; a new row has those of `tok`.
unfoldable pub save_email_verification : EmailVerification → Tables → Tables × Result (Unit {0})
save_email_verification tok t = elim (lookup tok.user_id t.email_verifications) [
  | none ↦ (
    record t {
      email_verifications = insert tok.user_id (verification_row tok) t.email_verifications;
    },
    ok tt,
  )
  | some _ ↦ (
    record t {
      email_verifications =
          insert tok.user_id (record (verification_row tok) { attempts = 0 }) t.email_verifications;
    },
    ok tt,
  )
]

-- CompleteEmailVerification from the check of the connect key on.
unfoldable pub finish_verification : Text → Text → ℕ → Tables → Tables × Result (Unit {0})
unfolding update exists_row
finish_verification user_id key now t =
    if key_taken user_id key t.users
    then (t, err connect_key_exists)
    else if not (exists_row (λ r. r.user_id == user_id) t.users)
    then (t, err user_not_found)
    else (
      record t {
        users =
            update user_id
              (λ r. record r { email_verified_at = some (micros now); connect_key = some key })
              t.users;
        email_verifications = erase user_id t.email_verifications;
      },
      ok tt,
    )

-- CompleteEmailVerification
unfoldable pub complete_email_verification :
    Text → Text → Text → ℕ → Tables → Tables × Result (Unit {0})
complete_email_verification user_id code_hash key now t =
    elim (lookup user_id t.email_verifications) [
      | none ↦ (t, err verification_not_found)
      | some tok ↦
          if not (ltb now tok.expires_at)
          then (
            record t { email_verifications = erase user_id t.email_verifications },
            err verification_not_found,
          )
          else if leb max_verification_attempts tok.attempts
          then (t, err verification_not_found)
          else if not (tok.code_hash == code_hash)
          then (
            record t {
              email_verifications =
                  insert user_id (record tok { attempts = suc tok.attempts }) t.email_verifications;
            },
            err verification_wrong_code,
          )
          else finish_verification user_id key now t
    ]
