-- ===== src/Auth/Memory/Verification.antt =====
-- internal/auth/store/memory/verification.go
use akira_mcp.Base.{ℕ, suc, true, not, none, some, ltb, leb, ◌==◌, list_eq, nat_eq, if◌then◌else◌}
use akira_mcp.Base.Map.{lookup, insert, erase, retain}
use akira_mcp.Base.Text.{Text}
use akira_mcp.Auth.Types.{
  Result, ok, err, EmailVerification, user_not_found, connect_key_exists, verification_not_found,
  verification_wrong_code, max_verification_attempts,
}
use akira_mcp.Auth.Memory.{Store, user_at}
use akira_mcp.Auth.Memory.Users.{clashes}

-- SaveEmailVerification drops the expired codes of all users, and replaces the user's own.
unfoldable pub save_email_verification : EmailVerification → ℕ → Store → Store × Result (Unit {0})
save_email_verification tok now s = (
  record s { verifs = insert tok.user_id tok (retain (λ v. not (ltb v.expires_at now)) s.verifs) },
  ok tt,
)

-- The part of CompleteEmailVerification from the check of the connect key on: the code matched.
unfoldable pub finish_verification : Text → Text → Store → Store × Result (Unit {0})
finish_verification user_id key s =
    if clashes (lookup key s.by_key) user_id
    then (s, err connect_key_exists)
    else elim (lookup user_id s.by_id) [
      | none ↦ (s, err user_not_found)
      | some username ↦ (
        record s {
          verifs = erase user_id s.verifs;
          users =
              insert username
                (record (user_at s username) { email_verified = true; connect_key = key }) s.users;
          by_key = insert key user_id s.by_key;
        },
        ok tt,
      )
    ]

-- CompleteEmailVerification
unfoldable pub complete_email_verification :
    Text → Text → Text → ℕ → Store → Store × Result (Unit {0})
complete_email_verification user_id code_hash key now s = elim (lookup user_id s.verifs) [
  | none ↦ (s, err verification_not_found)
  | some tok ↦
      if ltb tok.expires_at now
      then (record s { verifs = erase user_id s.verifs }, err verification_not_found)
      else if leb max_verification_attempts tok.attempts
      then (s, err verification_not_found)
      else if not (tok.code_hash == code_hash)
      then (
        record s { verifs = insert user_id (record tok { attempts = suc tok.attempts }) s.verifs },
        err verification_wrong_code,
      )
      else finish_verification user_id key s
]
