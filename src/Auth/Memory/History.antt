-- ===== src/Auth/Memory/History.antt =====
-- Any sequence of the store's writing methods, from the empty store. Each call has its own clock
-- reading, and a call that creates a user has the id that it draws.
use akira_mcp.Base.{ℕ, ◌≡◌, none, List, [], ◌∷◌, arith, Option-cases, inl, inr, list_eq, nat_eq}
use akira_mcp.Base.Map.{lookup, insert, erase}
use akira_mcp.Base.Text.{Text}
use akira_mcp.Auth.Types.{RefreshToken, EmailVerification, OAuthClient, OAuthCode}
use akira_mcp.Auth.Memory.{Store}
use akira_mcp.Auth.Memory.Users.{create_user, create_user_with_code, verify_email, set_connect_key}
use akira_mcp.Auth.Memory.Verification.{save_email_verification, complete_email_verification}
use akira_mcp.Auth.Memory.Refresh.{save_refresh, rotate_refresh, revoke_refresh, live_tokens}
use akira_mcp.Auth.Memory.OAuth.{save_oauth_client, save_oauth_code, consume_oauth_code}
use akira_mcp.Auth.Memory.Indexes.{Consistent, other_maps-Consistent}
use akira_mcp.Auth.Memory.Accounts.{
  create_user-Consistent, create_user_with_code-Consistent, verify_email-Consistent,
  set_connect_key-Consistent, complete_email_verification-Consistent,
}

pub data Call : Type 0 where
  creates : (id username email password_hash : Text) → Call
  creates_with_code : (id username email password_hash code_hash : Text) (expires_at : ℕ) → Call
  verifies : (user_id : Text) → Call
  sets_key : (user_id key : Text) → Call
  saves_code : EmailVerification → Call
  completes : (user_id code_hash key : Text) → Call
  saves_refresh : RefreshToken → Call
  rotates : (old_hash : Text) → RefreshToken → Call
  revokes : (hash : Text) → Call
  saves_client : OAuthClient → Call
  saves_oauth_code : OAuthCode → Call
  consumes : (hash : Text) → Call

unfoldable pub step : Store → ℕ × Call → Store
step s (now, creates id username email hash) = (create_user id username email hash s).0
step s (now, creates_with_code id username email hash code_hash expires_at) =
    (create_user_with_code id username email hash code_hash expires_at now s).0
step s (now, verifies user_id) = (verify_email user_id s).0
step s (now, sets_key user_id key) = (set_connect_key user_id key s).0
step s (now, saves_code tok) = (save_email_verification tok now s).0
step s (now, completes user_id code_hash key) =
    (complete_email_verification user_id code_hash key now s).0
step s (now, saves_refresh tok) = (save_refresh tok s).0
step s (now, rotates old_hash tok) = (rotate_refresh old_hash tok now s).0
step s (now, revokes hash) = (revoke_refresh hash s).0
step s (now, saves_client client) = (save_oauth_client client s).0
step s (now, saves_oauth_code code) = (save_oauth_code code now s).0
step s (now, consumes hash) = (consume_oauth_code hash now s).0

unfoldable pub run : Store → List (ℕ × Call) → Store
run s [] = s
run s (c ∷ cs) = run (step s c) cs

-- The id that the call draws, if it draws one, belongs to nobody yet.
abbrev pub DrawsFresh : Store → Call → Type 0
DrawsFresh s (creates id _ _ _) = lookup id s.by_id ≡ none
DrawsFresh s (creates_with_code id _ _ _ _ _) = lookup id s.by_id ≡ none
DrawsFresh s _ = Unit

abbrev pub AllFresh : Store → List (ℕ × Call) → Type 0
AllFresh s [] = Unit
AllFresh s ((now, c) ∷ cs) = DrawsFresh s c × AllFresh (step s (now, c)) cs

rotate-Consistent :
    (h : Text) (tok : RefreshToken) (now : ℕ) (s : Store)
    → Consistent s
    → Consistent (rotate_refresh h tok now s).0
unfolding rotate_refresh
rotate-Consistent h tok now s c = elim (Option-cases (lookup h (live_tokens now s.refr))) [
  | inl e ↦
      rw (e, rotate_refresh) (other_maps-Consistent (record s { refr = live_tokens now s.refr }) c)
  | inr (old, e) ↦ ground (
    arith,
    e,
    other_maps-Consistent (record s { refr = erase h (live_tokens now s.refr) }) c,
    other_maps-Consistent
        (record s {
          refr =
              insert tok.token_hash (record tok { user_id = old.user_id })
                (erase h (live_tokens now s.refr));
        })
        c,
  )
]

consume-Consistent :
    (h : Text) (now : ℕ) (s : Store) → Consistent s → Consistent (consume_oauth_code h now s).0
unfolding consume_oauth_code
consume-Consistent h now s c =
    ground (arith, c, other_maps-Consistent (record s { codes = erase h s.codes }) c)

step-Consistent :
    (s : Store) (now : ℕ) (c : Call) → DrawsFresh s c → Consistent s → Consistent (step s (now, c))
unfolding step
step-Consistent s now (creates id n e h) f c = create_user-Consistent id n e h s f c
step-Consistent s now (creates_with_code id n e h k t) f c =
    create_user_with_code-Consistent id n e h k t now s f c
step-Consistent s now (verifies id) f c = verify_email-Consistent id s c
step-Consistent s now (sets_key id k) f c = set_connect_key-Consistent id k s c
step-Consistent s now (completes id h k) f c = complete_email_verification-Consistent id h k now s c
step-Consistent s now (saves_code tok) f c =
    unfold save_email_verification in other_maps-Consistent (save_email_verification tok now s).0 c
step-Consistent s now (saves_refresh tok) f c =
    unfold save_refresh in other_maps-Consistent (save_refresh tok s).0 c
step-Consistent s now (rotates h tok) f c = rotate-Consistent h tok now s c
step-Consistent s now (revokes h) f c =
    unfold revoke_refresh in other_maps-Consistent (revoke_refresh h s).0 c
step-Consistent s now (saves_client x) f c =
    unfold save_oauth_client in other_maps-Consistent (save_oauth_client x s).0 c
step-Consistent s now (saves_oauth_code x) f c =
    unfold save_oauth_code in other_maps-Consistent (save_oauth_code x now s).0 c
step-Consistent s now (consumes h) f c = consume-Consistent h now s c

pub run-Consistent :
    (s : Store) (cs : List (ℕ × Call)) → AllFresh s cs → Consistent s → Consistent (run s cs)
unfolding run
run-Consistent s [] f c = c
run-Consistent s ((now, x) ∷ cs) f c =
    run-Consistent (step s (now, x)) cs f.1 (step-Consistent s now x f.0 c)
