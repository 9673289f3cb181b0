-- ===== src/Auth/Memory/OAuth.antt =====
-- internal/auth/store/memory/oauth.go
use akira_mcp.Base.{ℕ, not, none, some, ltb, list_eq, nat_eq, if◌then◌else◌}
use akira_mcp.Base.Map.{lookup, insert, erase, retain}
use akira_mcp.Base.Text.{Text}
use akira_mcp.Auth.Types.{
  Result, ok, err, OAuthClient, OAuthCode, oauth_client_not_found, oauth_code_not_found,
}
use akira_mcp.Auth.Memory.{Store}

unfoldable pub save_oauth_client : OAuthClient → Store → Store × Result (Unit {0})
save_oauth_client client s =
    (record s { clients = insert client.client_id client s.clients }, ok tt)

unfoldable pub get_oauth_client : Text → Store → Result OAuthClient
get_oauth_client client_id s = elim (lookup client_id s.clients) [
  | none ↦ err oauth_client_not_found
  | some client ↦ ok client
]

unfoldable pub save_oauth_code : OAuthCode → ℕ → Store → Store × Result (Unit {0})
save_oauth_code code now s = (
  record s {
    codes = insert code.code_hash code (retain (λ c. not (ltb c.expires_at now)) s.codes);
  },
  ok tt,
)

unfoldable pub consume_oauth_code : Text → ℕ → Store → Store × Result OAuthCode
consume_oauth_code hash now s = elim (lookup hash s.codes) [
  | none ↦ (s, err oauth_code_not_found)
  | some code ↦
      if ltb code.expires_at now
      then (record s { codes = erase hash s.codes }, err oauth_code_not_found)
      else (record s { codes = erase hash s.codes }, ok code)
]
