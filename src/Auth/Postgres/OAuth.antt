-- ===== src/Auth/Postgres/OAuth.antt =====
-- internal/auth/store/postgres/oauth.go
use akira_mcp.Base.{ℕ, none, some, list_eq, nat_eq, if◌then◌else◌, ltb, inl, inr}
use akira_mcp.Base.Map.{lookup, erase}
use akira_mcp.Base.Text.{Text}
use akira_mcp.Auth.Types.{
  Result, ok, err, OAuthClient, OAuthCode, oauth_client_not_found, oauth_code_not_found,
}
use akira_mcp.Auth.Postgres.{Tables, map_error, micros}
use akira_mcp.Auth.Postgres.Tokens.{insert_row}

-- The rows of a client and of a code.
abbrev client_row : OAuthClient → OAuthClient
client_row client = record client { created_at = micros client.created_at }

abbrev pub code_row : OAuthCode → OAuthCode
code_row code = record code {
  expires_at = micros code.expires_at;
  created_at = micros code.created_at;
}

-- SaveOAuthClient
unfoldable pub save_oauth_client : OAuthClient → Tables → Tables × Result (Unit {0})
save_oauth_client client t =
    elim (insert_row client.client_id (client_row client) t.oauth_clients) [
      | inl e ↦ (t, err (map_error e))
      | inr rows ↦ (record t { oauth_clients = rows }, ok tt)
    ]

-- GetOAuthClient
unfoldable pub get_oauth_client : Text → Tables → Result OAuthClient
get_oauth_client client_id t = elim (lookup client_id t.oauth_clients) [
  | none ↦ err oauth_client_not_found
  | some client ↦ ok client
]

-- SaveOAuthCode
unfoldable pub save_oauth_code : OAuthCode → Tables → Tables × Result (Unit {0})
save_oauth_code code t = elim (insert_row code.code_hash (code_row code) t.oauth_codes) [
  | inl e ↦ (t, err (map_error e))
  | inr rows ↦ (record t { oauth_codes = rows }, ok tt)
]

-- ConsumeOAuthCode: DELETE ... RETURNING of a code that has not expired.
unfoldable pub consume_oauth_code : Text → ℕ → Tables → Tables × Result OAuthCode
consume_oauth_code hash now t = elim (lookup hash t.oauth_codes) [
  | none ↦ (t, err oauth_code_not_found)
  | some code ↦
      if ltb (micros now) code.expires_at
      then (record t { oauth_codes = erase hash t.oauth_codes }, ok code)
      else (t, err oauth_code_not_found)
]
