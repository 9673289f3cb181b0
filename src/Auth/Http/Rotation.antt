-- ===== src/Auth/Http/Rotation.antt =====
-- POST /token with grant_type=refresh_token, over the in-memory store.
use akira_mcp.Base.{
  ℕ, ◌+◌, ◌≡◌, ◌≢◌, Option-cases, none, some, [], inl, inr, arith, list_eq, nat_eq,
}
use akira_mcp.Base.Map.{lookup}
use akira_mcp.Base.Text.{Text, bytes}
use akira_mcp.Auth.Types.{RefreshToken}
use akira_mcp.Auth.Memory.{Store}
use akira_mcp.Auth.Memory.OneTime.{live_token, rotate_refresh-refines}
use akira_mcp.Auth.Http.{Env, World, issued, goes, decoded}
use akira_mcp.Auth.Http.Token.{TokenRequest, grant_refresh, handle_token}
use akira_mcp.Auth.Http.Stored.{memory_api}

-- The record of a new refresh token.
abbrev pub new_refresh : Env → Text → Text → RefreshToken
new_refresh env raw user_id = record {
  token_hash = env.hash_token raw;
  user_id = user_id;
  expires_at = env.now + env.refresh_ttl;
  created_at = env.now;
}

-- POST /token with a refresh token, over the in-memory store: an answer with tokens means that the
-- store had a live record under the hash of the given token; the access token is for that record's
-- user; the new refresh token is stored for the same user; and the given token is gone, if its hash
-- is not the new one's.
pub refresh_token_sound :
    (env : Env) (now : ℕ) (id : Text) (w : World Store) (req : TokenRequest) (access raw : Text)
    (ttl : ℕ)
    → req.grant_type ≡ bytes "refresh_token"
    → (handle_token (memory_api now id) env (decoded req) w).1 ≡ goes (issued access raw ttl)
    → env.hash_token req.refresh_token ≢ env.hash_token raw
    → let w' = (handle_token (memory_api now id) env (decoded req) w).0 in
      (old : RefreshToken) × (live_token (env.hash_token req.refresh_token) now w.store ≡ some old)
      × (env.sign_access old.user_id ≡ some access)
      × (lookup (env.hash_token raw) w'.store.refr ≡ some (new_refresh env raw old.user_id))
      × (lookup (env.hash_token req.refresh_token) w'.store.refr ≡ none)
unfolding handle_token grant_refresh
refresh_token_sound env now id w req access raw ttl kind h other =
    elim (Option-cases env.draw_refresh) [
      | inl e ↦ ground (arith, kind, e)
      | inr (drawn, e) ↦
          let old_hash = env.hash_token req.refresh_token in
          let tok = new_refresh env drawn [] in
          let refines = rotate_refresh-refines old_hash tok now w.store in
          elim (Option-cases (live_token old_hash now w.store)) [
            | inl f ↦ ground (arith, kind, e, f, refines old_hash)
            | inr (old, f) ↦
                let same : drawn ≡ raw = ground (arith, kind, e, f, refines old_hash) in
                (
                  old,
                  f,
                  ground (arith, kind, e, f, refines old_hash),
                  ground (arith, kind, e, f, same, refines old_hash, refines (env.hash_token raw)),
                  ground (arith, kind, e, f, same, refines old_hash),
                )
          ]
    ]
