-- ===== src/Auth/Memory/Refresh.antt =====
-- internal/auth/store/memory/refresh.go
use akira_mcp.Base.{ℕ, not, none, some, ltb, list_eq, nat_eq, if◌then◌else◌}
use akira_mcp.Base.Map.{Map, lookup, insert, erase, retain}
use akira_mcp.Base.Text.{Text}
use akira_mcp.Auth.Types.{Result, ok, err, RefreshToken, refresh_not_found}
use akira_mcp.Auth.Memory.{Store}

unfoldable pub save_refresh : RefreshToken → Store → Store × Result (Unit {0})
save_refresh tok s = (record s { refr = insert tok.token_hash tok s.refr }, ok tt)

abbrev pub live_tokens : ℕ → Map Text RefreshToken → Map Text RefreshToken
live_tokens now = retain (λ t. not (ltb t.expires_at now))

-- RotateRefresh: the expired tokens go first, whatever comes of the call.
unfoldable pub rotate_refresh : Text → RefreshToken → ℕ → Store → Store × Result RefreshToken
rotate_refresh old_hash new_tok now s =
    let live = live_tokens now s.refr in
    elim (lookup old_hash live) [
      | none ↦ (record s { refr = live }, err refresh_not_found)
      | some old ↦
          if ltb old.expires_at now
          then (record s { refr = erase old_hash live }, err refresh_not_found)
          else (
            record s {
              refr =
                  insert new_tok.token_hash (record new_tok { user_id = old.user_id })
                    (erase old_hash live);
            },
            ok old,
          )
    ]

unfoldable pub revoke_refresh : Text → Store → Store × Result (Unit {0})
revoke_refresh hash s = (record s { refr = erase hash s.refr }, ok tt)
