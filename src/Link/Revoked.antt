-- ===== src/Link/Revoked.antt =====
-- A new connect key (SetConnectKey) against the client that still has the old one (Run).
use akira_mcp.Base.{◌≡◌, ◌≢◌, inl, inr, false, List, [], ◌∷◌, some, arith, ap}
use akira_mcp.Base.Text.{Text}
use akira_mcp.Rpc.{Code, RpcError, status, ServerMessage}
use akira_mcp.Auth.Types.{User, ok}
use akira_mcp.Auth.Memory.{Store}
use akira_mcp.Auth.Memory.Users.{get_user_by_id, get_user_by_connect_key, set_connect_key}
use akira_mcp.Auth.Memory.Indexes.{Consistent}
use akira_mcp.Auth.Memory.Lookups.{set_connect_key_revokes}
use akira_mcp.Server.Pool.{Pool}
use akira_mcp.Server.Connect.{UserLookup, lookup_connect_key, connect}
use akira_mcp.Client.Connection.Session.{
  Config, register_request, Attempt, gives_up, is_fatal_connect_error, run_client,
}
use akira_mcp.Link.Retry.{answered, attempt, Barred, gives_up_exactly}

-- storeLookup over the in-memory store
abbrev pub store_users : Store → UserLookup
store_users s key = lookup_connect_key (get_user_by_connect_key key s)

-- In a store with agreeing account maps, SetConnectKey gives a user another key. Then the server
-- refuses a client with the old key, and its Run gives up at the next attempt to connect.
pub old_key_gives_up :
    {Task : Type 0} (s t : Store) (id key : Text) (u : User) (cfg : Config)
    (hostname platform session : Text) (p : Pool) (msgs : List (ServerMessage Task)) (e : RpcError)
    (attempts : List (Attempt Task))
    → Consistent s
    → get_user_by_id id s ≡ ok u
    → u.connect_key ≢ []
    → u.connect_key ≢ key
    → set_connect_key id key s ≡ (t, ok tt)
    → cfg.client_id ≢ []
    → cfg.connect_key ≡ u.connect_key
    → is_fatal_connect_error e ≡ false
    → let reg = register_request cfg hostname platform in
      let answer = (connect (store_users t) (some reg) session p).1 in
      let after = run_client cfg (attempt (answered answer msgs e) ∷ attempts) in
      (code : Code) × (answer ≡ inl code) × (after.0 ≡ gives_up (status code))
old_key_gives_up s t id key u cfg hostname platform session p msgs e attempts c found nonempty other
      given named old passes =
    let (gone, _) = set_connect_key_revokes s t id key u c found nonempty other given in
    let barred : Barred (store_users t) cfg.connect_key =
      inl (rw old (ap lookup_connect_key gone)) in
    let keyed : cfg.connect_key ≢ [] = ground (arith, nonempty, old) in
    elim (gives_up_exactly (store_users t) cfg hostname platform session p msgs e attempts named
      keyed passes) [ inl (_, ended) ↦ ended | inr (free, _) ↦ absurd (free barred) ]
