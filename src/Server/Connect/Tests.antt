-- ===== src/Server/Connect/Tests.antt =====
-- Small runs of the connection server, and its theorems on them.
use akira_mcp.Base.{◌≡◌, ◌⊎◌, inr, true, [], ◌∷◌, ◌++◌, arith, refl, list_eq, nat_eq}
use akira_mcp.Base.Map.{lookup, insert, erase, retain}
use akira_mcp.Base.Text.{bytes, has_prefix, trim_prefix}
use akira_mcp.Rpc.{RegisterRequest}
use akira_mcp.Server.Pool.{new_pool, ClientInfo, Message, task}
use akira_mcp.Server.Pool.Pending.{close, fail_pending_client}
use akira_mcp.Server.Pool.Registry.{register, disconnect, count_by_user}
use akira_mcp.Server.Pool.Events.{registers, disconnects, step, run}
use akira_mcp.Server.Connect.{
  UserLookup, Handler, sending, takes, sends, sees_done, is_closed, stream_run,
}
use akira_mcp.Server.Connect.Stream.{closed_sends_nothing}

-- Every key is that of one verified user.
abbrev users : UserLookup
users key = inr (bytes "u", true)

abbrev request : RegisterRequest
request = record {
  client_id = bytes "pc";
  hostname = bytes "host";
  platform = bytes "linux";
  connect_key = bytes "k";
}

abbrev info : ClientInfo
info = record { connection_id = []; client_id = []; hostname = []; platform = [] }

-- A message is in Send when the client is disconnected.
abbrev handler : Handler
handler = record {
  pool =
      run (new_pool 1)
        (registers (bytes "u") (bytes "pc") info (bytes "s1") ∷ disconnects (bytes "u:pc") ∷ []);
  handling = sending (task (bytes "t1"));
  sent = [];
}

shut : is_closed 0 handler.pool ≡ true
unfolding run step register disconnect close fail_pending_client retain is_closed has_prefix
    trim_prefix count_by_user lookup insert erase list_eq nat_eq
shut = refl

next_is : handler.pool.next ≡ 1
unfolding run step register disconnect close fail_pending_client retain has_prefix trim_prefix
    count_by_user lookup insert erase list_eq nat_eq
next_is = refl

closed_sends_nothing_example :
    let after = (stream_run 0 (bytes "u:pc") handler (sends true ∷ takes ∷ sees_done ∷ [])).sent in
    (after ≡ []) ⊎ ((msg : Message) × (handler.handling ≡ sending msg) × (after ≡ [] ++ msg ∷ []))
closed_sends_nothing_example =
    closed_sends_nothing 0 (bytes "u:pc") handler (sends true ∷ takes ∷ sees_done ∷ [])
      (ground (arith, next_is)) shut
