-- ===== src/Server/Pool/Events.antt =====
-- What can happen to a pool, in any order: the methods that other goroutines call, and their parts
-- one by one, so that other calls may come between the parts of a method.
use akira_mcp.Base.{ℕ, List, [], ◌∷◌}
use akira_mcp.Base.Text.{Text}
use akira_mcp.Server.Pool.{Pool, ClientInfo, Message, TaskResult, connection_id_of}
use akira_mcp.Server.Pool.Pending.{
  fail_task, fail_unsent, fail_pending_client, handle_result, add_pending, drop_pending, post,
  close,
}
use akira_mcp.Server.Pool.Registry.{register, unregister, disconnect}

pub data Event : Type 0 where
  registers : (user_id client_id : Text) → ClientInfo → (session_id : Text) → Event
  unregisters : (connection : ℕ) (connection_id : Text) → Event
  disconnects : (connection_id : Text) → Event
  adds : (connection_id task_id : Text) → Event
  drops : (task_id : Text) (ticket : ℕ) → Event
  posts : (connection : ℕ) → Message → Event
  submits : TaskResult → Event
  closes : (connection : ℕ) → Event
  fails : (task_id : Text) → Event
  fails_unsent : List Message → Event
  fails_client : (connection_id : Text) → Event

unfoldable pub step : Pool → Event → Pool
step p (registers user_id client_id info session) =
    (register (connection_id_of user_id client_id) user_id info session p).0
step p (unregisters h id) = unregister h id p
step p (disconnects id) = (disconnect id p).0
step p (adds id task_id) = (add_pending id task_id p).0
step p (drops task_id ticket) = drop_pending task_id ticket p
step p (posts h msg) = post h msg p
step p (submits res) = (handle_result res p).0
step p (closes h) = (close h p).0
step p (fails task_id) = fail_task task_id p
step p (fails_unsent msgs) = fail_unsent msgs p
step p (fails_client id) = fail_pending_client id p

unfoldable pub run : Pool → List Event → Pool
run p [] = p
run p (e ∷ es) = run (step p e) es
