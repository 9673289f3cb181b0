-- ===== src/Server/Mcp/Isolation.antt =====
-- Whom the tools of one user can reach.
use akira_mcp.Base.{
  ◌≡◌, ◌⊎◌, false, Bool-cases, inl, inr, List, [], ◌∷◌, Option, none, some, String, list_eq, nat_eq,
  arith, refl, ap, if◌then◌else◌, ltb,
}
use akira_mcp.Base.Text.{Text, contains_byte}
use akira_mcp.Server.Pool.{ClientInfo, connection_id_of}
use akira_mcp.Server.Mcp.{
  Config, Task, TaskResult, SendError, Call, machines_call, exec_call, read_call, edit_call,
  write_call, glob_call, list_call, Reply, refused,
}
use akira_mcp.Server.Mcp.Tools.{
  dispatch, on_result, require, exec_tool, read_tool, edit_tool, write_tool, glob_tool, list_tool,
  call_tool,
}

-- Connection ids do not clash: for user ids without a ':' they have the same user and the same client.
pub connection_id_of-injective :
    (u v c d : Text)
    → contains_byte b':' u ≡ false
    → contains_byte b':' v ≡ false
    → connection_id_of u c ≡ connection_id_of v d
    → (u ≡ v) × (c ≡ d)
unfolding contains_byte
connection_id_of-injective [] [] c d hu hv h = (refl, ground arith)
connection_id_of-injective [] (y ∷ v) c d hu hv h = ground arith
connection_id_of-injective (x ∷ u) [] c d hu hv h = ground arith
connection_id_of-injective (x ∷ u) (y ∷ v) c d hu hv h =
    let (same, rest) =
      connection_id_of-injective u v c d (ground (arith, hu)) (ground (arith, hv))
        (ground (arith, h)) in
    (ground (arith, h, same), rest)

-- Two servers that answer alike for the machines of one user.
module _ (cfg : Config) (user_id : Text) (machines : List ClientInfo)
    (send send' : Text → Task → SendError ⊎ TaskResult)
    (alike : (client_id : Text) (task : Task)
      → contains_byte b':' client_id ≡ false
      → send (connection_id_of user_id client_id) task
        ≡ send' (connection_id_of user_id client_id) task) where
  dispatch_alike :
      (client_id : Text) (task : Task)
      → dispatch cfg user_id machines send client_id task
        ≡ dispatch cfg user_id machines send' client_id task
  unfolding dispatch
  dispatch_alike client_id task = elim (Bool-cases (contains_byte b':' client_id)) [
    | inl e ↦ ground (arith, e)
    | inr e ↦ ground (arith, e, alike client_id task e)
  ]

  on_result_alike :
      (tool : String) (client_id : Text) (task : Task) (answer : TaskResult → Reply)
      → on_result cfg user_id machines send tool client_id task answer
        ≡ on_result cfg user_id machines send' tool client_id task answer
  on_result_alike tool client_id task answer = rw (dispatch_alike client_id task, on_result) refl

  require_alike :
      (name : String) (o : Option Text) (next next' : Text → Reply)
      → ((s : Text) → next s ≡ next' s)
      → require cfg user_id machines send name o next
        ≡ require cfg user_id machines send' name o next'
  require_alike name none next next' h = refl
  require_alike name (some s) next next' h = h s

  -- A tool that a user calls reaches that user's machines alone: what it answers depends only on
  -- what SendTask answers for connection ids of that user with a client id without a ':', and on the user's own list.
  pub tools_reach_own :
      (call : Call)
      → call_tool cfg user_id machines send call ≡ call_tool cfg user_id machines send' call
  unfolding call_tool exec_tool read_tool edit_tool write_tool glob_tool list_tool
  tools_reach_own machines_call = refl
  tools_reach_own (exec_call host cmd timeout_ms) =
      require_alike "host" host _ _
        λ c. require_alike "cmd" cmd _ _ λ s. on_result_alike "exec" c _ _
  tools_reach_own (read_call host path offset limit) = require_alike "host" host _ _ λ c.
      require_alike "path" path _ _ λ p.
        ap (λ r. if ltb offset 1 then refused "offset must be >= 1" else r)
          (on_result_alike "read" c _ _)
  tools_reach_own (edit_call host path old_str new_str all) = require_alike "host" host _ _ λ c.
      require_alike "path" path _ _ λ p.
        require_alike "old_str" old_str _ _
          λ o. require_alike "new_str" new_str _ _ λ n. on_result_alike "edit" c _ _
  tools_reach_own (write_call host path content) = require_alike "host" host _ _ λ c.
      require_alike "path" path _ _
        λ p. require_alike "content" content _ _ λ s. on_result_alike "write" c _ _
  tools_reach_own (glob_call host pattern path) =
      require_alike "host" host _ _
        λ c. require_alike "pattern" pattern _ _ λ p. on_result_alike "glob" c _ _
  tools_reach_own (list_call host path depth) = require_alike "host" host _ _ λ c.
      require_alike "path" path _ _ λ p.
        ap (λ r. if ltb depth 1 then refused "depth must be >= 1" else r)
          (on_result_alike "list" c _ _)
