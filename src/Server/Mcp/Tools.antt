-- ===== src/Server/Mcp/Tools.antt =====
-- dispatch and the handlers of internal/akira-server/mcp/tools.go.
use akira_mcp.Base.{
  ℕ, ◌+◌, ◌-◌, Bool, true, not, ◌&&◌, ◌||◌, List, [], ◌∷◌, reverse, Option, none, some, String, ◌⊎◌,
  inl, inr, ◌==◌, list_eq, nat_eq, if◌then◌else◌, ltb, length, min,
}
use akira_mcp.Base.Text.{Text, contains_byte, trim_space}
use akira_mcp.Server.Pool.{ClientInfo, connection_id_of, connection_not_found, connection_closed}
use akira_mcp.Server.Mcp.{
  Config, Task, TaskResult, exec_task, read_file_task, write_file_task, edit_file_task, glob_task,
  list_task, SendError, pool_error, DispatchError, bad_client_id, not_connected, lost, other, Call,
  machines_call, exec_call, read_call, edit_call, write_call, glob_call, list_call, Reply, missing,
  refused, failed, task_failed, machine_list, exec_output, beyond_end, empty_file, numbered, edited,
  written, relayed,
}

abbrev pub default_read_lines : ℕ
default_read_lines = 2000

abbrev pub max_list_depth : ℕ
max_list_depth = 32

abbrev dispatch_error : Text → SendError → DispatchError
dispatch_error client_id (pool_error connection_not_found) = not_connected client_id
dispatch_error client_id (pool_error connection_closed) = lost client_id
dispatch_error client_id e = other e

abbrev onto_first : ℕ → List Text → List Text
onto_first c [] = (c ∷ []) ∷ []
onto_first c (s ∷ ss) = (c ∷ s) ∷ ss

-- strings.Split(s, "\n")
unfoldable pub split_newline : Text → List Text
split_newline [] = [] ∷ []
split_newline (c ∷ s) =
    let rest = split_newline s in if c == 10 then [] ∷ rest else onto_first c rest

-- splitLines
abbrev without_last_empty : List Text → List Text
without_last_empty [] = []
without_last_empty ([] ∷ []) = []
without_last_empty ((c ∷ s) ∷ []) = (c ∷ s) ∷ []
without_last_empty (s ∷ t ∷ ss) = s ∷ without_last_empty (t ∷ ss)

unfoldable pub split_lines : Text → List Text
unfolding split_newline
split_lines s = without_last_empty (split_newline s)

abbrev drop_newlines : Text → Text
drop_newlines [] = []
drop_newlines (c ∷ s) = if c == 10 then drop_newlines s else c ∷ s

-- strings.TrimRight(s, "\n")
abbrev pub trim_newlines : Text → Text
trim_newlines s = reverse (drop_newlines (reverse s))

-- relayResultText; strings.Count(text, "\n") + 1 is the length of the split.
abbrev pub relay_result_text : TaskResult → Reply
relay_result_text res =
    let text = trim_newlines res.stdout in
    if res.truncated
    then relayed text (some (min res.total_lines (length (split_newline text)), res.total_lines))
    else relayed text none

module _ (cfg : Config) (user_id : Text) (machines : List ClientInfo)
    (send : Text → Task → SendError ⊎ TaskResult) where
  -- dispatch
  unfoldable pub dispatch : Text → Task → DispatchError ⊎ TaskResult
  dispatch client_id task =
      if client_id == [] || contains_byte b':' client_id
      then inl bad_client_id
      else elim (send (connection_id_of user_id client_id) task) [
        | inl e ↦ inl (dispatch_error client_id e)
        | inr res ↦ inr res
      ]

  -- What the handlers do around the call: an error of dispatch, a status that is not OK, or a result.
  abbrev pub on_result : String → Text → Task → (TaskResult → Reply) → Reply
  on_result tool client_id task answer = elim (dispatch client_id task) [
    | inl e ↦ failed tool e
    | inr res ↦ if not res.ok then task_failed res else answer res
  ]

  -- RequireString
  abbrev pub require : String → Option Text → (Text → Reply) → Reply
  require name none next = missing name
  require name (some s) next = next s

  abbrev pub exec_timeout : ℕ → ℕ
  exec_timeout raw = if ltb 0 raw then min raw cfg.task_timeout_ms else cfg.task_timeout_ms

  -- execTool
  unfoldable pub exec_tool : Option Text → Option Text → ℕ → Reply
  exec_tool host cmd timeout_ms = require "host" host λ client_id. require "cmd" cmd λ cmd.
      on_result "exec" client_id
        (record { payload = exec_task cmd; timeout_ms = exec_timeout timeout_ms })
        λ res. exec_output res.exit_code res.duration_ms res.stdout res.stderr

  -- What readTool makes of a result: the lines, and a footer.
  unfoldable pub read_reply : Text → ℕ → ℕ → TaskResult → Reply
  read_reply path offset limit res =
      if ltb 0 res.total_lines && ltb res.total_lines offset
      then beyond_end path res.total_lines offset
      else let lines = split_lines res.stdout in
        if lines == []
        then empty_file
        else numbered offset lines (
            if ltb (length lines) limit || (ltb 1 offset || res.truncated)
            then some (record {
              first = offset;
              last = offset + length lines - 1;
              total = res.total_lines;
              cut = res.truncated;
            })
            else none)

  -- readTool
  unfoldable pub read_tool : Option Text → Option Text → ℕ → ℕ → Reply
  unfolding read_reply
  read_tool host path offset limit = require "host" host λ client_id. require "path" path λ path.
      if ltb offset 1
      then refused "offset must be >= 1"
      else let limit' = if limit == 0 then default_read_lines else limit in
        on_result "read" client_id
          (record {
            payload = read_file_task path cfg.read_max_bytes offset limit';
            timeout_ms = cfg.task_timeout_ms;
          })
          (read_reply path offset limit')

  -- editTool
  unfoldable pub edit_tool : Option Text → Option Text → Option Text → Option Text → Bool → Reply
  edit_tool host path old_str new_str replace_all = require "host" host λ client_id.
      require "path" path λ path. require "old_str" old_str λ old_str.
        require "new_str" new_str λ new_str.
          on_result "edit" client_id
            (record {
              payload = edit_file_task path old_str new_str replace_all;
              timeout_ms = cfg.task_timeout_ms;
            })
            λ res. edited path (trim_space res.stdout) res.duration_ms

  -- writeTool
  unfoldable pub write_tool : Option Text → Option Text → Option Text → Reply
  write_tool host path content = require "host" host λ client_id. require "path" path λ path.
      require "content" content λ content.
        on_result "write" client_id
          (record { payload = write_file_task path content true; timeout_ms = cfg.task_timeout_ms })
          λ res. written path res.duration_ms

  -- globTool
  unfoldable pub glob_tool : Option Text → Option Text → Text → Reply
  glob_tool host pattern path = require "host" host λ client_id.
      require "pattern" pattern λ pattern.
        on_result "glob" client_id
          (record { payload = glob_task path pattern; timeout_ms = cfg.task_timeout_ms })
          relay_result_text

  -- listTool
  unfoldable pub list_tool : Option Text → Option Text → ℕ → Reply
  list_tool host path depth = require "host" host λ client_id. require "path" path λ path.
      if ltb depth 1
      then refused "depth must be >= 1"
      else on_result "list" client_id
          (record {
            payload = list_task path (min depth max_list_depth);
            timeout_ms = cfg.task_timeout_ms;
          })
          relay_result_text

  -- A call of any tool; machinesTool lists what ClientsByUser gives for the user.
  unfoldable pub call_tool : Call → Reply
  call_tool machines_call = machine_list machines
  call_tool (exec_call host cmd timeout_ms) = exec_tool host cmd timeout_ms
  call_tool (read_call host path offset limit) = read_tool host path offset limit
  call_tool (edit_call host path old_str new_str all) = edit_tool host path old_str new_str all
  call_tool (write_call host path content) = write_tool host path content
  call_tool (glob_call host pattern path) = glob_tool host pattern path
  call_tool (list_call host path depth) = list_tool host path depth
