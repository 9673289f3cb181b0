-- ===== src/Server/Mcp.antt =====
-- internal/akira-server/mcp/tools.go: the tools, from their arguments to the reply. The text of a reply
-- is not formatted here: a reply is the values that its text shows. The pool's SendTask is an
-- argument `send`, from a connection id and a task to what it returns; ctxUserID is `user_id`.
pub mod Tools
pub mod Isolation
pub mod Validate
pub mod Tokens
mod Tests
use akira_mcp.Base.{ℕ, Bool, List, Option, String, ◌⊎◌}
use akira_mcp.Base.Text.{Text}
use akira_mcp.Server.Pool.{ClientInfo, PoolError}

-- Config, as far as the tools read it
pub record Config : Type 0 where
  pub task_timeout_ms : ℕ
  pub read_max_bytes : ℕ

-- pb.Task: its payload and timeout_ms
pub data Payload : Type 0 where
  exec_task : (cmd : Text) → Payload
  read_file_task : (path : Text) (max_bytes offset limit : ℕ) → Payload
  write_file_task : (path content : Text) (create_dirs : Bool) → Payload
  edit_file_task : (path old_str new_str : Text) (replace_all : Bool) → Payload
  glob_task : (path pattern : Text) → Payload
  list_task : (path : Text) (depth : ℕ) → Payload

pub record Task : Type 0 where
  pub payload : Payload
  pub timeout_ms : ℕ

-- pb.TaskResult; `ok` is STATUS_OK, and the exit code is given as it is printed
pub record TaskResult : Type 0 where
  pub ok : Bool
  pub exit_code : Text
  pub stdout : Text
  pub stderr : Text
  pub error : Text
  pub duration_ms : ℕ
  pub total_lines : ℕ
  pub truncated : Bool

-- The errors of SendTask: the pool's, or the end of the context.
pub data SendError : Type 0 where
  pool_error : PoolError → SendError
  context_over : SendError

-- The errors of dispatch.
pub data DispatchError : Type 0 where
  bad_client_id : DispatchError
  not_connected lost : (client_id : Text) → DispatchError
  other : SendError → DispatchError

-- The arguments of a call of a tool; `none` is an argument that is missing or is no string. A number
-- below 0 is given as 0, which each tool treats alike.
pub data Call : Type 0 where
  machines_call : Call
  exec_call : (host cmd : Option Text) (timeout_ms : ℕ) → Call
  read_call : (host path : Option Text) (offset limit : ℕ) → Call
  edit_call : (host path old_str new_str : Option Text) (replace_all : Bool) → Call
  write_call : (host path content : Option Text) → Call
  glob_call : (host pattern : Option Text) (path : Text) → Call
  list_call : (host path : Option Text) (depth : ℕ) → Call

-- `[first-last of total lines]`, and whether the byte limit cut it
pub record Footer : Type 0 where
  pub first : ℕ
  pub last : ℕ
  pub total : ℕ
  pub cut : Bool

pub data Reply : Type 0 where
  missing : (argument : String) → Reply
  refused : String → Reply
  failed : (tool : String) → DispatchError → Reply
  task_failed : TaskResult → Reply
  machine_list : List ClientInfo → Reply
  exec_output : (exit_code : Text) (duration_ms : ℕ) (stdout stderr : Text) → Reply
  beyond_end : (path : Text) (total offset : ℕ) → Reply
  empty_file : Reply
  numbered : (offset : ℕ) → List Text → Option Footer → Reply
  edited : (path stdout : Text) (duration_ms : ℕ) → Reply
  written : (path : Text) (duration_ms : ℕ) → Reply
  relayed : (text : Text) (shown : Option (ℕ × ℕ)) → Reply
