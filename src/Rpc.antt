-- ===== src/Rpc.antt =====
-- What crosses the wire (api/connection/v1/connection.proto) and the gRPC status codes, as far as the
-- program reads them.
use akira_mcp.Base.{ℕ}
use akira_mcp.Base.Text.{Text}

-- google.golang.org/grpc/codes, without OK.
pub data Code : Type 0 where
  canceled unknown invalid_argument deadline_exceeded not_found already_exists : Code
  permission_denied resource_exhausted failed_precondition aborted out_of_range : Code
  unimplemented internal unavailable data_loss unauthenticated : Code

-- An error as status.FromError sees it: with a status, wrapped or not, or without one.
pub data RpcError : Type 0 where
  status : Code → RpcError
  other_error : RpcError

pub record RegisterRequest : Type 0 where
  pub client_id : Text
  pub hostname : Text
  pub platform : Text
  pub connect_key : Text

-- `heartbeat_interval_ms` is an int64 that the server sets to a positive number; the client reads
-- every number that is not positive like 0.
pub record RegisterResponse : Type 0 where
  pub session_id : Text
  pub heartbeat_interval_ms : ℕ
  pub connection_id : Text

-- ServerMessage; `empty_payload` is one whose payload is not set.
pub data ServerMessage {ℓ} (Task : Type ℓ) : Type ℓ where
  register_ack : RegisterResponse → ServerMessage Task
  task : Task → ServerMessage Task
  empty_payload : ServerMessage Task
