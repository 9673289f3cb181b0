-- ===== src/Server/Pool.antt =====
-- internal/akira-server/connection: connection.go, client/client.go, pool/pool.go and
-- pool/pending.go. A connection is a pointer in the program and a handle into `connections` here. A
-- pending entry's two channels are a ticket: what was sent to a channel is logged in `deliveries`
-- under the ticket, the newest first. A function is one critical section, or a method made of them.
pub mod Registry
pub mod Pending
pub mod Events
pub mod Once
pub mod Deliveries
pub mod Loss
pub mod Reconnect
pub mod Races
pub mod Limit
pub mod Listing
mod Tests
use akira_mcp.Base.{ℕ, Bool, true, false, List, [], ◌∷◌, ◌++◌, Option, none, some, list_eq, nat_eq}
use akira_mcp.Base.Map.{Map, lookup, insert}
use akira_mcp.Base.Text.{Text}

pub data PoolError : Type 0 where
  connection_not_found connection_closed task_already_pending : PoolError
  not_task_owner too_many_connections : PoolError

-- ClientInfo
pub record ClientInfo : Type 0 where
  pub connection_id : Text
  pub client_id : Text
  pub hostname : Text
  pub platform : Text

-- pb.ServerMessage: a task, by its id, or the register ack.
pub data Message : Type 0 where
  task : (task_id : Text) → Message
  register_ack : Message

-- pb.TaskResult, as far as the pool reads it; `body` is the rest.
pub record TaskResult : Type 0 where
  pub task_id : Text
  pub client_id : Text
  pub body : Text

-- ClientConnection: the queue of `out` and whether `done` is closed.
pub record Connection : Type 0 where
  pub client_id : Text
  pub session_id : Text
  pub out : List Message
  pub closed : Bool

-- pendingEntry
pub record PendingEntry : Type 0 where
  pub ticket : ℕ
  pub owner : Text

-- What a waiting SendTask receives.
pub data Delivery : Type 0 where
  result : TaskResult → Delivery
  failed : PoolError → Delivery

pub record Pool : Type 0 where
  pub conns : Map Text ℕ
  pub infos : Map Text ClientInfo
  pub pending : Map Text PendingEntry
  pub max_connections : ℕ
  pub connections : Map ℕ Connection
  pub deliveries : List (ℕ × Delivery)
  pub next : ℕ

-- pool.New
abbrev pub new_pool : ℕ → Pool
new_pool max_connections = record {
  conns = [];
  infos = [];
  pending = [];
  max_connections = max_connections;
  connections = [];
  deliveries = [];
  next = 0;
}

-- The capacity of `out`.
abbrev pub out_capacity : ℕ
out_capacity = 16

-- {user_id}:{client_id}, and the prefix {user_id}:
abbrev pub user_prefix : Text → Text
user_prefix user_id = user_id ++ b':' ∷ []

abbrev pub connection_id_of : Text → Text → Text
connection_id_of user_id client_id = user_id ++ b':' ∷ client_id
