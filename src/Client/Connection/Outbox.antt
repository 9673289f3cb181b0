-- ===== src/Client/Connection/Outbox.antt =====
-- outbox.go: the queue of results that wait for delivery.
use akira_mcp.Base.{Bool, true, false, List, [], ◌∷◌, ◌++◌, Option, none, some}
use akira_mcp.Rpc.{
  Code, RpcError, status, other_error, resource_exhausted, invalid_argument, unimplemented,
  not_found, permission_denied, unauthenticated, out_of_range, failed_precondition,
}
use akira_mcp.Server.Pool.{TaskResult}

-- outbox: `notify` is whether its channel, which has room for one token, holds it.
pub record Outbox : Type 0 where
  pub queue : List TaskResult
  pub notify : Bool
  pub closed : Bool

-- newOutbox
abbrev pub new_outbox : Outbox
new_outbox = record { queue = []; notify = false; closed = false }

-- push, under the lock: whether the result is queued, and so whether wake follows.
unfoldable pub enqueue : TaskResult → Outbox → Outbox × Bool
enqueue res o = elim o.closed [
  | true ↦ (o, false)
  | false ↦ (record o { queue = o.queue ++ res ∷ [] }, true)
]

-- wake: where the channel is full, the select takes its default branch.
unfoldable pub wake : Outbox → Outbox
wake o = record o { notify = true }

-- stop
unfoldable pub stop : Outbox → Outbox
stop o = record o { closed = true }

-- peek
unfoldable pub peek : Outbox → Option TaskResult
peek o = elim o.queue [ [] ↦ none | res ∷ rest ↦ some res ]

-- pop; the copy into a smaller array keeps the items.
unfoldable pub pop : Outbox → Outbox
pop o = elim o.queue [ [] ↦ o | res ∷ rest ↦ record o { queue = rest } ]

abbrev is_permanent : Code → Bool
is_permanent resource_exhausted = true
is_permanent invalid_argument = true
is_permanent unimplemented = true
is_permanent not_found = true
is_permanent permission_denied = true
is_permanent unauthenticated = true
is_permanent out_of_range = true
is_permanent failed_precondition = true
is_permanent _ = false

-- permanentSubmitError
unfoldable pub permanent_submit_error : RpcError → Bool
permanent_submit_error (status code) = is_permanent code
permanent_submit_error other_error = false
