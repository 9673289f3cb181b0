-- ===== src/Server/Pool/Pending.antt =====
-- pool/pending.go, and Post and Close of client/client.go.
use akira_mcp.Base.{
  ℕ, suc, true, not, List, [], ◌∷◌, ◌++◌, Option, none, some, ◌==◌, list_eq, nat_eq, if◌then◌else◌,
  ltb, length, ◌⊎◌, inl, inr,
}
use akira_mcp.Base.Map.{Map, lookup, insert, erase, retain}
use akira_mcp.Base.Text.{Text}
use akira_mcp.Server.Pool.{
  Pool, PoolError, connection_not_found, connection_closed, task_already_pending, not_task_owner,
  Message, task, register_ack, TaskResult, PendingEntry, Delivery, result, failed, out_capacity,
}

-- FailTask
unfoldable pub fail_task : Text → Pool → Pool
fail_task task_id p = elim (lookup task_id p.pending) [
  | none ↦ p
  | some e ↦ record p {
    pending = erase task_id p.pending;
    deliveries = (e.ticket, failed connection_closed) ∷ p.deliveries;
  }
]

-- failUnsent
unfoldable pub fail_unsent : List Message → Pool → Pool
unfolding fail_task
fail_unsent [] p = p
fail_unsent (task id ∷ msgs) p = fail_unsent msgs (fail_task id p)
fail_unsent (register_ack ∷ msgs) p = fail_unsent msgs p

-- The failures of the entries of one owner.
abbrev pub failures : Text → Map Text PendingEntry → List (ℕ × Delivery)
failures owner [] = []
failures owner ((id, e) ∷ m) =
    let rest = failures owner m in
    if e.owner == owner then (e.ticket, failed connection_closed) ∷ rest else rest

-- failPendingClient
unfoldable pub fail_pending_client : Text → Pool → Pool
fail_pending_client connection_id p = record p {
  pending = retain (λ e. not (e.owner == connection_id)) p.pending;
  deliveries = failures connection_id p.pending ++ p.deliveries;
}

-- HandleResult; `none` is a nil error.
unfoldable pub handle_result : TaskResult → Pool → Pool × Option PoolError
handle_result res p = elim (lookup res.task_id p.pending) [
  | none ↦ (p, none)
  | some e ↦ if not (res.client_id == e.owner) then (p, some not_task_owner) else (
    record p {
      pending = erase res.task_id p.pending;
      deliveries = (e.ticket, result res) ∷ p.deliveries;
    },
    none,
  )
]

-- SendTask, first step: the connection that the task will be posted to.
unfoldable pub find_connection : Text → Pool → PoolError ⊎ ℕ
find_connection connection_id p = elim (lookup connection_id p.conns) [
  | none ↦ inl connection_not_found
  | some h ↦ inr h
]

-- SendTask, second step: the entry, under the ticket that its channels are.
unfoldable pub add_pending : Text → Text → Pool → Pool × (PoolError ⊎ ℕ)
add_pending connection_id task_id p = elim (lookup task_id p.pending) [
  | some _ ↦ (p, inl task_already_pending)
  | none ↦ (
    record p {
      pending = insert task_id (record { ticket = p.next; owner = connection_id }) p.pending;
      next = suc p.next;
    },
    inr p.next,
  )
]

-- SendTask's deferred step: it drops its own entry only.
unfoldable pub drop_pending : Text → ℕ → Pool → Pool
drop_pending task_id ticket p = elim (lookup task_id p.pending) [
  | none ↦ p
  | some e ↦ if e.ticket == ticket then record p { pending = erase task_id p.pending } else p
]

-- Post, when its select takes the branch that sends: the queue has room. The branch is open on a
-- closed connection too.
unfoldable pub post : ℕ → Message → Pool → Pool
post h msg p = elim (lookup h p.connections) [
  | none ↦ p
  | some c ↦
      if ltb (length c.out) out_capacity
      then record p { connections = insert h (record c { out = c.out ++ msg ∷ [] }) p.connections }
      else p
]

-- Close: what was in the queue.
unfoldable pub close : ℕ → Pool → Pool × List Message
close h p = elim (lookup h p.connections) [
  | none ↦ (p, [])
  | some c ↦ (
    record p { connections = insert h (record c { out = []; closed = true }) p.connections },
    c.out,
  )
]
