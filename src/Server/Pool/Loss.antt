-- ===== src/Server/Pool/Loss.antt =====
-- What becomes of the waiting tasks when a connection goes.
use akira_mcp.Base.{
  ℕ, ◌≡◌, ◌≢◌, ◌⊎◌, inl, inr, true, false, not, List, [], ◌∷◌, ◌++◌, none, some, Option-cases, ◌==◌,
  list_eq, nat_eq, arith,
}
use akira_mcp.Base.Map.{Map, lookup, lookup-erase, lookup-retain, All-lookup}
use akira_mcp.Base.Text.{Text}
use akira_mcp.Server.Pool.{
  Pool, PendingEntry, Delivery, failed, result, connection_closed, not_task_owner, TaskResult,
}
use akira_mcp.Server.Pool.Pending.{fail_pending_client, failures, handle_result, close}
use akira_mcp.Server.Pool.Registry.{disconnect, forget, has}
use akira_mcp.Server.Pool.Deliveries.{PoolOnce}
use akira_mcp.Server.Pool.Once.{OtherTicket, Once}

-- An entry of the owner is logged as failed.
lookup-failures :
    (owner id : Text) (e : PendingEntry) (log : List (ℕ × Delivery)) (m : Map Text PendingEntry)
    (n : ℕ)
    → Once m log n
    → lookup id m ≡ some e
    → e.owner ≡ owner
    → lookup e.ticket (failures owner m ++ log) ≡ some (failed connection_closed)
unfolding lookup
lookup-failures owner id e log [] n o h same = cc
lookup-failures owner id e log ((j, f) ∷ m) n o h same = elim (list_eq.dec id j) [
  | yes p ↦ ground arith
  | no p ↦
      let found : lookup id m ≡ some e = ground arith in
      let tail : Once m log n = record {
        below = o.below.1;
        log_below = o.log_below;
        differ = o.differ.1;
        unwoken = o.unwoken.1;
        nodup = o.nodup;
      } in
      ground (
        arith,
        lookup-failures owner id e log m n tail found same,
        All-lookup (OtherTicket f.ticket) id e m o.differ.0 found,
      )
]

pub fields-close :
    (h : ℕ) (p : Pool)
    → ((close h p).0.pending ≡ p.pending)
      × ((close h p).0.deliveries ≡ p.deliveries)
      × ((close h p).0.conns ≡ p.conns)
unfolding close
fields-close h p = ground arith

-- Disconnecting an active connection, in a pool where no ticket was woken twice: it is active no
-- more; each task that waited for it is woken with ErrConnectionClosed and waits no more, sent or
-- not; and the tasks of other connections wait on.
pub disconnect_settles :
    (id task_id : Text) (e : PendingEntry) (p : Pool)
    → PoolOnce p
    → has id p ≡ true
    → lookup task_id p.pending ≡ some e
    → let q = (disconnect id p).0 in
      (has id q ≡ false)
      × (((e.owner ≡ id)
            × (lookup task_id q.pending ≡ none)
            × (lookup e.ticket q.deliveries ≡ some (failed connection_closed)))
          ⊎ ((e.owner ≢ id) × (lookup task_id q.pending ≡ some e)))
unfolding disconnect has fail_pending_client
disconnect_settles id task_id e p o active waits = elim (Option-cases (lookup id p.conns)) [
  | inl none_there ↦ ground arith
  | inr (h, there) ↦
      let closed = fields-close h (forget id p) in
      let live = λ (f : PendingEntry). not (f.owner == id) in
      (
        ground (arith, there, closed, lookup-erase id id p.conns),
        elim (list_eq.dec e.owner id) [
          | yes same ↦ inl (
            same,
            ground (arith, there, closed, lookup-retain task_id live p.pending),
            ground (
              arith,
              there,
              closed,
              lookup-failures id task_id e p.deliveries p.pending p.next o waits same,
            ),
          )
          | no other ↦
              inr (other, ground (arith, there, closed, lookup-retain task_id live p.pending))
        ],
      )
]

-- A result is taken from the owner alone. A result for a task that waits, signed by another
-- connection, is refused and changes nothing; one signed by the owner wakes the task with it; and a
-- result that nobody waits for is dropped with no error.
pub handle_result_outcomes :
    (res : TaskResult) (p : Pool)
    → ((lookup res.task_id p.pending ≡ none) × (handle_result res p ≡ (p, none)))
      ⊎ ((e : PendingEntry) × (lookup res.task_id p.pending ≡ some e)
          × (((res.client_id ≢ e.owner) × (handle_result res p ≡ (p, some not_task_owner)))
              ⊎ ((res.client_id ≡ e.owner)
                  × ((handle_result res p).1 ≡ none)
                  × (lookup res.task_id (handle_result res p).0.pending ≡ none)
                  × (lookup e.ticket (handle_result res p).0.deliveries ≡ some (result res)))))
unfolding handle_result lookup
handle_result_outcomes res p = elim (Option-cases (lookup res.task_id p.pending)) [
  | inl h ↦ inl (h, ground (arith, h))
  | inr (e, h) ↦ inr (
    e,
    h,
    elim (list_eq.dec res.client_id e.owner) [
      | no other ↦ inl (other, ground (arith, h))
      | yes same ↦ inr (
        same,
        ground (arith, h),
        ground (arith, h, lookup-erase res.task_id res.task_id p.pending),
        ground (arith, h),
      )
    ],
  )
]
