-- ===== src/Server/Pool/Races.antt =====
-- Calls that meet in the middle of each other: a disconnection inside SendTask, and the Unregister
-- of a stream whose connection was replaced.
use akira_mcp.Base.{
  ℕ, ◌≡◌, ◌≢◌, inr, true, false, not, [], ◌∷◌, ◌++◌, none, some, ◌==◌, list_eq, nat_eq, arith, refl,
  ltb, length, subst,
}
use akira_mcp.Base.Map.{lookup, lookup-insert, lookup-erase, lookup-retain}
use akira_mcp.Base.Text.{Text}
use akira_mcp.Server.Pool.{Pool, PendingEntry, Connection, task, out_capacity}
use akira_mcp.Server.Pool.Pending.{fail_pending_client, find_connection, add_pending, post, close}
use akira_mcp.Server.Pool.Registry.{disconnect, has, unregister}
use akira_mcp.Server.Pool.Once.{lookup-failures_other, fresh_in_log, fresh_ticket}
use akira_mcp.Server.Pool.Deliveries.{PoolOnce}
use akira_mcp.Server.Pool.Reconnect.{conns-fail_unsent}

-- The pool after: a Disconnect of the machine, then the rest of a SendTask to it that had found the
-- connection `h` before, whose Post takes the branch that sends.
abbrev pub disconnect_inside_send : Text → Text → ℕ → Pool → Pool
disconnect_inside_send id task_id h p =
    post h (task task_id) (add_pending id task_id (disconnect id p).0).0

module _ (id task_id : Text) (h : ℕ) (c : Connection) (p : Pool) where
  after_disconnect :
      PoolOnce p
      → lookup id p.conns ≡ some h
      → lookup h p.connections ≡ some c
      → lookup task_id p.pending ≡ none
      → let q = (disconnect id p).0 in
        (lookup id q.conns ≡ none)
        × (lookup h q.connections ≡ some (record c { out = []; closed = true }))
        × (lookup task_id q.pending ≡ none)
        × (lookup p.next q.deliveries ≡ none)
        × (q.next ≡ p.next)
  unfolding disconnect fail_pending_client close
  after_disconnect o there queue free =
      let kept = λ (f : PendingEntry). not (f.owner == id) in
      ground (
        arith,
        there,
        queue,
        lookup-erase id id p.conns,
        lookup-insert h h (record c { out = []; closed = true }) p.connections,
        lookup-retain task_id kept p.pending,
        free,
        lookup-failures_other id p.deliveries p.next p.pending
            (fresh_ticket p.next p.pending o.below),
        fresh_in_log p.next p.deliveries o.log_below,
      )

-- The rest of a SendTask, on a pool where the connection `h` is closed and not registered.
finish_send :
    (id task_id : Text) (h : ℕ) (c : Connection) (q : Pool)
    → lookup id q.conns ≡ none
    → lookup h q.connections ≡ some c
    → c.out ≡ []
    → lookup task_id q.pending ≡ none
    → let r = post h (task task_id) (add_pending id task_id q).0 in
      (lookup h r.connections ≡ some (record c { out = task task_id ∷ [] }))
      × (lookup id r.conns ≡ none)
      × (lookup task_id r.pending ≡ some (record { ticket = q.next; owner = id }))
      × (r.deliveries ≡ q.deliveries)
unfolding post add_pending
finish_send id task_id h c q gone queue empty free =
    let room : ltb (length c.out) out_capacity ≡ true = rw empty refl in
    let sent : c.out ++ task task_id ∷ [] ≡ task task_id ∷ [] = rw empty refl in
    ground (
      arith,
      gone,
      queue,
      free,
      room,
      sent,
      lookup-insert task_id task_id (record { ticket = q.next; owner = id }) q.pending,
      lookup-insert h h (record c { out = c.out ++ task task_id ∷ [] }) q.connections,
    )

unregistered :
    (id : Text) (h : ℕ) (q : Pool)
    → lookup id q.conns ≡ none
    → (has id q ≡ false) × (unregister h id q ≡ q) × (disconnect id q ≡ (q, false))
unfolding has unregister disconnect
unregistered id h q gone = ground (arith, gone)

-- A Disconnect that comes inside a SendTask, after it found the connection and before it adds its
-- entry, in a pool where no ticket was woken twice and the task id is free: when Post takes the branch
-- that sends, the task is in the queue of a closed connection that is registered no more, and its
-- entry waits, not woken. Unregister of that connection and a second Disconnect change nothing.
pub lost_task :
    (id task_id : Text) (h : ℕ) (c : Connection) (p : Pool)
    → PoolOnce p
    → find_connection id p ≡ inr h
    → lookup h p.connections ≡ some c
    → lookup task_id p.pending ≡ none
    → let q = disconnect_inside_send id task_id h p in
      (lookup h q.connections ≡ some (record c { out = task task_id ∷ []; closed = true }))
      × (has id q ≡ false)
      × (lookup task_id q.pending ≡ some (record { ticket = p.next; owner = id }))
      × (lookup p.next q.deliveries ≡ none)
      × (unregister h id q ≡ q)
      × (disconnect id q ≡ (q, false))
unfolding find_connection
lost_task id task_id h c p o found queue free =
    let there : lookup id p.conns ≡ some h = ground arith in
    let q = (disconnect id p).0 in
    let (gone, closed, still_free, silent, same) =
      after_disconnect id task_id h c p o there queue free in
    let (queued, off, waits, log) =
      finish_send id task_id h (record c { out = []; closed = true }) q gone closed refl
        still_free in
    let (not_has, stays, again) = unregistered id h (disconnect_inside_send id task_id h p) off in
    (
      queued,
      not_has,
      subst
          (λ n.
            lookup task_id (disconnect_inside_send id task_id h p).pending
            ≡ some (record { ticket = n; owner = id }))
          same waits,
      rw log silent,
      stays,
      again,
    )

-- Unregister of a connection that was replaced: the newer registration of the same id, its info, and
-- the limit stay as they are.
pub unregister_replaced :
    (id : Text) (h new : ℕ) (p : Pool)
    → lookup id p.conns ≡ some new
    → new ≢ h
    → let q = unregister h id p in (q.conns ≡ p.conns) × (q.infos ≡ p.infos) × (has id q ≡ true)
unfolding unregister has close
unregister_replaced id h new p there other =
    ground (arith, there, other, conns-fail_unsent (close h p).1 (close h p).0)
