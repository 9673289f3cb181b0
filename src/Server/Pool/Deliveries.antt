-- ===== src/Server/Pool/Deliveries.antt =====
-- A waiting SendTask of pool/pending.go is woken at most once, whatever calls interleave.
use akira_mcp.Base.{
  ℕ, ◌≡◌, ◌⊎◌, inl, inr, List, [], ◌∷◌, Option, none, some, Option-cases, Bool-cases, ltb, length,
  ◌==◌, list_eq, nat_eq, arith,
}
use akira_mcp.Base.Map.{lookup, erase, NodupKeys, All-lookup}
use akira_mcp.Base.Text.{Text}
use akira_mcp.Server.Pool.{
  Pool, new_pool, PendingEntry, failed, result, connection_closed, Message, task, register_ack,
  TaskResult, ClientInfo, connection_id_of, out_capacity,
}
use akira_mcp.Server.Pool.Pending.{
  fail_task, fail_unsent, fail_pending_client, handle_result, add_pending, drop_pending, post,
  close,
}
use akira_mcp.Server.Pool.Registry.{
  register, unregister, disconnect, retire, enrol, forget, at_limit, count_by_user,
}
use akira_mcp.Server.Pool.Events.{
  Event, registers, unregisters, disconnects, adds, drops, posts, submits, closes, fails,
  fails_unsent, fails_client, step, run,
}
use akira_mcp.Server.Pool.Once.{
  Unwoken, Once, erase-Once, wake-Once, fail_all-Once, add-Once, next-Once,
}

abbrev pub PoolOnce : Pool → Type 0
PoolOnce p = Once p.pending p.deliveries p.next

pub fail_task-Once : (id : Text) (p : Pool) → PoolOnce p → PoolOnce (fail_task id p)
unfolding fail_task
fail_task-Once id p o = elim (Option-cases (lookup id p.pending)) [
  | inl h ↦ rw (h, fail_task) o
  | inr (e, h) ↦ rw (h, fail_task) (wake-Once id e (failed connection_closed) h o)
]

fail_unsent-Once : (msgs : List Message) (p : Pool) → PoolOnce p → PoolOnce (fail_unsent msgs p)
unfolding fail_unsent
fail_unsent-Once [] p o = o
fail_unsent-Once (task id ∷ msgs) p o =
    fail_unsent-Once msgs (fail_task id p) (fail_task-Once id p o)
fail_unsent-Once (register_ack ∷ msgs) p o = fail_unsent-Once msgs p o

pub close-Once : (h : ℕ) (p : Pool) → PoolOnce p → PoolOnce (close h p).0
unfolding close
close-Once h p o = ground (arith, o)

retire-Once : (old : Option ℕ) (p : Pool) → PoolOnce p → PoolOnce (retire old p)
retire-Once none p o = o
retire-Once (some h) p o = fail_unsent-Once (close h p).1 (close h p).0 (close-Once h p o)

fail_client-Once : (id : Text) (p : Pool) → PoolOnce p → PoolOnce (fail_pending_client id p)
unfolding fail_pending_client
fail_client-Once id p o = fail_all-Once id p.deliveries p.pending p.next o

lose-Once :
    (h : ℕ) (id : Text) (p : Pool)
    → PoolOnce p
    → PoolOnce (fail_pending_client id (close h (forget id p)).0)
lose-Once h id p o = fail_client-Once id (close h (forget id p)).0 (close-Once h (forget id p) o)

register-Once :
    (user_id id session : Text) (info : ClientInfo) (p : Pool)
    → PoolOnce p
    → PoolOnce (register id user_id info session p).0
unfolding register
register-Once user_id id session info p o =
    elim (Bool-cases (at_limit p.max_connections (count_by_user user_id (erase id p.conns)))) [
      | inl e ↦ rw (e, register) o
      | inr e ↦
          rw (e, register)
            (retire-Once (lookup id p.conns) (enrol id user_id info session p) (next-Once o))
    ]

unregister-Once : (h : ℕ) (id : Text) (p : Pool) → PoolOnce p → PoolOnce (unregister h id p)
unfolding unregister
unregister-Once h id p o = elim (Option-cases (lookup id p.conns)) [
  | inl e ↦ rw (e, unregister) o
  | inr (cur, e) ↦ elim (Bool-cases (cur == h)) [
    | inl f ↦ rw (e, f, unregister) (lose-Once h id p o)
    | inr f ↦ rw (e, f, unregister) (retire-Once (some h) p o)
  ]
]

disconnect-Once : (id : Text) (p : Pool) → PoolOnce p → PoolOnce (disconnect id p).0
unfolding disconnect
disconnect-Once id p o = elim (Option-cases (lookup id p.conns)) [
  | inl e ↦ rw (e, disconnect) o
  | inr (h, e) ↦ rw (e, disconnect) (lose-Once h id p o)
]

handle_result-Once : (res : TaskResult) (p : Pool) → PoolOnce p → PoolOnce (handle_result res p).0
unfolding handle_result
handle_result-Once res p o = elim (Option-cases (lookup res.task_id p.pending)) [
  | inl h ↦ rw (h, handle_result) o
  | inr (e, h) ↦ elim (Bool-cases (res.client_id == e.owner)) [
    | inl f ↦ rw (h, f, handle_result) (wake-Once res.task_id e (result res) h o)
    | inr f ↦ rw (h, f, handle_result) o
  ]
]

add_pending-Once : (owner id : Text) (p : Pool) → PoolOnce p → PoolOnce (add_pending owner id p).0
unfolding add_pending
add_pending-Once owner id p o = elim (Option-cases (lookup id p.pending)) [
  | inl h ↦ rw (h, add_pending) (add-Once id owner o)
  | inr (e, h) ↦ rw (h, add_pending) o
]

drop_pending-Once : (id : Text) (t : ℕ) (p : Pool) → PoolOnce p → PoolOnce (drop_pending id t p)
unfolding drop_pending
drop_pending-Once id t p o = elim (Option-cases (lookup id p.pending)) [
  | inl h ↦ rw (h, drop_pending) o
  | inr (e, h) ↦ elim (Bool-cases (e.ticket == t)) [
    | inl f ↦ rw (h, f, drop_pending) (erase-Once id o)
    | inr f ↦ rw (h, f, drop_pending) o
  ]
]

post-Once : (h : ℕ) (msg : Message) (p : Pool) → PoolOnce p → PoolOnce (post h msg p)
unfolding post
post-Once h msg p o = elim (Option-cases (lookup h p.connections)) [
  | inl e ↦ rw (e, post) o
  | inr (c, e) ↦ elim (Bool-cases (ltb (length c.out) out_capacity)) [
    | inl f ↦ rw (e, f, post) o
    | inr f ↦ rw (e, f, post) o
  ]
]

step-Once : (p : Pool) (e : Event) → PoolOnce p → PoolOnce (step p e)
unfolding step
step-Once p (registers user client info session) o =
    register-Once user (connection_id_of user client) session info p o
step-Once p (unregisters h id) o = unregister-Once h id p o
step-Once p (disconnects id) o = disconnect-Once id p o
step-Once p (adds id task_id) o = add_pending-Once id task_id p o
step-Once p (drops task_id t) o = drop_pending-Once task_id t p o
step-Once p (posts h msg) o = post-Once h msg p o
step-Once p (submits res) o = handle_result-Once res p o
step-Once p (closes h) o = close-Once h p o
step-Once p (fails task_id) o = fail_task-Once task_id p o
step-Once p (fails_unsent msgs) o = fail_unsent-Once msgs p o
step-Once p (fails_client id) o = fail_client-Once id p o

pub run-Once : (p : Pool) (es : List Event) → PoolOnce p → PoolOnce (run p es)
unfolding run
run-Once p [] o = o
run-Once p (e ∷ es) o = run-Once (step p e) es (step-Once p e o)

pub new_pool-Once : (max : ℕ) → PoolOnce (new_pool max)
new_pool-Once max = record { below = tt; log_below = tt; differ = tt; unwoken = tt; nodup = tt }

-- In whatever order calls and parts of calls come to a new pool: no ticket is woken twice, and a
-- task id is either not waited for, or waited for with a ticket that has not been woken.
pub woken_at_most_once :
    (max : ℕ) (es : List Event) (id : Text)
    → let p = run (new_pool max) es in
      NodupKeys p.deliveries
      × ((lookup id p.pending ≡ none)
          ⊎ ((e : PendingEntry) × (lookup id p.pending ≡ some e)
              × (lookup e.ticket p.deliveries ≡ none)))
woken_at_most_once max es id =
    let p = run (new_pool max) es in
    let o = run-Once (new_pool max) es (new_pool-Once max) in
    (
      o.nodup,
      elim (Option-cases (lookup id p.pending)) [
        | inl h ↦ inl h
        | inr (e, h) ↦ inr (e, h, All-lookup (Unwoken p.deliveries) id e p.pending o.unwoken h)
      ],
    )
