-- ===== src/Server/Connect/Stream.antt =====
-- The stream loop of Connect in connection/server/server.go: a closed connection is sent nothing.
use akira_mcp.Base.{
  ℕ, ◌<◌, ◌≡◌, ◌⊎◌, inl, inr, Bool, true, false, List, [], ◌∷◌, ◌++◌, Option, none, some,
  Option-cases, List-cases, Bool-cases, ◌==◌, list_eq, nat_eq, arith, refl, sym, subst,
}
use akira_mcp.Base.Map.{lookup, lookup-insert, erase}
use akira_mcp.Base.Text.{Text}
use akira_mcp.Server.Pool.{Pool, ClientInfo, Message, task, register_ack, connection_id_of}
use akira_mcp.Server.Pool.Pending.{
  fail_task, fail_unsent, fail_pending_client, handle_result, add_pending, drop_pending, post,
  close,
}
use akira_mcp.Server.Pool.Registry.{
  register, unregister, disconnect, retire, enrol, forget, at_limit, count_by_user,
  fresh_connection,
}
use akira_mcp.Server.Pool.Events.{
  Event, registers, unregisters, disconnects, adds, drops, posts, submits, closes, fails,
  fails_unsent, fails_client, step,
}
use akira_mcp.Server.Connect.{
  Handler, Handling, sending, take_message, is_closed, finish, check_done, end_send, see_done,
  end_context, StreamEvent, takes, checks, sees_done, ends_context, sends, others, stream_step,
  stream_run,
}

abbrev pub is_sending : Handling → Bool
is_sending (sending _) = true
is_sending _ = false

module _ (h : ℕ) where
  -- The handle is taken, and its connection is closed.
  abbrev Shut : Pool → Type 0
  Shut p = (h < p.next) × (is_closed h p ≡ true)

  fail_task-Shut : (id : Text) (p : Pool) → Shut p → Shut (fail_task id p)
  unfolding fail_task is_closed
  fail_task-Shut id p s = ground (arith, s)

  fail_unsent-Shut : (msgs : List Message) (p : Pool) → Shut p → Shut (fail_unsent msgs p)
  unfolding fail_unsent
  fail_unsent-Shut [] p s = s
  fail_unsent-Shut (task id ∷ msgs) p s =
      fail_unsent-Shut msgs (fail_task id p) (fail_task-Shut id p s)
  fail_unsent-Shut (register_ack ∷ msgs) p s = fail_unsent-Shut msgs p s

  close-Shut : (k : ℕ) (p : Pool) → Shut p → Shut (close k p).0
  unfolding close is_closed
  close-Shut k p s = elim (Option-cases (lookup k p.connections)) [
    | inl e ↦ ground (arith, e, s)
    | inr (c, e) ↦
        ground (arith, e, s, lookup-insert h k (record c { out = []; closed = true }) p.connections)
  ]

  retire-Shut : (old : Option ℕ) (p : Pool) → Shut p → Shut (retire old p)
  retire-Shut none p s = s
  retire-Shut (some k) p s = fail_unsent-Shut (close k p).1 (close k p).0 (close-Shut k p s)

  enrol-Shut :
      (id user_id session : Text) (info : ClientInfo) (p : Pool)
      → Shut p
      → Shut (enrol id user_id info session p)
  unfolding is_closed
  enrol-Shut id user_id session info p s =
      ground (arith, s, lookup-insert h p.next (fresh_connection id session) p.connections)

  lose-Shut :
      (k : ℕ) (id : Text) (p : Pool)
      → Shut p
      → Shut (fail_pending_client id (close k (forget id p)).0)
  unfolding fail_pending_client is_closed
  lose-Shut k id p s = close-Shut k (forget id p) s

  register-Shut :
      (id user_id session : Text) (info : ClientInfo) (p : Pool)
      → Shut p
      → Shut (register id user_id info session p).0
  unfolding register
  register-Shut id user_id session info p s =
      elim (Bool-cases (at_limit p.max_connections (count_by_user user_id (erase id p.conns)))) [
        | inl e ↦ rw (e, register) s
        | inr e ↦
            rw (e, register)
              (retire-Shut (lookup id p.conns) (enrol id user_id info session p)
                (enrol-Shut id user_id session info p s))
      ]

  unregister-Shut : (k : ℕ) (id : Text) (p : Pool) → Shut p → Shut (unregister k id p)
  unfolding unregister
  unregister-Shut k id p s = elim (Option-cases (lookup id p.conns)) [
    | inl e ↦ rw (e, unregister) s
    | inr (cur, e) ↦ elim (Bool-cases (cur == k)) [
      | inl f ↦ rw (e, f, unregister) (lose-Shut k id p s)
      | inr f ↦ rw (e, f, unregister) (retire-Shut (some k) p s)
    ]
  ]

  disconnect-Shut : (id : Text) (p : Pool) → Shut p → Shut (disconnect id p).0
  unfolding disconnect
  disconnect-Shut id p s = elim (Option-cases (lookup id p.conns)) [
    | inl e ↦ rw (e, disconnect) s
    | inr (k, e) ↦ rw (e, disconnect) (lose-Shut k id p s)
  ]

  post-Shut : (k : ℕ) (msg : Message) (p : Pool) → Shut p → Shut (post k msg p)
  unfolding post is_closed
  post-Shut k msg p s = elim (Option-cases (lookup k p.connections)) [
    | inl e ↦ ground (arith, e, s)
    | inr (c, e) ↦
        ground (arith, e, s, lookup-insert h k (record c { out = c.out ++ msg ∷ [] }) p.connections)
  ]

  step-Shut : (p : Pool) (e : Event) → Shut p → Shut (step p e)
  unfolding step
  step-Shut p (registers user client info session) s =
      register-Shut (connection_id_of user client) user session info p s
  step-Shut p (unregisters k id) s = unregister-Shut k id p s
  step-Shut p (disconnects id) s = disconnect-Shut id p s
  step-Shut p (adds id task_id) s = unfold add_pending is_closed in ground (arith, s)
  step-Shut p (drops task_id t) s = unfold drop_pending is_closed in ground (arith, s)
  step-Shut p (posts k msg) s = post-Shut k msg p s
  step-Shut p (submits res) s = unfold handle_result is_closed in ground (arith, s)
  step-Shut p (closes k) s = close-Shut k p s
  step-Shut p (fails task_id) s = fail_task-Shut task_id p s
  step-Shut p (fails_unsent msgs) s = fail_unsent-Shut msgs p s
  step-Shut p (fails_client id) s = unfold fail_pending_client is_closed in s

  module _ (connection_id : Text) (before : List Message) where
    -- On a closed connection, nothing more is sent, and no Send is in progress.
    abbrev Quiet : Handler → Type 0
    Quiet s = Shut s.pool × ((is_sending s.handling ≡ false) × (s.sent ≡ before))

    take-Quiet : (s : Handler) → Quiet s → Quiet (take_message h s)
    unfolding take_message is_closed
    take-Quiet s k = elim (Option-cases (lookup h s.pool.connections)) [
      | inl e ↦ ground (arith, e, k)
      | inr (c, e) ↦ elim (List-cases c.out) [
        | inl f ↦ ground (arith, e, f, k)
        | inr (msg, rest, f) ↦
            let kept = lookup-insert h h (record c { out = rest }) s.pool.connections in
            ground (arith, e, f, k, kept)
      ]
    ]

    finish-Quiet : (s : Handler) → Quiet s → Quiet (finish h connection_id s)
    finish-Quiet s k = (unregister-Shut h connection_id s.pool k.0, (refl, k.1.1))

    check-Quiet : (s : Handler) → Quiet s → Quiet (check_done h connection_id s)
    unfolding check_done
    check-Quiet s k = ground (arith, k, finish-Quiet s k)

    step-Quiet : (s : Handler) (e : StreamEvent) → Quiet s → Quiet (stream_step h connection_id s e)
    unfolding stream_step
    step-Quiet s takes k = take-Quiet s k
    step-Quiet s checks k = check-Quiet s k
    step-Quiet s (sends b) k = unfold end_send in ground (arith, k)
    step-Quiet s sees_done k = unfold see_done in ground (arith, k, finish-Quiet s k)
    step-Quiet s ends_context k = unfold end_context in ground (arith, k, finish-Quiet s k)
    step-Quiet s (others e) k = (step-Shut s.pool e k.0, k.1)

    run-Quiet :
        (s : Handler) (es : List StreamEvent) → Quiet s → Quiet (stream_run h connection_id s es)
    unfolding stream_run
    run-Quiet s [] k = k
    run-Quiet s (e ∷ es) k = run-Quiet (stream_step h connection_id s e) es (step-Quiet s e k)

-- A Send in progress, on a closed connection.
module _ (h : ℕ) (connection_id : Text) (msg : Message) where
  -- What the rest of a run adds to what was sent.
  abbrev Adds : List Message → List Message → Type 0
  Adds before after = (after ≡ before) ⊎ (after ≡ before ++ msg ∷ [])

  -- Only its end changes it.
  sending_step :
      (s : Handler) (e : StreamEvent)
      → Shut h s.pool
      → s.handling ≡ sending msg
      → let t = stream_step h connection_id s e in
        (Shut h t.pool × ((t.handling ≡ sending msg) × (t.sent ≡ s.sent)))
        ⊎ (Adds s.sent t.sent × Quiet h connection_id t.sent t)
  unfolding stream_step
  sending_step s takes k p = unfold take_message in ground (arith, k, p)
  sending_step s checks k p = unfold check_done in ground (arith, k, p)
  sending_step s (sends b) k p =
      unfold end_send in ground (arith, k, p, unregister-Shut h h connection_id s.pool k)
  sending_step s sees_done k p = unfold see_done in ground (arith, k, p)
  sending_step s ends_context k p = unfold end_context in ground (arith, k, p)
  sending_step s (others e) k p = inl (step-Shut h s.pool e k, (p, refl))

  run_sending :
      (s : Handler) (es : List StreamEvent)
      → Shut h s.pool
      → s.handling ≡ sending msg
      → Adds s.sent (stream_run h connection_id s es).sent
  unfolding stream_run
  run_sending s [] k p = inl refl
  run_sending s (e ∷ es) k p =
      let t = stream_step h connection_id s e in
      elim (sending_step s e k p) [
        | inl (k', (p', same)) ↦
            subst (λ before. Adds before (stream_run h connection_id t es).sent) same
              (run_sending t es k' p')
        | inr (added, quiet) ↦
            subst (λ after. Adds s.sent after)
              (sym (run-Quiet h connection_id t.sent t es quiet).1.1) added
      ]

handling-cases : (p : Handling) → (is_sending p ≡ false) ⊎ ((msg : Message) × (p ≡ sending msg))
handling-cases p = ground arith

-- Once a connection is closed, whatever its handler and the pool's other users do: the stream takes
-- no further message, but for one that is in Send at that moment.
pub closed_sends_nothing :
    (h : ℕ) (connection_id : Text) (s : Handler) (es : List StreamEvent)
    → h < s.pool.next
    → is_closed h s.pool ≡ true
    → let after = (stream_run h connection_id s es).sent in
      (after ≡ s.sent)
      ⊎ ((msg : Message) × (s.handling ≡ sending msg) × (after ≡ s.sent ++ msg ∷ []))
closed_sends_nothing h connection_id s es taken shut = elim (handling-cases s.handling) [
  | inl q ↦ inl (run-Quiet h connection_id s.sent s es ((taken, shut), (q, refl))).1.1
  | inr (msg, p) ↦ elim (run_sending h connection_id msg s es (taken, shut) p) [
    | inl same ↦ inl same
    | inr one ↦ inr (msg, p, one)
  ]
]
