-- ===== src/Link/Results.antt =====
-- A result on its way: submitLoop (outbox.go), SubmitResult (server.go), HandleResult (pending.go).
use akira_mcp.Base.{
  ◌≡◌, ◌≢◌, ◌⊎◌, inl, inr, false, List, [], ◌∷◌, ◌++◌, Option, none, some, list_eq, nat_eq, arith,
  refl, ap, ◌∙◌,
}
use akira_mcp.Base.Map.{lookup}
use akira_mcp.Base.Text.{Text}
use akira_mcp.Rpc.{Code, RpcError, status, invalid_argument, permission_denied}
use akira_mcp.Server.Pool.{Pool, PendingEntry, TaskResult, result}
use akira_mcp.Server.Pool.Loss.{handle_result_outcomes}
use akira_mcp.Server.Connect.{submit_result}
use akira_mcp.Client.Connection.Outbox.{peek, pop, permanent_submit_error}
use akira_mcp.Client.Connection.Submit.{
  draining, sending, Sender, Fate, acknowledged, dropped, begins, answers, settle, begin_submit,
  end_submit, step, run, stamp,
}

-- What the client sees of an answer of SubmitResult.
abbrev pub answer_of : Option Code → Option RpcError
answer_of none = none
answer_of (some code) = some (status code)

-- The answer is final.
abbrev pub fate_of : Option Code → Fate
fate_of none = acknowledged
fate_of (some code) = dropped (status code)

submit_result_codes :
    (res : TaskResult) (p : Pool)
    → let code = (submit_result (some res) p).1 in
      (code ≡ none) ⊎ ((code ≡ some invalid_argument) ⊎ (code ≡ some permission_denied))
unfolding submit_result
submit_result_codes res p = ground arith

-- Whatever SubmitResult itself answers, the client never sends the result again.
answered_result :
    (code : Option Code) (s : Sender) (res : TaskResult)
    → (code ≡ none) ⊎ ((code ≡ some invalid_argument) ⊎ (code ≡ some permission_denied))
    → s.cancelled ≡ false
    → s.phase ≡ sending res
    → end_submit (answer_of code) s ≡ settle res (fate_of code) s
unfolding end_submit permanent_submit_error
answered_result code s res known c p = elim known [
  | inl e ↦ rw e (ground (arith, p))
  | inr (inl e) ↦ rw e (ground (arith, p, c))
  | inr (inr e) ↦ rw e (ground (arith, p, c))
]

-- The result in hand, from the queue to its end.
abbrev after_answer : Sender → TaskResult → List TaskResult → Option Code → Sender
after_answer s res rest code = record s {
  outbox = record s.outbox { queue = rest };
  phase = draining;
  settled = s.settled ++ (res, fate_of code) ∷ [];
}

submitted :
    (s : Sender) (res : TaskResult) (rest : List TaskResult) (code : Option Code)
    → (code ≡ none) ⊎ ((code ≡ some invalid_argument) ⊎ (code ≡ some permission_denied))
    → s.outbox.queue ≡ res ∷ rest
    → s.phase ≡ draining
    → s.cancelled ≡ false
    → run s (begins ∷ answers (answer_of code) ∷ [])
      ≡ after_answer s (stamp s.conn_id res) rest code
unfolding run step
submitted s res rest code known q p c =
    let sent = stamp s.conn_id res in
    let t : Sender = record s {
      outbox = record s.outbox { queue = sent ∷ rest };
      phase = sending sent;
    } in
    let begun : begin_submit s ≡ t = unfold begin_submit peek in ground (arith, q, p) in
    ap (λ r. end_submit (answer_of code) r) begun
    ∙ (answered_result code t sent known c refl ∙ (unfold pop in refl))

submit_result_outcomes :
    (res : TaskResult) (p : Pool)
    → res.task_id ≢ []
    → res.client_id ≢ []
    → let r = submit_result (some res) p in
      ((lookup res.task_id p.pending ≡ none) × (r ≡ (p, none)))
      ⊎ ((e : PendingEntry) × (lookup res.task_id p.pending ≡ some e)
          × (((res.client_id ≢ e.owner) × (r ≡ (p, some permission_denied)))
              ⊎ ((res.client_id ≡ e.owner)
                  × (r.1 ≡ none)
                  × (lookup e.ticket r.0.deliveries ≡ some (result res)))))
unfolding submit_result
submit_result_outcomes res p named signed = elim (handle_result_outcomes res p) [
  | inl (unknown, e) ↦ inl (unknown, ground (arith, named, signed, e))
  | inr (e, waits, inl (other, f)) ↦ inr (e, waits, inl (other, ground (arith, named, signed, f)))
  | inr (e, waits, inr (same, f, _, woken)) ↦
      inr (
        e,
        waits,
        inr (same, ground (arith, named, signed, f), ground (arith, named, signed, woken)),
      )
]

-- The first result of the queue, of a client that is sending and not cancelled, with a connection id
-- and a task id that are not empty, goes to SubmitResult, and the answer comes back: the result leaves the queue and is not sent again. If a task waits for it from
-- this connection, the task is woken with it and the client has it acknowledged; if the task waits
-- for another connection, the pool is as before and the client drops it; if no task waits, the pool
-- is as before and the client has it acknowledged.
pub result_ends :
    (s : Sender) (p : Pool) (id : Text) (res : TaskResult) (rest : List TaskResult)
    → s.outbox.queue ≡ res ∷ rest
    → s.phase ≡ draining
    → s.cancelled ≡ false
    → s.conn_id ≡ some id
    → id ≢ []
    → res.task_id ≢ []
    → let sent = stamp (some id) res in
      let r = submit_result (some sent) p in
      let t = run s (begins ∷ answers (answer_of r.1) ∷ []) in
      (t.phase ≡ draining)
      × (t.outbox.queue ≡ rest)
      × (((lookup res.task_id p.pending ≡ none)
            × (r.0 ≡ p)
            × (t.settled ≡ s.settled ++ (sent, acknowledged) ∷ []))
          ⊎ ((e : PendingEntry) × (lookup res.task_id p.pending ≡ some e)
              × (((id ≡ e.owner)
                    × (lookup e.ticket r.0.deliveries ≡ some (result sent))
                    × (t.settled ≡ s.settled ++ (sent, acknowledged) ∷ []))
                  ⊎ ((id ≢ e.owner)
                      × (r.0 ≡ p)
                      × (t.settled
                          ≡ s.settled ++ (sent, dropped (status permission_denied)) ∷ [])))))
result_ends s p id res rest q idle c stamped nonempty named =
    let sent = stamp (some id) res in
    let r = submit_result (some sent) p in
    let t = run s (begins ∷ answers (answer_of r.1) ∷ []) in
    let same : t ≡ after_answer s sent rest r.1 =
      submitted s res rest r.1 (submit_result_codes sent p) q idle c
      ∙ ap (λ k. after_answer s (stamp k res) rest r.1) stamped in
    let ends : (code : Option Code)
        → r.1 ≡ code
        → t.settled ≡ s.settled ++ (sent, fate_of code) ∷ [] =
      (λ code e. ap (λ u. u.settled) same ∙ ap (λ k. s.settled ++ (sent, fate_of k) ∷ []) e) in
    (
      ap (λ u. u.phase) same,
      ap (λ u. u.outbox.queue) same,
      elim (submit_result_outcomes sent p named nonempty) [
        | inl (unknown, e) ↦ inl (unknown, ap (λ u. u.0) e, ends none (ap (λ u. u.1) e))
        | inr (e, waits, inl (other, f)) ↦ inr (
          e,
          waits,
          inr (other, ap (λ u. u.0) f, ends (some permission_denied) (ap (λ u. u.1) f)),
        )
        | inr (e, waits, inr (own, f, woken)) ↦ inr (e, waits, inl (own, woken, ends none f))
      ],
    )
