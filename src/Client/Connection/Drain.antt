-- ===== src/Client/Connection/Drain.antt =====
-- submitLoop of outbox.go empties the queue once the server answers.
use akira_mcp.Base.{
  ◌≡◌, true, false, List, [], ◌∷◌, ◌++◌, append_assoc, append-nil, Option, none, some, arith, refl,
  ap, ◌∙◌,
}
use akira_mcp.Base.Text.{Text}
use akira_mcp.Rpc.{RpcError}
use akira_mcp.Server.Pool.{TaskResult}
use akira_mcp.Client.Connection.Outbox.{peek, pop, permanent_submit_error}
use akira_mcp.Client.Connection.Submit.{
  waiting, draining, sending, pausing, Sender, Fate, acknowledged, dropped, Event, begins, answers,
  elapses, begin_submit, end_submit, end_pause, step, run, stamp,
}

-- The answers that one result gets: errors that may pass, and one that settles it.
pub record Script : Type 0 where
  pub retries : List RpcError
  pub final : Fate

abbrev pub AllTemporary : List RpcError → Type 0
AllTemporary [] = Unit
AllTemporary (err ∷ errs) = (permanent_submit_error err ≡ false) × AllTemporary errs

abbrev pub Settles : Fate → Type 0
Settles acknowledged = Unit
Settles (dropped err) = permanent_submit_error err ≡ true

-- A script for each result of the queue.
abbrev pub Scripted : List TaskResult → List Script → Type 0
Scripted [] [] = Unit
Scripted [] (x ∷ xs) = ⊥
Scripted (res ∷ queue) [] = ⊥
Scripted (res ∷ queue) (x ∷ xs) = AllTemporary x.retries × (Settles x.final × Scripted queue xs)

answer_of : Fate → Option RpcError
answer_of acknowledged = none
answer_of (dropped err) = some err

-- A result is sent again after each error that may pass.
play_result : List RpcError → Fate → List Event
unfolding answer_of
play_result [] final = begins ∷ answers (answer_of final) ∷ []
play_result (err ∷ errs) final = begins ∷ answers (some err) ∷ elapses ∷ play_result errs final

-- The loop's steps under these answers, up to its outer select.
unfoldable pub play : List Script → List Event
unfolding play_result
play [] = begins ∷ []
play (x ∷ xs) = play_result x.retries x.final ++ play xs

abbrev pub fates : Option Text → List TaskResult → List Script → List (TaskResult × Fate)
fates id [] xs = []
fates id (res ∷ queue) [] = []
fates id (res ∷ queue) (x ∷ xs) = (stamp id res, x.final) ∷ fates id queue xs

run-append : (es fs : List Event) (s : Sender) → run s (es ++ fs) ≡ run (run s es) fs
unfolding run
run-append [] fs s = refl
run-append (e ∷ es) fs s = run-append es fs (step s e)

-- The sender that looks at a queue.
abbrev at_queue : Sender → List TaskResult → Sender
at_queue s queue = record s { outbox = record s.outbox { queue = queue }; phase = draining }

abbrev after : Sender → TaskResult → Fate → List TaskResult → Sender
after s res fate rest = record (at_queue s rest) {
  settled = s.settled ++ (stamp s.conn_id res, fate) ∷ [];
}

stamp-stamp : (id : Option Text) (res : TaskResult) → stamp id (stamp id res) ≡ stamp id res
stamp-stamp none res = refl
stamp-stamp (some id) res = refl

-- After an error that may pass, the loop is back at the queue.
retry_step :
    (err : RpcError) (s : Sender) (res : TaskResult) (rest : List TaskResult) (es : List Event)
    → s.cancelled ≡ false
    → permanent_submit_error err ≡ false
    → run (at_queue s (res ∷ rest)) (begins ∷ answers (some err) ∷ elapses ∷ es)
      ≡ run (at_queue s (stamp s.conn_id res ∷ rest)) es
unfolding run step begin_submit end_submit end_pause peek
retry_step err s res rest es c t =
    let sent : Sender = record (at_queue s (stamp s.conn_id res ∷ rest)) {
      phase = sending (stamp s.conn_id res);
    } in
    let paused : end_submit (some err) sent ≡ record sent { phase = pausing } =
      ground (arith, c, t) in
    ap (λ r. run (end_pause r) es) paused

-- One result, from the head of the queue to its end.
play_result_ends :
    (errs : List RpcError) (final : Fate) (s : Sender) (res : TaskResult) (rest : List TaskResult)
    → s.cancelled ≡ false
    → AllTemporary errs
    → Settles final
    → run (at_queue s (res ∷ rest)) (play_result errs final) ≡ after s res final rest
unfolding run step play_result begin_submit end_submit peek pop answer_of
play_result_ends [] acknowledged s res rest c t f = refl
play_result_ends [] (dropped err) s res rest c t f = ground (arith, c, f)
play_result_ends (err ∷ errs) final s res rest c t f =
    retry_step err s res rest (play_result errs final) c t.0
    ∙ (play_result_ends errs final s (stamp s.conn_id res) rest c t.1 f
        ∙ ap (λ r. record (at_queue s rest) { settled = s.settled ++ (r, final) ∷ [] })
            (stamp-stamp s.conn_id res))

at_queue-eta :
    (s : Sender) (queue : List TaskResult)
    → s.outbox.queue ≡ queue
    → s.phase ≡ draining
    → s ≡ at_queue s queue
at_queue-eta s queue q p = ground (arith, q, p)

-- An empty queue sends the loop to its outer select.
drained :
    (s : Sender)
    → s.outbox.queue ≡ []
    → s.phase ≡ draining
    → let t = run s (begins ∷ []) in
      (t.phase ≡ waiting) × (t.outbox.queue ≡ []) × (t.settled ≡ s.settled ++ [])
unfolding run step begin_submit peek
drained s q p = ground (arith, q, p, append-nil s.settled)

-- Let the loop look at the queue, not cancelled, with for each result of the queue the errors that
-- it meets, none permanent, and then an acknowledgement or a permanent error. Then the loop comes
-- back to its outer select with the queue empty, and has settled the results in the queue's order,
-- each stamped with the connection id and with its own outcome.
pub drains :
    (s : Sender) (queue : List TaskResult) (scripts : List Script)
    → s.outbox.queue ≡ queue
    → s.phase ≡ draining
    → s.cancelled ≡ false
    → Scripted queue scripts
    → let t = run s (play scripts) in
      (t.phase ≡ waiting)
      × (t.outbox.queue ≡ [])
      × (t.settled ≡ s.settled ++ fates s.conn_id queue scripts)
unfolding play
drains s [] [] q p c h = drained s q p
drains s (res ∷ queue) (x ∷ xs) q p c h =
    let first = play_result x.retries x.final in
    let t = after s res x.final queue in
    let same : run s (play (x ∷ xs)) ≡ run t (play xs) =
      run-append first (play xs) s
      ∙ ap (λ r. run r (play xs))
          (ap (λ r. run r first) (at_queue-eta s (res ∷ queue) q p)
            ∙ play_result_ends x.retries x.final s res queue c h.0 h.1.0) in
    let (idle, empty, order) = drains t queue xs refl refl c h.1.1 in
    rw same (
      idle,
      empty,
      order
          ∙ append_assoc s.settled ((stamp s.conn_id res, x.final) ∷ []) (fates s.conn_id queue xs),
    )
drains s [] (x ∷ xs) q p c h = absurd h
drains s (res ∷ queue) [] q p c h = absurd h
