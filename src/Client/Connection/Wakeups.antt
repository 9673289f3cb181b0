-- ===== src/Client/Connection/Wakeups.antt =====
-- submitLoop of outbox.go never sleeps on a queue that nobody will wake it for.
use akira_mcp.Base.{◌<◌, ◌≡◌, ◌≢◌, ◌⊎◌, inl, inr, true, List, [], ◌∷◌, arith, refl}
use akira_mcp.Client.Connection.Outbox.{enqueue, wake, stop, peek, pop}
use akira_mcp.Client.Connection.Submit.{
  waiting, Sender, new_sender, Event, pushes, wakes, takes, begins, answers, elapses, registers,
  cancels, notices, gives_up, begin_push, end_push, take_token, begin_submit, end_submit, end_pause,
  notice, step, run,
}

-- At the outer select with results in the queue, the token is there or a push is about to put it.
abbrev pub Signalled : Sender → Type 0
Signalled s =
    (s.phase ≢ waiting) ⊎ ((s.outbox.queue ≡ []) ⊎ ((s.outbox.notify ≡ true) ⊎ (0 < s.wakers)))

step-Signalled : (s : Sender) (e : Event) → Signalled s → Signalled (step s e)
unfolding step
step-Signalled s (pushes res) h = unfold begin_push enqueue in ground (arith, h)
step-Signalled s wakes h = unfold end_push wake in ground (arith, h)
step-Signalled s takes h = unfold take_token in ground (arith, h)
step-Signalled s begins h = unfold begin_submit peek in ground (arith, h)
step-Signalled s (answers a) h = unfold end_submit pop stop in ground (arith, h)
step-Signalled s elapses h = unfold end_pause in ground (arith, h)
step-Signalled s (registers id) h = h
step-Signalled s cancels h = h
step-Signalled s notices h = unfold notice stop in ground (arith, h)
step-Signalled s gives_up h = unfold stop in h

run-Signalled : (s : Sender) (es : List Event) → Signalled s → Signalled (run s es)
unfolding run
run-Signalled s [] h = h
run-Signalled s (e ∷ es) h = run-Signalled (step s e) es (step-Signalled s e h)

-- Whatever the order of pushes, wakes, answers, acks and the end of ctx: where submitLoop is at its
-- outer select and the queue holds a result, notify holds its token or a push has yet to call wake.
pub no_lost_wakeup :
    (es : List Event)
    → (run new_sender es).phase ≡ waiting
    → let s = run new_sender es in
      (s.outbox.queue ≡ []) ⊎ ((s.outbox.notify ≡ true) ⊎ (0 < s.wakers))
no_lost_wakeup es idle = elim (run-Signalled new_sender es (inr (inl refl))) [
  | inl busy ↦ absurd (busy idle)
  | inr signalled ↦ signalled
]
