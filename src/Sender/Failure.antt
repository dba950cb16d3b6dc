-- ===== src/Sender/Failure.antt =====
-- src/senders/tcp_sender.cpp and tcp_sender_zc.cpp: the error that ends the worker, up to the
-- application.
use real_time_data_transfer.Base.{ℕ, ◌≡◌, refl, sym, ap, subst, ◌∙◌, Bool, true, false}
use real_time_data_transfer.Errors.{set_error}
use real_time_data_transfer.Packets.{Packets}
use real_time_data_transfer.Sender.{
  ErrorCode, SenderWorkerData, WorkerPc, State, Transport, failing, coding, releasing, flagging,
  ended, refusing,
}
use real_time_data_transfer.Sender.Worker.{
  WorkerStep, flags_error, stores_code, releases, releases_nothing, flags_end,
}
use real_time_data_transfer.Sender.Caller.{
  code_message, thread_message, signalled, CallerStep, refuses, send_signals, end_signals,
}
use real_time_data_transfer.Sender.Steps.{
  Step, Reachable, worker_moves, caller_moves, writes, then_step,
}
use real_time_data_transfer.Sender.Life.{has_seen_end, Reachable-ended}

module _ (tr : Transport) (Writable : State → Type 0) where
  -- Any steps of the worker, the caller and the application.
  pub data Later (s : State) : State → Type 0 where
    now : Later s s
    then : {t u : State} → Later s t → Step tr Writable t u → Later s u

  -- How far the error `code` has come on its way into the shared data.
  data Carries (code : ErrorCode) (d : SenderWorkerData) : WorkerPc → Type 0 where
    met : (held : Bool) → Carries code d (failing held true code)
    flagged : (held : Bool) → d.is_error ≡ true → Carries code d (coding held code)
    stored :
        (held : Bool) → d.is_error ≡ true → d.error_code ≡ code → Carries code d (releasing held)
    released : d.is_error ≡ true → d.error_code ≡ code → Carries code d flagging
    settled : d.is_error ≡ true → d.error_code ≡ code → Carries code d ended

  WorkerStep-Carries :
      {code : ErrorCode} {s t : State}
      → WorkerStep tr s t
      → Carries code s.shared s.worker
      → Carries code t.shared t.worker
  WorkerStep-Carries (flags_error s held true code) (met _) = flagged held refl
  WorkerStep-Carries (stores_code s held code) (flagged _ e) = stored held e refl
  WorkerStep-Carries (releases s) (stored _ e c) = released e c
  WorkerStep-Carries (releases_nothing s) (stored _ e c) = released e c
  WorkerStep-Carries (flags_end s) (released e c) = settled e c
  WorkerStep-Carries x v = elim v [ ]

  Carries-same :
      {code : ErrorCode} (d d' : SenderWorkerData) {pc : WorkerPc}
      → d'.is_error ≡ d.is_error
      → d'.error_code ≡ d.error_code
      → Carries code d pc
      → Carries code d' pc
  Carries-same d d' e c (met held) = met held
  Carries-same d d' e c (flagged held f) = flagged held (e ∙ f)
  Carries-same d d' e c (stored held f k) = stored held (e ∙ f) (c ∙ k)
  Carries-same d d' e c (released f k) = released (e ∙ f) (c ∙ k)
  Carries-same d d' e c (settled f k) = settled (e ∙ f) (c ∙ k)

  signalled-Carries :
      {code : ErrorCode} {d : SenderWorkerData} {pc : WorkerPc}
      → Carries code d pc
      → Carries code d (signalled pc)
  signalled-Carries (met held) = met held
  signalled-Carries (flagged held f) = flagged held f
  signalled-Carries (stored held f k) = stored held f k
  signalled-Carries (released f k) = released f k
  signalled-Carries (settled f k) = settled f k

  CallerStep-Carries :
      {code : ErrorCode} {s t : State}
      → CallerStep s t
      → Carries code s.shared s.worker
      → Carries code t.shared t.worker
  CallerStep-Carries (send_signals s) v = signalled-Carries v
  CallerStep-Carries (end_signals s) v = signalled-Carries v
  CallerStep-Carries {s = s} {t} x v = Carries-same s.shared t.shared refl refl v

  Later-Carries :
      {code : ErrorCode} {s t : State}
      → Later s t
      → Carries code s.shared s.worker
      → Carries code t.shared t.worker
  Later-Carries now v = v
  Later-Carries (then l (worker_moves x)) v = WorkerStep-Carries x (Later-Carries l v)
  Later-Carries (then l (caller_moves x)) v = CallerStep-Carries x (Later-Carries l v)
  Later-Carries (then l (writes s a list w)) v = Later-Carries l v

  Later-Reachable :
      {lists : ℕ → Packets} {s t : State}
      → Later s t
      → Reachable tr Writable lists s
      → Reachable tr Writable lists t
  Later-Reachable now r = r
  Later-Reachable (then l x) r = then_step (Later-Reachable l r) x

  ended_with :
      {code : ErrorCode} {d : SenderWorkerData} {pc : WorkerPc}
      → Carries code d pc
      → pc ≡ ended
      → thread_message d.is_error d.error_code ≡ code_message code
  ended_with (met held) p = cc
  ended_with (flagged held f) p = cc
  ended_with (stored held f k) p = cc
  ended_with (released f k) p = cc
  ended_with {code} {d} (settled f k) p =
      ap (λ b. thread_message b d.error_code) f ∙ ap code_message k

  refusing_step :
      {t u : State}
      → CallerStep t u
      → t.caller ≡ refusing
      → (u.result ≡ false)
        × (u.error_handler
            ≡ set_error (thread_message t.shared.is_error t.shared.error_code) t.error_handler)
  refusing_step (refuses s) e = (refl, refl)
  refusing_step x e = cc

  -- The error that ends the worker reaches the application. Once the worker of a reachable state is
  -- about to report an error, then whatever the worker, the caller and the application do, a call
  -- of send that has found the worker gone goes on to return false with the message of that error.
  pub failure-reported :
      {lists : ℕ → Packets} {s t u : State} (held : Bool) (code : ErrorCode)
      → Reachable tr Writable lists s
      → s.worker ≡ failing held true code
      → Later s t
      → t.caller ≡ refusing
      → CallerStep t u
      → (u.result ≡ false) × (u.error_handler ≡ set_error (code_message code) t.error_handler)
  failure-reported {s = s} {t} held code r e l c x =
      let start = subst (Carries code s.shared) (sym e) (met held) in
      let (gone, unlocked) =
        Reachable-ended tr Writable (Later-Reachable l r) (ap has_seen_end c) in
      let (answer, message) = refusing_step x c in
      (
        answer,
        message
            ∙ ap (λ msg. set_error msg t.error_handler) (ended_with (Later-Carries l start) gone),
      )
