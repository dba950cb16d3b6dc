-- ===== src/Sender/Reported.antt =====
-- src/senders/tcp_sender.cpp: a call of send that fails has set an error.
use real_time_data_transfer.Base.{true_not_false, ℕ, ◌≡◌, refl, ◌≢◌, true, false}
use real_time_data_transfer.Sender.{State, Transport, idle}
use real_time_data_transfer.Sender.Worker.{WorkerStep, starts}
use real_time_data_transfer.Sender.Caller.{
  CallerStep, initialized, send_uninitialized, refuses, send_declined, send_unlocks, closes,
  pulls_error,
}
use real_time_data_transfer.Sender.Calls.{
  Enters, Calling, SendCall, Calling-idle, uninitialised, enters, returns, works, goes, calls,
}

-- A call that has returned false has left an error.
abbrev Reported : State → Type 0
Reported s = s.caller ≡ idle → s.result ≡ false → s.error_handler.is_error_flag ≡ true

module _ (tr : Transport) where
  WorkerStep-Reported : {s t : State} → WorkerStep tr s t → Reported s → Reported t
  WorkerStep-Reported (starts s) v = v
  WorkerStep-Reported x v = v

  CallerStep-Reported : {s t : State} → CallerStep s t → s.caller ≢ idle → Reported t
  CallerStep-Reported (initialized s h) n = λ c e. absurd (true_not_false e)
  CallerStep-Reported (send_uninitialized s h) n = λ c e. refl
  CallerStep-Reported (refuses s) n = λ c e. refl
  CallerStep-Reported (send_declined s a h) n = λ c e. refl
  CallerStep-Reported (send_unlocks s) n = λ c e. absurd (true_not_false e)
  CallerStep-Reported (closes s) n = λ c e. absurd (true_not_false e)
  CallerStep-Reported (pulls_error s) n = absurd (n refl)
  CallerStep-Reported x n = λ c e. cc

  Calling-Reported : {s t : State} → Calling tr s t → Reported s → Reported t
  Calling-Reported (returns e) v = v
  Calling-Reported (works x c) v = Calling-Reported c (WorkerStep-Reported x v)
  Calling-Reported (goes n x c) v = Calling-Reported c (CallerStep-Reported x n)

  Enters-Reported : {list : ℕ} {s t : State} → Enters tr list s t → Reported t
  Enters-Reported (uninitialised s h) = λ c e. refl
  Enters-Reported (enters s h) = λ c e. cc

  pub SendCall-reports :
      {list : ℕ} {s t : State}
      → SendCall tr list s t
      → t.result ≡ false
      → t.error_handler.is_error_flag ≡ true
  SendCall-reports (calls w e c) f = Calling-Reported c (Enters-Reported e) (Calling-idle tr c) f
