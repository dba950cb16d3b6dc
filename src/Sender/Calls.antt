-- ===== src/Sender/Calls.antt =====
-- src/senders/tcp_sender.cpp: a whole call of send, with what the worker does before and during it.
use real_time_data_transfer.Base.{
  if◌then◌else◌, ℕ, ◌≡◌, refl, ap, ◌∙◌, ◌≢◌, Bool, true, false, List, [], ◌∷◌, ◌++◌,
}
use real_time_data_transfer.Packets.{Packets}
use real_time_data_transfer.Sender.{
  CallerPc, State, Transport, idle, sending, checking_done, send_locking, filling, refusing, filled,
  send_signalling, send_unlocking,
}
use real_time_data_transfer.Sender.Worker.{WorkerStep, starts}
use real_time_data_transfer.Sender.Caller.{
  refused, CallerStep, initialized, send_uninitialized, calls_send, finds_no_thread, refuses,
  finds_thread, send_declined, send_accepted, send_locks, fills, send_lowers, send_signals,
  send_unlocks, calls_end, pulls_error,
}
use real_time_data_transfer.Sender.Steps.{Reachable, worker_moves, caller_moves, then_step}
use real_time_data_transfer.Sender.Ending.{Alone, rests, moves}

-- Where a call of send with the list at `a` can stand, from its first step to its return.
abbrev Stage : ℕ → CallerPc → Type 0
Stage a (sending b) = b ≡ a
Stage a (checking_done b) = b ≡ a
Stage a (send_locking b) = b ≡ a
Stage a (filling b) = b ≡ a
Stage a refusing = Unit
Stage a filled = Unit
Stage a send_signalling = Unit
Stage a send_unlocking = Unit
Stage a idle = Unit
Stage a _ = ⊥

-- The lists handed over, `before` the call and the list `l` of the call.
abbrev handed_at : List Packets → Packets → CallerPc → Bool → List Packets
handed_at before l filled result = before ++ l ∷ []
handed_at before l send_signalling result = before ++ l ∷ []
handed_at before l send_unlocking result = before ++ l ∷ []
handed_at before l idle true = before ++ l ∷ []
handed_at before l _ result = before

handed_at-idle :
    (before : List Packets) (l : Packets) (result : Bool)
    → handed_at before l idle result ≡ (if result then before ++ l ∷ [] else before)
handed_at-idle before l true = refl
handed_at-idle before l false = refl

module _ (tr : Transport) where
  -- The worker alone takes some steps.
  abbrev pub Works : State → State → Type 0
  Works s t = (n : ℕ) × Alone tr n s t

  -- The first step of a call of send.
  pub data Enters (list : ℕ) : State → State → Type 0 where
    uninitialised :
        (s : State)
        → s.initialized ≡ false
        → Enters list
            (record s { caller = idle })
            (refused "You must initialize the sender object first" s)
    enters :
        (s : State)
        → s.initialized ≡ true
        → Enters list (record s { caller = idle }) (record s { caller = sending list })

  -- The steps of a call and of the worker, up to the return.
  pub data Calling : State → State → Type 0 where
    returns : {s : State} → s.caller ≡ idle → Calling s s
    works : {s t u : State} → WorkerStep tr s t → Calling t u → Calling s u
    goes : {s t u : State} → s.caller ≢ idle → CallerStep s t → Calling t u → Calling s u

  -- A call of send that starts after some steps of the worker.
  pub data SendCall (list : ℕ) : State → State → Type 0 where
    calls : {s m u t : State} → Works s m → Enters list m u → Calling u t → SendCall list s t

  record InCall (list : ℕ) (before : List Packets) (l : Packets) (s : State) : Type 0 where
    stage : Stage list s.caller
    held : s.handed ≡ handed_at before l s.caller s.result
    memory : s.lists list ≡ l

  module _ (list : ℕ) (before : List Packets) (l : Packets) where
    WorkerStep-InCall :
        {s t : State} → WorkerStep tr s t → InCall list before l s → InCall list before l t
    WorkerStep-InCall (starts s) v = record { stage = v.stage; held = v.held; memory = v.memory }
    WorkerStep-InCall x v = record { stage = v.stage; held = v.held; memory = v.memory }

    CallerStep-InCall :
        {s t : State}
        → CallerStep s t
        → s.caller ≢ idle
        → InCall list before l s
        → InCall list before l t
    CallerStep-InCall (initialized s h) n v = absurd v.stage
    CallerStep-InCall (send_uninitialized s h) n v = absurd (n refl)
    CallerStep-InCall (calls_send s b h) n v = absurd (n refl)
    CallerStep-InCall (finds_no_thread s b h) n v = record {
      stage = tt;
      held = v.held;
      memory = v.memory;
    }
    CallerStep-InCall (refuses s) n v = record { stage = tt; held = v.held; memory = v.memory }
    CallerStep-InCall (finds_thread s b h) n v = record {
      stage = v.stage;
      held = v.held;
      memory = v.memory;
    }
    CallerStep-InCall (send_declined s b h) n v = record {
      stage = tt;
      held = v.held;
      memory = v.memory;
    }
    CallerStep-InCall (send_accepted s b h) n v = record {
      stage = v.stage;
      held = v.held;
      memory = v.memory;
    }
    CallerStep-InCall (send_locks s b h) n v = record {
      stage = v.stage;
      held = v.held;
      memory = v.memory;
    }
    CallerStep-InCall (fills s b) n v = record {
      stage = tt;
      held =
          ap (λ z. z ++ s.lists b ∷ []) v.held
          ∙ ap (λ z. before ++ z ∷ []) (ap s.lists v.stage ∙ v.memory);
      memory = v.memory;
    }
    CallerStep-InCall (send_lowers s) n v = record { stage = tt; held = v.held; memory = v.memory }
    CallerStep-InCall (send_signals s) n v = record { stage = tt; held = v.held; memory = v.memory }
    CallerStep-InCall (send_unlocks s) n v = record { stage = tt; held = v.held; memory = v.memory }
    CallerStep-InCall (calls_end s) n v = absurd (n refl)
    CallerStep-InCall (pulls_error s) n v = absurd (n refl)
    CallerStep-InCall x n v = absurd v.stage

    Calling-InCall : {s t : State} → Calling s t → InCall list before l s → InCall list before l t
    Calling-InCall (returns e) v = v
    Calling-InCall (works x c) v = Calling-InCall c (WorkerStep-InCall x v)
    Calling-InCall (goes n x c) v = Calling-InCall c (CallerStep-InCall x n v)

  pub Calling-idle : {s t : State} → Calling s t → t.caller ≡ idle
  Calling-idle (returns e) = e
  Calling-idle (works x c) = Calling-idle c
  Calling-idle (goes n x c) = Calling-idle c

  Enters-InCall :
      {list : ℕ} {l : Packets} {s t : State}
      → Enters list s t
      → s.lists list ≡ l
      → InCall list s.handed l t
  Enters-InCall (uninitialised s h) e = record { stage = tt; held = refl; memory = e }
  Enters-InCall (enters s h) e = record { stage = refl; held = refl; memory = e }

  pub WorkerStep-keeps :
      {s t : State}
      → WorkerStep tr s t
      → (t.caller ≡ s.caller) × (t.handed ≡ s.handed) × (t.lists ≡ s.lists)
  WorkerStep-keeps (starts s) = (refl, refl, refl)
  WorkerStep-keeps x = (refl, refl, refl)

  -- What the worker leaves alone.
  pub Alone-keeps :
      {n : ℕ} {s t : State}
      → Alone tr n s t
      → (t.caller ≡ s.caller) × (t.handed ≡ s.handed) × (t.lists ≡ s.lists)
  Alone-keeps rests = (refl, refl, refl)
  Alone-keeps (moves x xs) =
      let (c, h, m) = Alone-keeps xs in
      let (c', h', m') = WorkerStep-keeps x in (c ∙ c', h ∙ h', m ∙ m')

  -- A call of send hands the list over if it returns true, and none if it returns false.
  pub SendCall-handed :
      {list : ℕ} {l : Packets} {s t : State}
      → SendCall list s t
      → s.lists list ≡ l
      → (t.caller ≡ idle) × (t.handed ≡ (if t.result then s.handed ++ l ∷ [] else s.handed))
  SendCall-handed {list} {l} {s} {t} (calls {m = m} (n, w) e c) h =
      let (k, held, kept) = Alone-keeps w in
      let v = Calling-InCall list m.handed l c (Enters-InCall e (ap (λ f. f list) kept ∙ h)) in
      let i = Calling-idle c in
      (
        i,
        v.held
            ∙ ap (λ pc. handed_at m.handed l pc t.result) i
            ∙ handed_at-idle m.handed l t.result
            ∙ ap (λ z. if t.result then z ++ l ∷ [] else z) held,
      )

  module _ (Writable : State → Type 0) {lists : ℕ → Packets} where
    pub Alone-Reachable :
        {n : ℕ} {s t : State}
        → Alone tr n s t
        → Reachable tr Writable lists s
        → Reachable tr Writable lists t
    Alone-Reachable rests r = r
    Alone-Reachable (moves x xs) r = Alone-Reachable xs (then_step r (worker_moves x))

    pub Calling-Reachable :
        {s t : State} → Calling s t → Reachable tr Writable lists s → Reachable tr Writable lists t
    Calling-Reachable (returns e) r = r
    Calling-Reachable (works x c) r = Calling-Reachable c (then_step r (worker_moves x))
    Calling-Reachable (goes n x c) r = Calling-Reachable c (then_step r (caller_moves x))

    Enters-Reachable :
        {list : ℕ} {s t : State}
        → Enters list s t
        → Reachable tr Writable lists s
        → Reachable tr Writable lists t
    Enters-Reachable (uninitialised s h) r = then_step r (caller_moves (send_uninitialized s h))
    Enters-Reachable {list = list} (enters s h) r = then_step r (caller_moves (calls_send s list h))

    pub SendCall-Reachable :
        {list : ℕ} {s t : State}
        → SendCall list s t
        → Reachable tr Writable lists s
        → Reachable tr Writable lists t
    SendCall-Reachable (calls (n, w) e c) r =
        Calling-Reachable c (Enters-Reachable e (Alone-Reachable w r))
