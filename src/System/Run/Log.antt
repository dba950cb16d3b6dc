-- ===== src/System/Run/Log.antt =====
-- src/systems/real_time_system.cpp: the calls that run makes, written down by any world.
use real_time_data_transfer.Base.{
  ℕ, zero, suc, ◌*◌, ◌%◌, ◌^◌, ◌≤◌, ◌≡◌, Bool, true, false, not, ◌&&◌, ◌||◌, List, [], ◌∷◌,
}
use real_time_data_transfer.Packets.{Packets}
use real_time_data_transfer.System.{RealTimeSystem, World}
use real_time_data_transfer.System.Info.{RealTimeInfo}
use real_time_data_transfer.System.Run.{Counters, again, return, Parts, round}

-- The calls with what they returned.
pub data Call : Type 0 where
  polled : (done : Bool) → Call
  napped : ℕ → Call
  asked : (info : RealTimeInfo) (stopped : Bool) (packets : Packets) → Call
  assigned : Packets → Call
  sent : (accepted : Bool) → Call
  ticked : (in_time : Bool) → Call
  ended : Call
  other : Call

-- The same world, that keeps its calls, the latest first.
abbrev pub logged : World → World
logged w = record {
  State = w.State × List Call;
  mlockall = λ (x, l). let (b, x') = w.mlockall x in (b, (x', other ∷ l));
  sched_setscheduler = λ (x, l). let (b, x') = w.sched_setscheduler x in (b, (x', other ∷ l));
  sched_setaffinity = λ (x, l). let (b, x') = w.sched_setaffinity x in (b, (x', other ∷ l));
  timer_initialize = λ t (x, l). let (b, x') = w.timer_initialize t x in (b, (x', other ∷ l));
  timer_set_frequency =
      λ t f (x, l). let (b, x') = w.timer_set_frequency t f x in (b, (x', other ∷ l));
  timer_start = λ t (x, l). let (b, x') = w.timer_start t x in (b, (x', other ∷ l));
  timer_sleep_to_next_tick =
      λ t (x, l). let (b, x') = w.timer_sleep_to_next_tick t x in (b, (x', ticked b ∷ l));
  timer_get_error = λ t (x, l). let (m, x') = w.timer_get_error t x in (m, (x', other ∷ l));
  sender_initialize = λ s (x, l). let (b, x') = w.sender_initialize s x in (b, (x', other ∷ l));
  sender_send = λ s (x, l). let (b, x') = w.sender_send s x in (b, (x', sent b ∷ l));
  sender_is_send_done =
      λ s (x, l). let (b, x') = w.sender_is_send_done s x in (b, (x', polled b ∷ l));
  sender_end = λ s (x, l). (w.sender_end s x, ended ∷ l);
  sender_get_error = λ s (x, l). let (m, x') = w.sender_get_error s x in (m, (x', other ∷ l));
  assign_packets = λ p (x, l). (w.assign_packets p x, assigned p ∷ l);
  user_function = λ f i (x, l).
      let (i', p, x') = w.user_function f i x in (i', p, (x', asked i i'.system_stopped p ∷ l));
  milliseconds_sleep = λ n (x, l). (w.milliseconds_sleep n x, other ∷ l);
  microseconds_sleep = λ n (x, l). (w.microseconds_sleep n x, napped n ∷ l);
}

-- The number of calls of the user's function.
abbrev pub asks : List Call → ℕ
asks [] = 0
asks (asked _ _ _ ∷ l) = suc (asks l)
asks (polled _ ∷ l) = asks l
asks (napped _ ∷ l) = asks l
asks (assigned _ ∷ l) = asks l
asks (sent _ ∷ l) = asks l
asks (ticked _ ∷ l) = asks l
asks (ended ∷ l) = asks l
asks (other ∷ l) = asks l

-- A round begins with the first call, or directly after sleep_to_next_tick has returned true.
abbrev pub MayBegin : List Call → Type 0
MayBegin [] = Unit
MayBegin (ticked in_time ∷ l) = in_time ≡ true
MayBegin _ = ⊥

-- is_send_done is called at the beginning of a round, and after itself and a nap.
abbrev pub MayPoll : List Call → Type 0
MayPoll (polled _ ∷ l) = Unit
MayPoll (napped _ ∷ l) = Unit
MayPoll l = MayBegin l

-- The nap of the tolerance loop is of 500 microseconds, directly after a poll that said not done.
abbrev pub MayNap : ℕ → List Call → Type 0
MayNap n (polled done ∷ l) = (n ≡ 500) × (done ≡ false)
MayNap n _ = ⊥

-- The packets that are stored are those that the user's function has just returned.
abbrev pub MayAssign : Packets → List Call → Type 0
MayAssign p (asked i stopped q ∷ l) = p ≡ q
MayAssign p _ = ⊥

-- send is called directly after the packets have been stored that the user's function has returned,
-- which was told that they are not skipped and has not stopped the system, and one of the two polls
-- before that said done.
abbrev pub MaySend : List Call → Type 0
MaySend (assigned p ∷ asked i stopped q ∷ polled d2 ∷ polled d1 ∷ l) =
    (i.skip_next_data ≡ false) × (stopped ≡ false) × ((d1 || d2) ≡ true)
MaySend _ = ⊥

-- sleep_to_next_tick is called directly after send has returned true; or in place of send, when the
-- user's function was told that the packets are skipped and has not stopped the system.
abbrev pub MayTick : List Call → Type 0
MayTick (sent accepted ∷ l) = accepted ≡ true
MayTick (assigned p ∷ asked i stopped q ∷ l) = (i.skip_next_data ≡ true) × (stopped ≡ false)
MayTick _ = ⊥

-- The error of the sender is asked for directly after send has returned false.
abbrev pub MayAskError : List Call → Type 0
MayAskError (sent accepted ∷ l) = accepted ≡ false
MayAskError _ = ⊥

module _ (s : RealTimeSystem) where
  -- The user's function is asked directly after two polls, with the number of the call, counted
  -- from 0, and a delay within the tolerance; that the packets will be skipped it is told when the
  -- second poll said not done in skip mode, and only then.
  abbrev pub MayAsk : RealTimeInfo → List Call → Type 0
  MayAsk i (polled d2 ∷ polled d1 ∷ l) =
      (i.sequence_number ≡ asks l % 2 ^ 64)
      × (i.delayed_ms ≤ s.ms_tolerance * 2)
      × (i.system_stopped ≡ false)
      × (i.skip_next_data ≡ (not d2 && s.allow_skip_mode))
  MayAsk i _ = ⊥

  -- The sender is ended at the beginning of a round, after a poll that said not done without skip
  -- mode, when the user's function has stopped the system, when send has returned false and its
  -- error has been asked for, and when sleep_to_next_tick has returned false.
  abbrev pub MayEnd : List Call → Type 0
  MayEnd [] = Unit
  MayEnd (ticked _ ∷ l) = Unit
  MayEnd (polled done ∷ l) = (done ≡ false) × (s.allow_skip_mode ≡ false)
  MayEnd (assigned p ∷ asked i stopped q ∷ l) = stopped ≡ true
  MayEnd (other ∷ l) = Unit
  MayEnd _ = ⊥

  -- Each call of a log was made as it may be; none is made after the sender was ended.
  abbrev pub IsOrderly : List Call → Type 0
  IsOrderly [] = Unit
  IsOrderly (polled _ ∷ l) = MayPoll l × IsOrderly l
  IsOrderly (napped n ∷ l) = MayNap n l × IsOrderly l
  IsOrderly (asked i _ _ ∷ l) = MayAsk i l × IsOrderly l
  IsOrderly (assigned p ∷ l) = MayAssign p l × IsOrderly l
  IsOrderly (sent _ ∷ l) = MaySend l × IsOrderly l
  IsOrderly (ticked _ ∷ l) = MayTick l × IsOrderly l
  IsOrderly (ended ∷ l) = MayEnd l × IsOrderly l
  IsOrderly (other ∷ l) = MayAskError l × IsOrderly l

module _ (w : World) (parts : Parts) where
  -- The log after `n` rounds, or after the return if run returns in fewer.
  unfoldable pub log_after : ℕ → RealTimeSystem → Counters → w.State × List Call → List Call
  log_after zero s c (x, l) = l
  log_after (suc n) s c (x, l) = elim (round (logged w) parts s c (x, l)) [
    | again (c', y) ↦ log_after n s c' y
    | return (b, s', y) ↦ y.1
  ]
