-- ===== src/System/Run/Served.antt =====
-- src/systems/real_time_system.cpp: run with a sender that is known by what its calls do.
use real_time_data_transfer.Base.{
  ◌==◌, if_elim, true_not_false, false_not_true, not-false, add64, mul64, ℕ, zero, suc, ◌+◌, ◌≡◌,
  refl, sym, ap, subst, ◌∙◌, Bool, true, false, not, ◌&&◌, List, [], ◌∷◌, ◌++◌,
}
use real_time_data_transfer.Packets.{Packets}
use real_time_data_transfer.System.{RealTimeSystem, World}
use real_time_data_transfer.System.Info.{RealTimeInfo, real_time_info, is_system_stopped}
use real_time_data_transfer.System.Setup.{Returned}
use real_time_data_transfer.System.Run.{
  Counters, Round, Parts, use_tolerance, next_round, send_round, serve_round, round, Goes, again,
  return, stands, goes_round,
}
use real_time_data_transfer.System.Run.Log.{
  Call, logged, polled, napped, asked, assigned, sent, ticked, ended, other,
}

-- The packets that the user's function has returned, in the order of its calls.
abbrev pub packets_given : List Call → List Packets
packets_given [] = []
packets_given (assigned _ ∷ l) = packets_given l
packets_given (polled _ ∷ l) = packets_given l
packets_given (napped _ ∷ l) = packets_given l
packets_given (asked _ _ p ∷ l) = packets_given l ++ p ∷ []
packets_given (sent _ ∷ l) = packets_given l
packets_given (ticked _ ∷ l) = packets_given l
packets_given (ended ∷ l) = packets_given l
packets_given (other ∷ l) = packets_given l

-- What run needs of its sender. `Kept given` says that the sender has been handed `given`, `Free`
-- that it is done with it, and `Ready` that a list stands at the address of `user_packets_list`
-- while the sender is free. The other calls of run leave the sender alone.
pub record IsServed (w : World) (parts : Parts) (Kept : List Packets → w.State → Type 0)
    (Free : w.State → Type 0) (Ready : Packets → w.State → Type 0) : Type 0 where
  pub polls :
      {given : List Packets} (x : w.State)
      → Kept given x
      → Kept given (w.sender_is_send_done parts.sender x).1
        × ((w.sender_is_send_done parts.sender x).0 ≡ true
            → Free (w.sender_is_send_done parts.sender x).1)
        × (Free x → Free (w.sender_is_send_done parts.sender x).1)
  pub naps :
      {given : List Packets} (n : ℕ) (x : w.State)
      → Kept given x
      → Kept given (w.microseconds_sleep n x)
  pub ticks :
      {given : List Packets} (x : w.State)
      → Kept given x
      → Kept given (w.timer_sleep_to_next_tick parts.timer x).1
  pub asks :
      {given : List Packets} (i : RealTimeInfo) (x : w.State)
      → Kept given x
      → Free x
      → Kept given (w.user_function parts.user_app_func i x).2
        × Free (w.user_function parts.user_app_func i x).2
  pub assigns :
      {given : List Packets} (l : Packets) (x : w.State)
      → Kept given x
      → Free x
      → Kept given (w.assign_packets l x) × Ready l (w.assign_packets l x)
  pub sends :
      {given : List Packets} {l : Packets} (x : w.State)
      → Kept given x
      → Ready l x
      → (w.sender_send parts.sender x).0 ≡ true
      → Kept (given ++ l ∷ []) (w.sender_send parts.sender x).1

pub not_skipping : (d skip : Bool) → skip ≡ false → (not d && not skip) ≡ false → d ≡ true
not_skipping true skip e h = refl
not_skipping false skip e h = absurd (false_not_true (sym h ∙ ap not e))

pub never_skipping : (d skip : Bool) → skip ≡ false → (not d && skip) ≡ true → ⊥
never_skipping true skip e h = false_not_true h
never_skipping false skip e h = true_not_false (sym h ∙ e)

module _ (w : World) (parts : Parts) {Kept : List Packets → w.State → Type 0}
    {Free : w.State → Type 0} {Ready : Packets → w.State → Type 0}
    (k : IsServed w parts Kept Free Ready) (s : RealTimeSystem)
    (no_skip : s.allow_skip_mode ≡ false) where
  abbrev Logged : Type 0
  Logged = w.State × List Call

  -- The sender has been handed what the log says the user's function returned.
  abbrev IsLogged : Logged → Type 0
  IsLogged (x, l) = Kept (packets_given l) x

  -- A round that goes on keeps to this.
  data Delivers : Round (Counters × Logged) (Returned (logged w)) → Type 0 where
    goes_on : {c : Counters} {x : Logged} → IsLogged x → Delivers (again (c, x))
    ends : {r : Returned (logged w)} → Delivers (return r)

  use_tolerance-IsLogged :
      (left used : ℕ) (x : Logged)
      → IsLogged x
      → IsLogged (use_tolerance (logged w) parts left used x).1
  unfolding use_tolerance
  use_tolerance-IsLogged zero used x v = v
  use_tolerance-IsLogged (suc left) used (x, l) v =
      let (polled_v, told, same) = k.polls x v in
      let y = (w.sender_is_send_done parts.sender x).1 in
      if_elim (λ (r : ℕ × Logged). IsLogged r.1) (w.sender_is_send_done parts.sender x).0
        (λ _. polled_v)
        (λ _.
          use_tolerance-IsLogged left (used + 1)
            (
              w.microseconds_sleep 500 y,
              napped 500 ∷ polled (w.sender_is_send_done parts.sender x).0 ∷ l,
            )
            (k.naps 500 y polled_v))

  next_round-Delivers :
      (s' : RealTimeSystem) (c : Counters) (x : Logged)
      → IsLogged x
      → Delivers (next_round (logged w) parts s' c x)
  unfolding next_round
  next_round-Delivers s' c (x, l) v =
      if_elim Delivers (w.timer_sleep_to_next_tick parts.timer x).0 (λ _. goes_on (k.ticks x v))
        (λ _. ends)

  -- A round that sends, when the sender is free.
  send_round-Delivers :
      (c : Counters) (used : ℕ) (x : Logged)
      → Free x.0
      → IsLogged x
      → Delivers (send_round (logged w) parts s c used x)
  unfolding send_round
  send_round-Delivers c used (x, l) free v =
      let i = real_time_info c.sequence_number false used false in
      let q = w.user_function parts.user_app_func i x in
      let (asked_v, still_free) = k.asks i x v free in
      let (written, ready) = k.assigns q.1 q.2 asked_v still_free in
      let x1 = w.assign_packets q.1 q.2 in
      let r = w.sender_send parts.sender x1 in
      if_elim Delivers (is_system_stopped q.0) (λ _. ends)
        (λ _.
          if_elim Delivers (not r.0) (λ _. ends)
            (λ e.
              next_round-Delivers s (record c { skipped_count = 0 }) (r.1, _)
                (k.sends x1 written ready (not-false r.0 e))))

  serve_round-Delivers :
      (c : Counters) (x : Logged) → IsLogged x → Delivers (serve_round (logged w) parts s c x)
  unfolding serve_round
  serve_round-Delivers c x v =
      let r = use_tolerance (logged w) parts (mul64 s.ms_tolerance 2) 0 x in
      let r_v = use_tolerance-IsLogged (mul64 s.ms_tolerance 2) 0 x v in
      let x1 = r.1.0 in
      let (x2_v, told, _) = k.polls x1 r_v in
      let done1 = (w.sender_is_send_done parts.sender x1).0 in
      let x2 = (w.sender_is_send_done parts.sender x1).1 in
      let (x3_v, _, same) = k.polls x2 x2_v in
      let done2 = (w.sender_is_send_done parts.sender x2).0 in
      let x3 = (w.sender_is_send_done parts.sender x2).1 in
      if_elim Delivers (not done1 && not s.allow_skip_mode) (λ _. ends)
        (λ e.
          if_elim Delivers (not done2 && s.allow_skip_mode)
            (λ f. absurd (never_skipping done2 s.allow_skip_mode no_skip f))
            (λ _.
              send_round-Delivers c r.0 (x3, _)
                (same (told (not_skipping done1 s.allow_skip_mode no_skip e))) x3_v))

  round-Delivers :
      (c : Counters) (x : Logged) → IsLogged x → Delivers (round (logged w) parts s c x)
  unfolding round
  round-Delivers c x v =
      if_elim Delivers (c.skipped_count == mul64 s.frequency 3) (λ _. ends)
        (λ _. serve_round-Delivers (record c { sequence_number = add64 c.sequence_number 1 }) x v)

  Delivers-again : {c : Counters} {x : Logged} → Delivers (again (c, x)) → IsLogged x
  Delivers-again (goes_on v) = v

  -- After any number of rounds the sender has been handed what the user's function has returned.
  pub Goes-IsLogged :
      {n : ℕ} {p q : Counters × Logged}
      → Goes (logged w) parts s n p q
      → IsLogged p.1
      → IsLogged q.1
  Goes-IsLogged stands v = v
  Goes-IsLogged (goes_round {c = c} {x = x} e g) v =
      Goes-IsLogged g (Delivers-again (subst Delivers e (round-Delivers c x v)))
