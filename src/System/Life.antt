-- ===== src/System/Life.antt =====
-- includes/real_time_system.h and src/systems/real_time_system.cpp: the life of a system, from its
-- constructor through any calls of its methods.
use real_time_data_transfer.Base.{
  Bool-cases, if_elim, true_not_false, some_injective, ℕ, ◌≡◌, refl, sym, ap, subst, ◌∙◌, ◌≢◌, inl,
  inr, Bool, true, false, Option, none, some,
}
use real_time_data_transfer.Errors.{Error}
use real_time_data_transfer.Packets.{Packets}
use real_time_data_transfer.System.{
  RealTimeSystem, World, real_time_system, set_timer, set_sender, set_user_data_fn, set_frequency,
  set_ms_tolerance, skip_mode, get_error,
}
use real_time_data_transfer.System.Setup.{Returned, initialize}
use real_time_data_transfer.System.Setup.Outcome.{IsReady, initialize-IsOutcome}
use real_time_data_transfer.System.BeforeRun.{
  send_before_run, wait_for_sender, halving_fuel, conclude,
}
use real_time_data_transfer.System.Run.{Parts, run}
use real_time_data_transfer.System.Run.Ends.{run-IsEnd, run-refused}

-- A setter, with its argument.
pub data Setter : Type 0 where
  sets_timer sets_sender sets_user_data_fn : Option ℕ → Setter
  sets_frequency sets_ms_tolerance : ℕ → Setter
  sets_skip_mode : Bool → Setter

abbrev pub apply : Setter → RealTimeSystem → RealTimeSystem
apply (sets_timer p) s = (set_timer p s).1
apply (sets_sender p) s = (set_sender p s).1
apply (sets_user_data_fn p) s = (set_user_data_fn p s).1
apply (sets_frequency f) s = (set_frequency f s).1
apply (sets_ms_tolerance n) s = set_ms_tolerance n s
apply (sets_skip_mode b) s = skip_mode b s

apply-initialized : (a : Setter) (s : RealTimeSystem) → (apply a s).initialized ≡ false
unfolding set_timer set_sender set_user_data_fn set_frequency set_ms_tolerance skip_mode
apply-initialized (sets_timer none) s = refl
apply-initialized (sets_timer (some p)) s = refl
apply-initialized (sets_sender none) s = refl
apply-initialized (sets_sender (some p)) s = refl
apply-initialized (sets_user_data_fn none) s = refl
apply-initialized (sets_user_data_fn (some p)) s = refl
apply-initialized (sets_frequency f) s = refl
apply-initialized (sets_ms_tolerance n) s = refl
apply-initialized (sets_skip_mode b) s = refl

-- The objects are those that the system points to.
abbrev pub Points : Parts → RealTimeSystem → Type 0
Points parts s =
    (s.timer ≡ some parts.timer)
    × (s.sender ≡ some parts.sender)
    × (s.user_app_func ≡ some parts.user_app_func)

given : (o : Option ℕ) → o ≢ none → (n : ℕ) × (o ≡ some n)
given none h = absurd (h refl)
given (some n) h = (n, refl)

module _ (w : World) where
  -- A call of a method that returns, or anything that happens in the world between two calls. run
  -- and send_before_run use the objects that an initialised system points to.
  pub data Use : RealTimeSystem × w.State → RealTimeSystem × w.State → Type 0 where
    sets : (a : Setter) (s : RealTimeSystem) (x : w.State) → Use (s, x) (apply a s, x)
    initializes :
        (s : RealTimeSystem) (x : w.State) → Use (s, x) ((initialize w s x).1, (initialize w s x).2)
    sends_before_run :
        (parts : Parts) (l : Packets) (limit : ℕ) (s s' : RealTimeSystem) (x x' : w.State)
        (b : Bool)
        → (s.initialized ≡ true → Points parts s)
        → send_before_run w parts.sender l limit s x ≡ some (b, s', x')
        → Use (s, x) (s', x')
    runs :
        (parts : Parts) (fuel : ℕ) (s s' : RealTimeSystem) (x x' : w.State) (b : Bool)
        → (s.initialized ≡ true → Points parts s)
        → run w parts fuel s x ≡ some (b, s', x')
        → Use (s, x) (s', x')
    reports : (s : RealTimeSystem) (x : w.State) → Use (s, x) ((get_error s).1, x)
    passes : (s : RealTimeSystem) (x x' : w.State) → Use (s, x) (s, x')

  pub data Life (x0 : w.State) : RealTimeSystem × w.State → Type 0 where
    constructed : Life x0 (real_time_system, x0)
    then_use : {p q : RealTimeSystem × w.State} → Life x0 p → Use p q → Life x0 q

  abbrev ReadyIf : RealTimeSystem → Type 0
  ReadyIf s = s.initialized ≡ true → IsReady s

  off-ReadyIf : (s : RealTimeSystem) → s.initialized ≡ false → ReadyIf s
  off-ReadyIf s e h = absurd (true_not_false (sym h ∙ e))

  error-ReadyIf :
      (s : RealTimeSystem) (e : Error) → ReadyIf s → ReadyIf (record s { error_handler = e })
  error-ReadyIf s e r h =
      let k = r h in
      record {
        has_timer = k.has_timer;
        has_sender = k.has_sender;
        has_function = k.has_function;
        has_frequency = k.has_frequency;
        initialized = k.initialized;
        tolerance = k.tolerance;
      }

  initialize-ReadyIf : (s : RealTimeSystem) (x : w.State) → ReadyIf s → ReadyIf (initialize w s x).1
  initialize-ReadyIf s x r =
      let o = initialize-IsOutcome w s x in
      elim (Bool-cases (initialize w s x).0) [
        | inl e ↦ λ h. (o.succeeded e).0
        | inr e ↦
            subst ReadyIf (sym (o.failed e).1)
              (error-ReadyIf s (initialize w s x).1.error_handler r)
      ]

  conclude-ReadyIf :
      (sender : ℕ) (s : RealTimeSystem) (x : w.State)
      → ReadyIf s
      → ReadyIf (conclude w sender s x).1
  unfolding conclude
  conclude-ReadyIf sender s x r =
      if_elim (λ (q : Returned w). ReadyIf q.1) (w.sender_is_send_done sender x).0 (λ _. r)
        (λ _. off-ReadyIf _ refl)

  waited-ReadyIf :
      (sender : ℕ) (s : RealTimeSystem) (o : Option w.State) {q : Returned w}
      → ReadyIf s
      → (elim o [ none ↦ none | some w2 ↦ some (conclude w sender s w2) ]) ≡ some q
      → ReadyIf q.1
  waited-ReadyIf sender s none r e = cc
  waited-ReadyIf sender s (some x) r e =
      subst (λ (q : Returned w). ReadyIf q.1) (some_injective e) (conclude-ReadyIf sender s x r)

  run-off :
      (parts : Parts) (fuel : ℕ) (s : RealTimeSystem) (x : w.State) {q : Returned w}
      → run w parts fuel s x ≡ some q
      → q.1.initialized ≡ false
  run-off parts fuel s x {q} e =
      let (idle, unstarted) = run-refused w parts fuel s x in
      elim (Bool-cases s.initialized) [
        | inr off ↦
            ap (λ (t : Returned w). t.1.initialized) (sym (some_injective (sym (idle off) ∙ e)))
            ∙ off
        | inl ready ↦ elim (Bool-cases (w.timer_start parts.timer x).0) [
          | inr f ↦
              ap (λ (t : Returned w). t.1.initialized)
                (sym (some_injective (sym (unstarted ready f) ∙ e)))
          | inl started ↦
              ap (λ (t : RealTimeSystem). t.initialized)
                (run-IsEnd w parts fuel s x ready started e).same
        ]
      ]

  Use-ReadyIf : {p q : RealTimeSystem × w.State} → Use p q → ReadyIf p.0 → ReadyIf q.0
  unfolding send_before_run
  Use-ReadyIf (sets a s x) r = off-ReadyIf (apply a s) (apply-initialized a s)
  Use-ReadyIf (initializes s x) r = initialize-ReadyIf s x r
  Use-ReadyIf (sends_before_run parts l limit s s' x x' b h e) r = elim (Bool-cases s.initialized) [
    | inl ready ↦
        waited-ReadyIf parts.sender s
          (wait_for_sender w halving_fuel parts.sender limit
            (w.sender_send parts.sender (w.assign_packets l x)).1)
          r (rw ready at e)
    | inr off ↦
        off-ReadyIf s'
          (ap (λ (t : Returned w). t.1.initialized) (sym (some_injective (rw off at e))))
  ]
  Use-ReadyIf (runs parts fuel s s' x x' b h e) r = off-ReadyIf s' (run-off parts fuel s x e)
  Use-ReadyIf (reports s x) r = error-ReadyIf s (get_error s).1.error_handler r
  Use-ReadyIf (passes s x x') r = r

  Life-ReadyIf : {x0 : w.State} {p : RealTimeSystem × w.State} → Life x0 p → ReadyIf p.0
  Life-ReadyIf constructed = off-ReadyIf real_time_system refl
  Life-ReadyIf (then_use l u) = Use-ReadyIf u (Life-ReadyIf l)

  -- At any time in the life of a system, after any calls of its methods in any order, whether they
  -- succeed or fail: a system that is marked initialised has a timer, a sender and a function, none
  -- of them NULL, so that run and send_before_run, which test nothing but that mark, never call a
  -- method of NULL; its frequency is not 0, and up to 100 ticks a second its tolerance leaves 5 ms
  -- of the period.
  pub Life-IsReady :
      {x0 x : w.State} {s : RealTimeSystem}
      → Life x0 (s, x)
      → s.initialized ≡ true
      → IsReady s × ((parts : Parts) × Points parts s)
  Life-IsReady {s = s} l h =
      let r = Life-ReadyIf l h in
      let (timer, e1) = given s.timer r.has_timer in
      let (sender, e2) = given s.sender r.has_sender in
      let (fn, e3) = given s.user_app_func r.has_function in
      (r, (record { timer = timer; sender = sender; user_app_func = fn }, (e1, e2, e3)))
