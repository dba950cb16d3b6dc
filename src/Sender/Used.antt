-- ===== src/Sender/Used.antt =====
-- includes/sender.h with src/senders/tcp_sender.cpp and tcp_sender_zc.cpp: the objects that the
-- methods lead to, and what initialize makes of them.
use real_time_data_transfer.Base.{
  ℕ, ◌≡◌, refl, ap, subst, ◌∙◌, ◌⊎◌, inl, inr, Bool, true, false, some, List, [], ◌∷◌, ◌++◌,
}
use real_time_data_transfer.Packets.{Packets}
use real_time_data_transfer.Sender.{State, Transport, payloads, idle, initializing, closing}
use real_time_data_transfer.Sender.Sockets.{Host, TcpSender}
use real_time_data_transfer.Sender.Setup.{initialize}
use real_time_data_transfer.Sender.Caller.{CallerStep, initialized, calls_end}
use real_time_data_transfer.Sender.Steps.{Reachable, worker_moves, caller_moves, begins, then_step}
use real_time_data_transfer.Sender.Account.{Untaken}
use real_time_data_transfer.Sender.Delivery.{wire-IsPrefix}
use real_time_data_transfer.Sender.Descriptors.{IsHost}
use real_time_data_transfer.Sender.Start.{IsStart, refused, initialize-IsStart}
use real_time_data_transfer.Sender.Lifetimes.{Idle, lived, failed}
use real_time_data_transfer.Sender.Calls.{
  Works, Calling, SendCall, Calling-idle, SendCall-handed, WorkerStep-keeps, Alone-keeps,
  Alone-Reachable, Calling-Reachable, SendCall-Reachable,
}
use real_time_data_transfer.Sender.Calls
use real_time_data_transfer.Sender.Interface.{Transfer}
use real_time_data_transfer.Sender.Objects.{
  Object, dormant, live, tcp_class, tcp_sender_class, tcp_sender_zc_class, EndCall, Ending, Starts,
  merged,
}
use real_time_data_transfer.Sender.Objects

-- The abstract view of an object.
abbrev pub transfer : Object → Transfer
transfer (dormant t) = record { lists = λ a. []; accepted = []; sent = [] }
transfer (live t s) = record { lists = s.lists; accepted = s.handed; sent = s.wire }

append_nothing : (xs ys : List ℕ) → xs ++ ys ≡ [] → xs ≡ []
append_nothing [] ys e = refl
append_nothing (x ∷ xs) ys e = cc

-- A host seen without its descriptors.
pub blind-IsHost : (h : Host) → IsHost h (λ x f. ⊥)
blind-IsHost h = record {
  socket_opens = λ a x f o. absurd o;
  accept_opens = λ s x f o. absurd o;
  close_closes = λ g x f o. absurd o;
  getaddrinfo_keeps = λ p x f o. o;
  freeaddrinfo_keeps = λ x f o. o;
  reuse_keeps = λ s x f o. o;
  zero_copy_keeps = λ s x f o. o;
  bind_keeps = λ s a x f o. o;
  listen_keeps = λ s x f o. o;
  signal_keeps = λ x f o. o;
  shutdown_keeps = λ s x f o. o;
  attribute_keeps = λ n x f o. o;
  create_keeps = λ x f o. o;
  polls_keep = λ x f o. o;
  sleep_keeps = λ n x f o. o;
}

refused-error :
    {h : Host} {Open : h.World → ℕ → Type 0} {fuel : ℕ} {t : TcpSender} {x : h.World}
    → IsStart h Open fuel (some (false, t, x))
    → t.error_handler.is_error_flag ≡ true
refused-error (refused k i e) = e

initialize_error :
    (h : Host) (fuel : ℕ) (t : TcpSender) (x : h.World) {t' : TcpSender} {x' : h.World}
    → initialize h fuel t x ≡ some (false, t', x')
    → t'.error_handler.is_error_flag ≡ true
initialize_error h fuel t x e =
    let start = initialize-IsStart h (λ x f. ⊥) (blind-IsHost h) fuel t x (λ f o. absurd o) in
    refused-error {Open = λ x f. ⊥} (subst (IsStart h (λ x f. ⊥) fuel) e start)

module _ (h : Host) (tr : Transport) where
  -- The objects that the methods lead to.
  pub data IsUsed : Object → Type 0 where
    unworked : {t : TcpSender} → Idle h tr Untaken t → IsUsed (dormant t)
    working :
        {t t' : TcpSender} {lists : ℕ → Packets} {s : State} (fuel : ℕ) (x x' : h.World)
        → Idle h tr Untaken t
        → initialize h fuel t x ≡ some (true, t', x')
        → Reachable tr Untaken lists s
        → s.caller ≡ idle
        → IsUsed (live t' s)

  Ending-Reachable :
      {lists : ℕ → Packets} {s t : State} {b : Bool}
      → Ending h tr s t b
      → Reachable tr Untaken lists s
      → Reachable tr Untaken lists t × (t.caller ≡ closing)
  Ending-Reachable (Objects.closes c x) r = (r, c)
  Ending-Reachable (Objects.works x xs) r = Ending-Reachable xs (then_step r (worker_moves x))
  Ending-Reachable (Objects.goes x xs) r = Ending-Reachable xs (then_step r (caller_moves x))

  EndCall-Reachable :
      {lists : ℕ → Packets} {s t : State} {b : Bool}
      → EndCall h tr s t b
      → Reachable tr Untaken lists s
      → Reachable tr Untaken lists t × (t.caller ≡ closing)
  EndCall-Reachable (Objects.calls m (n, w) xs) r =
      Ending-Reachable xs (then_step (Alone-Reachable tr Untaken w r) (caller_moves (calls_end m)))

  pub EndCall-Idle :
      {t : TcpSender} {s s' : State} {b : Bool}
      → IsUsed (live t s)
      → EndCall h tr s s' b
      → Idle h tr Untaken (merged t s')
  EndCall-Idle (working fuel x x' i e r c) k =
      let (r', c') = EndCall-Reachable k r in lived fuel x x' i e r' c'

  -- Before initialize returns, nothing is handed over.
  CallerStep-begins :
      {s t : State}
      → CallerStep s t
      → s.caller ≡ initializing
      → (t.caller ≡ idle) × (t.handed ≡ s.handed)
  CallerStep-begins (initialized s h) e = (refl, refl)
  CallerStep-begins x e = cc

  Calling-begins :
      {s t : State}
      → Calling tr s t
      → (s.caller ≡ initializing) ⊎ (s.caller ≡ idle)
      → t.handed ≡ s.handed
  Calling-begins (Calls.returns e) p = refl
  Calling-begins (Calls.works x c) p =
      let (k, held, kept) = WorkerStep-keeps tr x in
      Calling-begins c (elim p [ inl e ↦ inl (k ∙ e) | inr e ↦ inr (k ∙ e) ]) ∙ held
  Calling-begins (Calls.goes n x c) (inr e) = absurd (n e)
  Calling-begins (Calls.goes n x c) (inl e) =
      let (i, held) = CallerStep-begins x e in Calling-begins c (inr i) ∙ held

  pub Starts-used :
      {t : TcpSender} {x x' : h.World} {o : Object}
      → Idle h tr Untaken t
      → Starts h tr t x true o x'
      → IsUsed o × ((transfer o).accepted ≡ []) × ((transfer o).sent ≡ [])
  unfolding payloads
  Starts-used {x = x} i (Objects.succeeds {s = s} fuel fd lists x' e c k) =
      let r = Calling-Reachable tr Untaken k (begins fd _) in
      let none_handed : s.handed ≡ [] = Calling-begins k (inl refl) in
      let (missing, w) = wire-IsPrefix tr r in
      (
        working fuel x x' i e r (Calling-idle tr k),
        none_handed,
        append_nothing s.wire missing (w ∙ ap (payloads tr) none_handed),
      )

  pub Starts-refused :
      {t : TcpSender} {x x' : h.World} {o : Object}
      → Idle h tr Untaken t
      → Starts h tr t x false o x'
      → IsUsed o × (Objects.is_error o ≡ true)
  Starts-refused {t} {x} i (Objects.fails fuel x' e) =
      (unworked (failed fuel x x' i e), initialize_error h fuel t x e)

  pub initializes_lem :
      {o o' : Object} {x x' : h.World} {b : Bool}
      → IsUsed o
      → Objects.Initializes h tr o x b o' x'
      → (t : TcpSender) × Idle h tr Untaken t × Starts h tr t x b o' x'
  initializes_lem (unworked {t} i) (Objects.first k) = (t, i, k)
  initializes_lem v (Objects.again {t} {s' = s'} c k) = (merged t s', EndCall-Idle v c, k)
