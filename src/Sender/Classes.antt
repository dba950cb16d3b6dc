-- ===== src/Sender/Classes.antt =====
-- includes/sender.h with src/senders/tcp_sender.cpp and tcp_sender_zc.cpp: both senders keep what
-- the abstract class promises.
use real_time_data_transfer.Base.{
  if◌then◌else◌, ℕ, ◌≡◌, refl, ap, ◌∙◌, Bool, true, false, List, [], ◌∷◌, ◌++◌,
}
use real_time_data_transfer.Packets.{DataPacket}
use real_time_data_transfer.Sender.{State, Transport, payloads, closing}
use real_time_data_transfer.Sender.Sockets.{Host}
use real_time_data_transfer.Sender.Worker.{WorkerStep, marks}
use real_time_data_transfer.Sender.Ending.{Alone, rests, moves}
use real_time_data_transfer.Sender.Caller.{CallerStep, closes}
use real_time_data_transfer.Sender.Steps.{writes_between, pulls_between}
use real_time_data_transfer.Sender.Account.{Untaken}
use real_time_data_transfer.Sender.Delivery.{done-delivered, wire-IsPrefix}
use real_time_data_transfer.Sender.Descriptors.{IsHost, Closed}
use real_time_data_transfer.Sender.Released.{HasOpen, Initializes-tracks, Ends-cleans}
use real_time_data_transfer.Sender.Lifetimes.{Idle, ended, lived, failed, pulled}
use real_time_data_transfer.Sender.Lifetimes
use real_time_data_transfer.Sender.Calls.{
  SendCall-handed, Alone-keeps, Alone-Reachable, SendCall-Reachable,
}
use real_time_data_transfer.Sender.Reported.{SendCall-reports}
use real_time_data_transfer.Sender.Interface.{IsSender}
use real_time_data_transfer.Sender.Objects.{
  Object, dormant, live, tcp_class, tcp_sender_class, tcp_sender_zc_class, EndCall, Ending, Starts,
  merged,
}
use real_time_data_transfer.Sender.Objects
use real_time_data_transfer.Sender.Used.{
  transfer, IsUsed, EndCall-Idle, Starts-used, Starts-refused, initializes_lem, unworked, working,
}

module _ (h : Host) (tr : Transport) where
  Sends-accepts :
      {a : ℕ} {o o' : Object}
      → IsUsed h tr o
      → Objects.Sends h tr a o true o'
      → IsUsed h tr o'
        × ((transfer o').accepted ≡ (transfer o).accepted ++ (transfer o).lists a ∷ [])
  Sends-accepts (unworked i) k = elim k [ ]
  Sends-accepts {a} (working {s = s} fuel x x' i e r c) (Objects.calls {s' = s'} k b) =
      let (c', held) = SendCall-handed tr k refl in
      (
        working fuel x x' i e (SendCall-Reachable tr Untaken k r) c',
        held ∙ ap (λ b. if b then s.handed ++ s.lists a ∷ [] else s.handed) b,
      )

  Sends-refuses :
      {a : ℕ} {o o' : Object}
      → IsUsed h tr o
      → Objects.Sends h tr a o false o'
      → IsUsed h tr o'
        × ((transfer o').accepted ≡ (transfer o).accepted)
        × (Objects.is_error o' ≡ true)
  Sends-refuses (unworked i) (Objects.refused t) =
      (unworked (Lifetimes.refused (Objects.unworked_message t) i), refl, refl)
  Sends-refuses {a} (working {s = s} fuel x x' i e r c) (Objects.calls {s' = s'} k b) =
      let (c', held) = SendCall-handed tr k refl in
      (
        working fuel x x' i e (SendCall-Reachable tr Untaken k r) c',
        held ∙ ap (λ b. if b then s.handed ++ s.lists a ∷ [] else s.handed) b,
        SendCall-reports tr k b,
      )

  is_done_lem :
      {o : Object}
      → IsUsed h tr o
      → Objects.is_send_done o ≡ true
      → (transfer o).sent ≡ payloads tr (transfer o).accepted
  unfolding payloads
  is_done_lem (unworked i) d = refl
  is_done_lem (working fuel x x' i e r c) d = done-delivered tr r c d

  partial_lem :
      {o : Object}
      → IsUsed h tr o
      → (missing : List ℕ) × ((transfer o).sent ++ missing ≡ payloads tr (transfer o).accepted)
  unfolding payloads
  partial_lem (unworked i) = ([], refl)
  partial_lem (working fuel x x' i e r c) = wire-IsPrefix tr r

  CallerStep-closes : {s t : State} → CallerStep s t → s.caller ≡ closing → t.result ≡ true
  CallerStep-closes (closes s) e = refl
  CallerStep-closes x e = cc

  Ending-result : {s t : State} {b : Bool} → Ending h tr s t b → b ≡ true
  Ending-result (Objects.closes c x) = CallerStep-closes x c
  Ending-result (Objects.works x xs) = Ending-result xs
  Ending-result (Objects.goes x xs) = Ending-result xs

  Ends-used :
      {o o' : Object} {x x' : h.World} {b : Bool}
      → IsUsed h tr o
      → Objects.Ends h tr o x b o' x'
      → IsUsed h tr o' × (b ≡ true)
  Ends-used (unworked i) (Objects.already t x) = (unworked (ended x i), refl)
  Ends-used v (Objects.stops x (Objects.calls m w xs)) =
      (unworked (ended x (EndCall-Idle h tr v (Objects.calls m w xs))), Ending-result xs)

  Ends-refuses :
      {a : ℕ} {o o' o'' : Object} {x x' : h.World} {b c : Bool}
      → Objects.Ends h tr o x b o' x'
      → Objects.Sends h tr a o' c o''
      → c ≡ false
  Ends-refuses (Objects.already t x) (Objects.refused t') = refl
  Ends-refuses (Objects.stops x c) (Objects.refused t') = refl

  get_error_lem :
      {o : Object}
      → IsUsed h tr o
      → IsUsed h tr (Objects.get_error o).1
        × (Objects.is_error (Objects.get_error o).1 ≡ false)
        × ((Objects.get_error (Objects.get_error o).1).0 ≡ "")
        × ((transfer (Objects.get_error o).1).accepted ≡ (transfer o).accepted)
  get_error_lem (unworked i) = (unworked (pulled i), refl, refl, refl)
  get_error_lem (working {s = s} fuel x x' i e r c) =
      (working fuel x x' i e (pulls_between tr Untaken s s.caller c r) c, refl, refl, refl)

  Runs-used :
      {o o' : Object}
      → IsUsed h tr o
      → Objects.Runs h tr o o'
      → IsUsed h tr o' × ((transfer o').accepted ≡ (transfer o).accepted)
  Runs-used (unworked i) (Objects.sleeps t) = (unworked i, refl)
  Runs-used (working fuel x x' i e r c) (Objects.works (n, w)) =
      let (k, held, kept) = Alone-keeps tr w in
      (working fuel x x' i e (Alone-Reachable tr Untaken w r) (k ∙ c), held)
  Runs-used (working fuel x x' i e r c) (Objects.writes s a list u) =
      (working fuel x x' i e (writes_between tr Untaken s a list s.caller c u r) c, refl)

  WorkerStep-done :
      {s t : State} → WorkerStep tr s t → s.shared.is_done ≡ true → t.shared.is_done ≡ true
  WorkerStep-done (marks s) d = refl
  WorkerStep-done x d = d

  Alone-done :
      {n : ℕ} {s t : State} → Alone tr n s t → s.shared.is_done ≡ true → t.shared.is_done ≡ true
  Alone-done rests d = d
  Alone-done (moves x xs) d = Alone-done xs (WorkerStep-done x d)

  Runs-done :
      {o o' : Object}
      → Objects.Runs h tr o o'
      → Objects.is_send_done o ≡ true
      → Objects.is_send_done o' ≡ true
  Runs-done (Objects.sleeps t) d = d
  Runs-done (Objects.works (n, w)) d = Alone-done w d
  Runs-done (Objects.writes s a list u) d = d

  tcp_class-IsSender :
      (Open : h.World → ℕ → Type 0)
      → IsHost h Open
      → IsSender
          (tcp_class h tr)
          (payloads tr)
          (IsUsed h tr)
          transfer
          (HasOpen h tr Open)
          (Closed h Open)
  tcp_class-IsSender Open k = record {
    initializes = λ v k. let (t, i, s) = initializes_lem h tr v k in Starts-used h tr i s;
    initialize_fails = λ v k. let (t, i, s) = initializes_lem h tr v k in Starts-refused h tr i s;
    tracks = λ v e. Initializes-tracks h tr Open k v e;
    accepts = λ v k. Sends-accepts v k;
    refuses = λ v k. Sends-refuses v k;
    done = λ v d. is_done_lem v d;
    partial = λ v. partial_lem v;
    ends = λ v k. Ends-used v k;
    cleans = λ v e. Ends-cleans h tr Open k v e;
    ended = λ v k k'. Ends-refuses k k';
    reports = λ v. get_error_lem v;
    runs = λ v k. Runs-used v k;
    stays_done = λ v k d. Runs-done k d;
  }

pub senders-IsSender :
    (h : Host) (Open : h.World → ℕ → Type 0) (byte_at : DataPacket → ℕ → ℕ)
    → IsHost h Open
    → let tcp : Transport = record { zero_copy = false; byte_at = byte_at } in
      let tcp_zc : Transport = record { zero_copy = true; byte_at = byte_at } in
      IsSender
        (tcp_sender_class h byte_at)
        (payloads tcp)
        (IsUsed h tcp)
        transfer
        (HasOpen h tcp Open)
        (Closed h Open)
      × IsSender
          (tcp_sender_zc_class h byte_at)
          (payloads tcp_zc)
          (IsUsed h tcp_zc)
          transfer
          (HasOpen h tcp_zc Open)
          (Closed h Open)
senders-IsSender h Open byte_at k = (
  tcp_class-IsSender h (record { zero_copy = false; byte_at = byte_at }) Open k,
  tcp_class-IsSender h (record { zero_copy = true; byte_at = byte_at }) Open k,
)
