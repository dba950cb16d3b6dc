-- ===== src/Sender/Objects.antt =====
-- includes/tcp_sender.h, includes/tcp_sender_zc.h and src/senders/tcp_sender.cpp: the objects of
-- the classes TCPSender and TCPSenderZC, with their methods as the class Sender declares them.
use real_time_data_transfer.Base.{if◌then◌else◌, ℕ, String, ◌≡◌, Bool, true, false, some}
use real_time_data_transfer.Errors.{pull_error}
use real_time_data_transfer.Packets.{DataPacket, Packets}
use real_time_data_transfer.Sender.{State, Transport, idle, ending, closing}
use real_time_data_transfer.Sender.Sockets.{Host, TcpSender, erring}
use real_time_data_transfer.Sender.Setup.{initialize, close_sockets}
use real_time_data_transfer.Sender.Worker.{WorkerStep}
use real_time_data_transfer.Sender.Caller.{CallerStep, thread_message}
use real_time_data_transfer.Sender.Steps.{created, assigned}
use real_time_data_transfer.Sender.Account.{Untaken}
use real_time_data_transfer.Sender.Calls.{Works, Calling, SendCall}
use real_time_data_transfer.Sender.Interface.{SenderClass}

-- An object that has no worker, or has been left so by initialize, with its worker in a state.
pub data Object : Type 0 where
  dormant : TcpSender → Object
  live : TcpSender → State → Object

-- The members of an object whose worker has ended.
abbrev pub merged : TcpSender → State → TcpSender
merged t s = record t {
  shared_data = s.shared;
  error_handler = s.error_handler;
  initialized = s.initialized;
}

-- The members of an object, with the descriptors of its sockets.
abbrev pub members : Object → TcpSender
members (dormant t) = t
members (live t s) = t

-- What send reports when is_terminated_thread.
abbrev pub unworked_message : TcpSender → String
unworked_message t =
    if t.initialized
    then thread_message t.shared_data.is_error t.shared_data.error_code
    else "You must initialize the sender object first"

abbrev pub is_send_done : Object → Bool
is_send_done (dormant t) = t.shared_data.is_done
is_send_done (live t s) = s.shared.is_done

abbrev pub is_error : Object → Bool
is_error (dormant t) = t.error_handler.is_error_flag
is_error (live t s) = s.error_handler.is_error_flag

abbrev pub get_error : Object → String × Object
get_error (dormant t) =
    let (msg, e) = pull_error t.error_handler in (msg, dormant (record t { error_handler = e }))
get_error (live t s) =
    let (msg, e) = pull_error s.error_handler in (msg, live t (record s { error_handler = e }))

module _ (h : Host) (tr : Transport) where
  -- The steps of end_sender and of the worker, up to the end of the worker, and what end_sender
  -- returns after that.
  pub data Ending : State → State → Bool → Type 0 where
    closes : {s t : State} → s.caller ≡ closing → CallerStep s t → Ending s s t.result
    works : {s t u : State} {b : Bool} → WorkerStep tr s t → Ending t u b → Ending s u b
    goes : {s t u : State} {b : Bool} → CallerStep s t → Ending t u b → Ending s u b

  -- A call of end_sender on an object with a worker, up to the closing of the sockets.
  pub data EndCall : State → State → Bool → Type 0 where
    calls :
        {s t : State} {b : Bool} (m : State)
        → Works tr s (record m { caller = idle })
        → Ending (record m { caller = ending; initialized = false }) t b
        → EndCall s t b

  -- initialize on an object whose worker, if it had one, has ended. The application's lists are
  -- those at the time.
  pub data Starts (t : TcpSender) (x : h.World) : Bool → Object → h.World → Type 0 where
    fails :
        {t' : TcpSender} (fuel : ℕ) (x' : h.World)
        → initialize h fuel t x ≡ some (false, t', x')
        → Starts t x false (dormant t') x'
    succeeds :
        {t' : TcpSender} {s : State} (fuel fd : ℕ) (lists : ℕ → Packets) (x' : h.World)
        → initialize h fuel t x ≡ some (true, t', x')
        → t'.client_sock_fd ≡ some fd
        → Calling tr (created fd t'.error_handler lists) s
        → Starts t x true (live t' s) x'

  pub data Initializes : Object → h.World → Bool → Object → h.World → Type 0 where
    first :
        {t : TcpSender} {x x' : h.World} {b : Bool} {o : Object}
        → Starts t x b o x'
        → Initializes (dormant t) x b o x'
    again :
        {t : TcpSender} {s s' : State} {x x' : h.World} {b c : Bool} {o : Object}
        → EndCall s s' c
        → Starts (merged t s') x b o x'
        → Initializes (live t s) x b o x'

  pub data Sends (a : ℕ) : Object → Bool → Object → Type 0 where
    refused : (t : TcpSender) → Sends a (dormant t) false (dormant (erring (unworked_message t) t))
    calls :
        {t : TcpSender} {s s' : State} {b : Bool}
        → SendCall tr a s s'
        → s'.result ≡ b
        → Sends a (live t s) b (live t s')

  -- What end_sender does when the worker has ended.
  abbrev pub closed : TcpSender → h.World → TcpSender × h.World
  closed t x = close_sockets h (record t { initialized = false }) x

  -- end_sender, which without a worker only closes the sockets.
  pub data Ends : Object → h.World → Bool → Object → h.World → Type 0 where
    already :
        (t : TcpSender) (x : h.World)
        → Ends (dormant t) x true (dormant (closed t x).0) (closed t x).1
    stops :
        {t : TcpSender} {s s' : State} {b : Bool} (x : h.World)
        → EndCall s s' b
        → Ends (live t s) x b (dormant (closed (merged t s') x).0) (closed (merged t s') x).1

  -- Between two calls the worker takes its steps, and the application may assign to a list, but
  -- not while packets_list is set.
  pub data Runs : Object → Object → Type 0 where
    sleeps : (t : TcpSender) → Runs (dormant t) (dormant t)
    works : {t : TcpSender} {s s' : State} → Works tr s s' → Runs (live t s) (live t s')
    writes :
        {t : TcpSender} (s : State) (a : ℕ) (list : Packets)
        → Untaken s
        → Runs (live t s) (live t (record s { lists = assigned a list s.lists }))

  -- The methods of both classes.
  abbrev pub tcp_class : SenderClass
  tcp_class = record {
    Object = Object;
    Machine = h.World;
    Initializes = Initializes;
    Sends = Sends;
    is_send_done = is_send_done;
    Ends = Ends;
    get_error = get_error;
    is_error = is_error;
    Runs = Runs;
  }

-- The two classes, with the bytes of their packets.
abbrev pub tcp_sender_class : Host → (DataPacket → ℕ → ℕ) → SenderClass
tcp_sender_class h byte_at = tcp_class h (record { zero_copy = false; byte_at = byte_at })

abbrev pub tcp_sender_zc_class : Host → (DataPacket → ℕ → ℕ) → SenderClass
tcp_sender_zc_class h byte_at = tcp_class h (record { zero_copy = true; byte_at = byte_at })
