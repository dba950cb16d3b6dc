-- ===== src/Sender/Released.antt =====
-- includes/sender.h with src/senders/tcp_sender.cpp: the descriptors of an object, which initialize
-- opens and end_sender closes.
use real_time_data_transfer.Base.{ℕ, ◌≡◌, sym, ap, subst, ◌∙◌, inr, Bool, false, some}
use real_time_data_transfer.Sender.{Transport}
use real_time_data_transfer.Sender.Sockets.{Host, TcpSender}
use real_time_data_transfer.Sender.Setup.{initialize}
use real_time_data_transfer.Sender.Descriptors.{IsHost, Tracked, Closed}
use real_time_data_transfer.Sender.Start.{
  IsStart, refused, ready, initialize-IsStart, close_sockets-Closed,
}
use real_time_data_transfer.Sender.Objects.{Object, members, merged, Starts}
use real_time_data_transfer.Sender.Objects

module _ (h : Host) (tr : Transport) (Open : h.World → ℕ → Type 0) where
  -- Every descriptor that is open is one of the object's.
  abbrev pub HasOpen : Object → h.World → Type 0
  HasOpen o x = Tracked h Open (members o) x

  IsStart-Tracked :
      {fuel : ℕ} {b : Bool} {t : TcpSender} {x : h.World}
      → IsStart h Open fuel (some (b, t, x))
      → Tracked h Open t x
  IsStart-Tracked (refused v i e) = v
  IsStart-Tracked (ready fd n c d i only) = λ f o. inr (c ∙ ap some (sym (only f o)))

  module _ (k : IsHost h Open) where
    initialize-Tracked :
        (fuel : ℕ) (t : TcpSender) {b : Bool} {t' : TcpSender} {x x' : h.World}
        → Tracked h Open t x
        → initialize h fuel t x ≡ some (b, t', x')
        → Tracked h Open t' x'
    initialize-Tracked fuel t {x = x} v e =
        IsStart-Tracked (subst (IsStart h Open fuel) e (initialize-IsStart h Open k fuel t x v))

    Starts-tracks :
        {t : TcpSender} {o : Object} {x x' : h.World} {b : Bool}
        → Tracked h Open t x
        → Starts h tr t x b o x'
        → HasOpen o x'
    Starts-tracks {t} v (Objects.fails fuel x' e) = initialize-Tracked fuel t v e
    Starts-tracks {t} v (Objects.succeeds fuel fd lists x' e c s) = initialize-Tracked fuel t v e

    pub Initializes-tracks :
        {o o' : Object} {x x' : h.World} {b : Bool}
        → HasOpen o x
        → Objects.Initializes h tr o x b o' x'
        → HasOpen o' x'
    Initializes-tracks v (Objects.first s) = Starts-tracks v s
    Initializes-tracks v (Objects.again c s) = Starts-tracks v s

    pub Ends-cleans :
        {o o' : Object} {x x' : h.World} {b : Bool}
        → HasOpen o x
        → Objects.Ends h tr o x b o' x'
        → Closed h Open x' × HasOpen o' x'
    Ends-cleans v (Objects.already t x) =
        let c = close_sockets-Closed h Open k (record t { initialized = false }) x v in
        (c, λ f o. absurd (c f o))
    Ends-cleans v (Objects.stops {t} {s' = s'} x e) =
        let c = close_sockets-Closed h Open k (record (merged t s') { initialized = false }) x v in
        (c, λ f o. absurd (c f o))
