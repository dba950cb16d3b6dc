-- ===== src/Sender/Interface.antt =====
-- includes/sender.h: the abstract class Sender, and what its comments promise of the classes that
-- inherit from it.
use real_time_data_transfer.Base.{ℕ, String, ◌≡◌, Bool, true, false, List, [], ◌∷◌, ◌++◌}
use real_time_data_transfer.Packets.{Packets}

-- The virtual methods, on an object together with its worker and the lists of the application. A
-- method during which another thread runs has more than one outcome: it relates the object before
-- the call, the result and the object after it, and when it opens and closes the resources of the
-- operating system, `Machine`, this before and after it too. `Runs` is what goes on between two
-- calls.
pub record SenderClass : Type 1 where
  pub Object : Type 0
  pub Machine : Type 0
  pub Initializes : Object → Machine → Bool → Object → Machine → Type 0
  pub Sends : ℕ → Object → Bool → Object → Type 0
  pub is_send_done : Object → Bool
  pub Ends : Object → Machine → Bool → Object → Machine → Type 0
  pub get_error : Object → String × Object
  pub is_error : Object → Bool
  pub Runs : Object → Object → Type 0

-- The abstract view of an object: the application's lists by their addresses, those that send has
-- accepted since the last initialize, and the bytes that the client has been sent.
pub record Transfer : Type 0 where
  pub lists : ℕ → Packets
  pub accepted : List Packets
  pub sent : List ℕ

-- What a class keeps of the promises of includes/sender.h, for the objects that its methods lead
-- to, which are `Valid`. `payloads` are the bytes that lists ask for; `Tracked` says that the
-- object knows all its open resources, and `Clean` that none is open.
pub record IsSender (m : SenderClass) (payloads : List Packets → List ℕ) (Valid : m.Object → Type 0)
    (view : m.Object → Transfer) (Tracked : m.Object → m.Machine → Type 0)
    (Clean : m.Machine → Type 0) : Type 0 where
  -- initialize returns true on a sender that has accepted nothing yet, or reports an error.
  pub initializes :
      {o o' : m.Object} {x x' : m.Machine}
      → Valid o
      → m.Initializes o x true o' x'
      → Valid o' × ((view o').accepted ≡ []) × ((view o').sent ≡ [])
  pub initialize_fails :
      {o o' : m.Object} {x x' : m.Machine}
      → Valid o
      → m.Initializes o x false o' x'
      → Valid o' × (m.is_error o' ≡ true)
  -- What initialize has opened and not closed, the object knows.
  pub tracks :
      {o o' : m.Object} {x x' : m.Machine} {b : Bool}
      → Tracked o x
      → m.Initializes o x b o' x'
      → Tracked o' x'
  -- send accepts the list that it is given, or accepts none and reports an error.
  pub accepts :
      {a : ℕ} {o o' : m.Object}
      → Valid o
      → m.Sends a o true o'
      → Valid o' × ((view o').accepted ≡ (view o).accepted ++ (view o).lists a ∷ [])
  pub refuses :
      {a : ℕ} {o o' : m.Object}
      → Valid o
      → m.Sends a o false o'
      → Valid o' × ((view o').accepted ≡ (view o).accepted) × (m.is_error o' ≡ true)
  -- When is_send_done, all that was accepted has been sent, once and in order; and it has been in
  -- part at any time.
  pub done :
      {o : m.Object}
      → Valid o
      → m.is_send_done o ≡ true
      → (view o).sent ≡ payloads (view o).accepted
  pub partial :
      {o : m.Object}
      → Valid o
      → (missing : List ℕ) × ((view o).sent ++ missing ≡ payloads (view o).accepted)
  -- end_sender returns true and cleans all resources, and then send is refused.
  pub ends :
      {o o' : m.Object} {x x' : m.Machine} {b : Bool}
      → Valid o
      → m.Ends o x b o' x'
      → Valid o' × (b ≡ true)
  pub cleans :
      {o o' : m.Object} {x x' : m.Machine} {b : Bool}
      → Tracked o x
      → m.Ends o x b o' x'
      → Clean x' × Tracked o' x'
  pub ended :
      {a : ℕ} {o o' o'' : m.Object} {x x' : m.Machine} {b c : Bool}
      → Valid o
      → m.Ends o x b o' x'
      → m.Sends a o' c o''
      → c ≡ false
  -- get_error hands the error over and removes it, and nothing else.
  pub reports :
      {o : m.Object}
      → Valid o
      → Valid (m.get_error o).1
        × (m.is_error (m.get_error o).1 ≡ false)
        × ((m.get_error (m.get_error o).1).0 ≡ "")
        × ((view (m.get_error o).1).accepted ≡ (view o).accepted)
  -- Between two calls nothing is accepted, and what is done stays so.
  pub runs :
      {o o' : m.Object}
      → Valid o
      → m.Runs o o'
      → Valid o' × ((view o').accepted ≡ (view o).accepted)
  pub stays_done :
      {o o' : m.Object} → Valid o → m.Runs o o' → m.is_send_done o ≡ true → m.is_send_done o' ≡ true
