-- ===== src/Tests/Machines.antt =====
-- src/systems/real_time_system.cpp with src/senders/tcp_sender.cpp: a world whose sender is a
-- TCPSender that sends a list when it is polled.
use real_time_data_transfer.Base.{
  if◌then◌else◌, Bool-cases, add64, ℕ, zero, suc, ◌-◌, ◌≡◌, refl, subst, ◌≢◌, inl, inr, Bool, true,
  false, none, some, List, [], ◌∷◌, ◌++◌, arith,
}
use real_time_data_transfer.Errors.{Error}
use real_time_data_transfer.Packets.{
  DataPtrType, DataPacket, Packets, memory_location, file_descriptor, unknown_type,
}
use real_time_data_transfer.Sender.{
  SenderWorkerData, WorkerPc, CallerPc, State, segment, worker_thread, checking, locking, looking,
  waiting, woken, taking, unlocking, next_packet, transmitting, transmitted, marking, idle,
}
use real_time_data_transfer.Sender.Worker.{
  WorkerStep, goes_on, locks, finds_list, waits, locks_again, takes, unlocks, picks, transmits,
  resumes, packet_sent, all_sent, marks,
}
use real_time_data_transfer.Sender.Ending.{rests, moves}
use real_time_data_transfer.Sender.Calls.{Works}
use real_time_data_transfer.Tests.Sending.{bytes, working}

-- Where the worker rests: it waits, has been woken up, or stands before packets that begin with one
-- that it rejects.
pub data Phase : Type 0 where
  resting handed_over : Phase
  stuck : Packets → Phase

pub record Memory : Type 0 where
  pub lists_of : ℕ → Packets
  pub error : Error
  pub last_result : Bool
  pub bytes_sent : List ℕ
  pub given : List Packets
  pub copied : List Packets

abbrev pub state : SenderWorkerData → WorkerPc → CallerPc → Memory → State
state shared pc caller q = record {
  shared = shared;
  worker = pc;
  caller = caller;
  initialized = true;
  error_handler = q.error;
  result = q.last_result;
  lists = q.lists_of;
  wire = q.bytes_sent;
  sending_counter = 0;
  last_sending_counter = 0;
  handed = q.given;
  taken = q.copied;
}

abbrev pub view : Phase × Memory → State
view (resting, q) = state (working none true false none) waiting idle q
view (handed_over, q) = state (working (some 0) false false none) woken idle q
view (stuck rest, q) = state (working none false false none) (next_packet rest) idle q

abbrev is_known : DataPtrType → Bool
is_known memory_location = true
is_known file_descriptor = true
is_known unknown_type = false

known : (d : DataPtrType) → is_known d ≡ true → d ≢ unknown_type
known memory_location e h = cc
known file_descriptor e h = cc
known unknown_type e h = cc

-- The packets from the first that is rejected on, and the bytes of those before it.
abbrev rejected_from : Packets → Packets
rejected_from [] = []
rejected_from (p ∷ rest) = if is_known p.data_ptr_type then rejected_from rest else p ∷ rest

abbrev with_packet : DataPacket → ℕ → ℕ → List ℕ → List ℕ
with_packet p i zero wire = wire
with_packet p i (suc n) wire = wire ++ segment bytes p i (suc n)

abbrev with_packets : Packets → List ℕ → List ℕ
with_packets [] wire = wire
with_packets (p ∷ rest) wire =
    if is_known p.data_ptr_type
    then with_packets rest (with_packet p p.data_offset p.data_size wire)
    else wire

works_then : {s t u : State} → Works bytes s t → Works bytes t u → Works bytes s u
works_then (n, rests) y = y
works_then (n, moves x xs) y = let (k, z) = works_then (_, xs) y in (suc k, moves x z)

abbrev sending_data : SenderWorkerData
sending_data = working none false false none

sends_packet :
    (p : DataPacket) (i n : ℕ) (rest : Packets) (q : Memory)
    → Works bytes (state sending_data (transmitting p i n rest) idle q) (
        state sending_data
          (next_packet rest)
          idle
          (record q { bytes_sent = with_packet p i n q.bytes_sent }))
sends_packet p i zero rest q =
    (1, moves (packet_sent (state sending_data (transmitting p i 0 rest) idle q) p i rest) rests)
sends_packet p i (suc n) rest q =
    let q' : Memory = record q { bytes_sent = q.bytes_sent ++ segment bytes p i (suc n) } in
    let s = state sending_data (transmitting p i (suc n) rest) idle q in
    let t = state sending_data (transmitted p i (suc n) (suc n) rest) idle q' in
    (
      3,
      moves (transmits s p i (suc n) (suc n) rest (λ h. absurd (omega arith)) (omega arith)) (
          moves (resumes t p i (suc n) (suc n) rest refl) (
            moves
              (subst
                (λ r.
                  WorkerStep bytes
                    (state sending_data (transmitting p (add64 i (suc n)) r rest) idle q')
                    (state sending_data (next_packet rest) idle q'))
                (sub_self n)
                (packet_sent (state sending_data (transmitting p (add64 i (suc n)) 0 rest) idle q')
                  p (add64 i (suc n)) rest))
              rests)),
    )
  where
    sub_self : (n : ℕ) → 0 ≡ suc n - suc n
    sub_self n = omega arith

sends_packets :
    (l : Packets) (q : Memory)
    → Works bytes (state sending_data (next_packet l) idle q) (
        state sending_data
          (next_packet (rejected_from l))
          idle
          (record q { bytes_sent = with_packets l q.bytes_sent }))
sends_packets [] q = (0, rests)
sends_packets (p ∷ rest) q = elim (Bool-cases (is_known p.data_ptr_type)) [
  | inr e ↦ rw e (0, rests)
  | inl e ↦
      let s = state sending_data (next_packet (p ∷ rest)) idle q in
      rw e (
        works_then (1, moves (picks s p rest (known p.data_ptr_type e)) rests)
          (works_then (sends_packet p p.data_offset p.data_size rest q) (
            sends_packets rest
              (record q { bytes_sent = with_packet p p.data_offset p.data_size q.bytes_sent }))))
]

-- What the poll leaves when the packets `rest` could not be sent.
abbrev settled : Packets → Memory → Bool × (Phase × Memory)
settled [] q = (true, (resting, q))
settled (p ∷ rest) q = (false, (stuck (p ∷ rest), q))

settles :
    (rest : Packets) (q : Memory)
    → Works bytes (state sending_data (next_packet rest) idle q) (view (settled rest q).1)
      × ((view (settled rest q).1).shared.is_done ≡ (settled rest q).0)
settles [] q =
    let at_pc : WorkerPc → State = λ pc. state sending_data pc idle q in
    let done : WorkerPc → State = λ pc. state (working none true false none) pc idle q in
    (
      (
        5,
        moves (all_sent (at_pc (next_packet [])) refl) (
            moves (marks (at_pc marking)) (
              moves (goes_on (done checking) refl) (
                moves (locks (done locking) refl) (
                  moves
                    (waits (state (working none true false (some worker_thread)) looking idle q)
                      refl refl)
                    rests)))),
      ),
      refl,
    )
settles (p ∷ rest) q = ((0, rests), refl)

abbrev pub polled_to : Phase × Memory → Bool × (Phase × Memory)
polled_to (resting, q) = (true, (resting, q))
polled_to (stuck rest, q) = (false, (stuck rest, q))
polled_to (handed_over, q) = settled (rejected_from (q.lists_of 0)) (record q {
  bytes_sent = with_packets (q.lists_of 0) q.bytes_sent;
  copied = q.copied ++ q.lists_of 0 ∷ [];
})

pub polls_to :
    (x : Phase × Memory)
    → Works bytes (view x) (view (polled_to x).1)
      × ((view (polled_to x).1).shared.is_done ≡ (polled_to x).0)
polls_to (resting, q) = ((0, rests), refl)
polls_to (stuck rest, q) = ((0, rests), refl)
polls_to (handed_over, q) =
    let l = q.lists_of 0 in
    let q' : Memory = record q { copied = q.copied ++ l ∷ [] } in
    let q'' : Memory = record q' { bytes_sent = with_packets l q.bytes_sent } in
    let locked = working (some 0) false false (some worker_thread) in
    let (z, d) = settles (rejected_from l) q'' in
    (
      works_then
          (
            4,
            moves (locks_again (view (handed_over, q)) refl) (
                moves (finds_list (state locked looking idle q) 0 refl) (
                  moves (takes (state locked taking idle q) 0 refl) (
                    moves
                      (unlocks
                        (state (working none false false (some worker_thread)) (unlocking l) idle
                          q')
                        l)
                      rests))),
          )
          (works_then (sends_packets l q') z),
      d,
    )
