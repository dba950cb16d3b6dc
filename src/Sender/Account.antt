-- ===== src/Sender/Account.antt =====
-- src/senders/tcp_sender.cpp: the lists handed to send and the lists that the worker has copied.
use real_time_data_transfer.Base.{
  Bool-cases, Option-cases, true_not_false, some_not_none, ℕ, ◌≡◌, refl, sym, ap, subst, ◌∙◌, inl,
  inr, false, none, List, [], ◌∷◌, ◌++◌, append-nil,
}
use real_time_data_transfer.Packets.{Packets}
use real_time_data_transfer.Sender.{State, Transport, idle, filling, clearing, cleared}
use real_time_data_transfer.Sender.Worker.{
  WorkerStep, takes, unlocks, picks, transmits, resumes, packet_sent, all_sent, confirms, confirmed,
  polls, acknowledges, marks,
}
use real_time_data_transfer.Sender.Caller.{
  CallerStep, send_accepted, send_locks, fills, send_lowers, send_signals, clears, end_lowers,
  end_signals,
}
use real_time_data_transfer.Sender.Steps.{
  assigned, Reachable, worker_moves, caller_moves, writes, begins, then_step,
}
use real_time_data_transfer.Sender.Queue.{
  is_busy, may_fill, pending, Ordered, signalled-busy, Reachable-Ordered,
}

-- The application leaves the lists alone while packets_list is set.
abbrev pub Untaken : State → Type 0
Untaken s = s.shared.packets_list ≡ none

-- Every list handed over has been copied, in order, but for the one at packets_list; or end_sender
-- has dropped the lists `more`, and is_done stays false.
pub data Account (s : State) : Type 0 where
  kept : s.handed ≡ s.taken ++ pending s.lists s.shared.packets_list → Account s
  dropped :
      s.shared.is_done ≡ false
      → s.shared.packets_list ≡ none
      → is_busy s.worker ≡ false
      → may_fill s.caller ≡ false
      → (more : List Packets) → s.handed ≡ s.taken ++ more
      → Account s

module _ (tr : Transport) where
  WorkerStep-Account : {s t : State} → WorkerStep tr s t → Account s → Account t
  WorkerStep-Account (takes s a h) (kept e) = kept (
      subst (λ l. s.handed ≡ s.taken ++ pending s.lists l) h e
      ∙ sym (append-nil (s.taken ++ s.lists a ∷ [])))
  WorkerStep-Account (takes s a h) (dropped d l b m more e) = absurd (some_not_none (sym h ∙ l))
  WorkerStep-Account (marks s) (dropped d l b m more e) = absurd (true_not_false b)
  WorkerStep-Account (unlocks s _) (dropped d l b m more e) = absurd (true_not_false b)
  WorkerStep-Account (picks s p rest h) (dropped d l b m more e) = absurd (true_not_false b)
  WorkerStep-Account (transmits s p i r n rest h k) (dropped d l b m more e) =
      absurd (true_not_false b)
  WorkerStep-Account (resumes s p i r n rest h) (dropped d l b m more e) = absurd (true_not_false b)
  WorkerStep-Account (packet_sent s p i rest) (dropped d l b m more e) = absurd (true_not_false b)
  WorkerStep-Account (all_sent s h) (dropped d l b m more e) = absurd (true_not_false b)
  WorkerStep-Account (confirms s h) (dropped d l b m more e) = absurd (true_not_false b)
  WorkerStep-Account (confirmed s h) (dropped d l b m more e) = absurd (true_not_false b)
  WorkerStep-Account (polls s h) (dropped d l b m more e) = absurd (true_not_false b)
  WorkerStep-Account (acknowledges s n ret h) (dropped d l b m more e) = absurd (true_not_false b)
  WorkerStep-Account x (kept e) = kept e
  WorkerStep-Account x (dropped d l b m more e) = dropped d l refl m more e

-- What the assignment of NULL in end_sender leaves.
cleared-Account :
    (s : State)
    → Ordered (record s { caller = clearing })
    → s.handed ≡ s.taken ++ pending s.lists s.shared.packets_list
    → Account (record s { caller = cleared; shared = record s.shared { packets_list = none } })
cleared-Account s v e = elim (Option-cases s.shared.packets_list) [
  | inl n ↦ kept (subst (λ l. s.handed ≡ s.taken ++ pending s.lists l) n e)
  | inr (a, n) ↦ elim (Bool-cases s.shared.is_done) [
    | inl d ↦
        absurd
          (elim (v.listed d) [ inl m ↦ some_not_none (sym n ∙ m) | inr f ↦ true_not_false (sym f) ])
    | inr d ↦ elim (Bool-cases (is_busy s.worker)) [
      | inl b ↦ absurd (some_not_none (sym n ∙ v.alone b))
      | inr b ↦
          dropped d refl b refl (s.lists a ∷ [])
            (subst (λ l. s.handed ≡ s.taken ++ pending s.lists l) n e)
    ]
  ]
]

-- packets_list is NULL where send stores its list.
filling-none :
    (s : State) (a : ℕ) → Ordered (record s { caller = filling a }) → s.shared.packets_list ≡ none
filling-none s a v = elim (v.listed (v.ready refl)) [
  | inl n ↦ n
  | inr f ↦ absurd (true_not_false (sym f))
]

CallerStep-Account : {s t : State} → CallerStep s t → Ordered s → Account s → Account t
CallerStep-Account (fills s a) v (kept e) = kept (
    ap (λ l. l ++ s.lists a ∷ [])
      (subst (λ l. s.handed ≡ s.taken ++ pending s.lists l) (filling-none s a v) e
        ∙ append-nil s.taken))
CallerStep-Account (fills s a) v (dropped d l b m more e) = absurd (true_not_false m)
CallerStep-Account (send_locks s a h) v (dropped d l b m more e) = absurd (true_not_false m)
CallerStep-Account (send_lowers s) v (dropped d l b m more e) = absurd (true_not_false m)
CallerStep-Account (send_accepted s a h) v (dropped d l b m more e) =
    absurd (true_not_false (sym h ∙ d))
CallerStep-Account (clears s) v (kept e) = cleared-Account s v e
CallerStep-Account (clears s) v (dropped d l b m more e) = dropped d refl b refl more e
CallerStep-Account (end_lowers s) v (dropped d l b m more e) = dropped refl l b refl more e
CallerStep-Account (send_signals s) v (dropped d l b m more e) =
    dropped d l (signalled-busy s.worker ∙ b) refl more e
CallerStep-Account (end_signals s) v (dropped d l b m more e) =
    dropped d l (signalled-busy s.worker ∙ b) refl more e
CallerStep-Account x v (kept e) = kept e
CallerStep-Account x v (dropped d l b m more e) = dropped d l b refl more e

-- An assignment to a list while packets_list is NULL.
written :
    (s : State) (a : ℕ) (list : Packets)
    → s.shared.packets_list ≡ none
    → Account (record s { caller = idle })
    → Account (record s { caller = idle; lists = assigned a list s.lists })
written s a list n (kept e) = kept (
    subst (λ l. s.handed ≡ s.taken ++ pending (assigned a list s.lists) l) (sym n)
      (subst (λ l. s.handed ≡ s.taken ++ pending s.lists l) n e))
written s a list n (dropped d l b m more e) = dropped d l b m more e

module _ (tr : Transport) where
  pub Reachable-Account :
      {lists : ℕ → Packets} {s : State} → Reachable tr Untaken lists s → Account s
  Reachable-Account (begins fd e0) = kept refl
  Reachable-Account (then_step r (worker_moves x)) = WorkerStep-Account tr x (Reachable-Account r)
  Reachable-Account (then_step r (caller_moves x)) =
      CallerStep-Account x (Reachable-Ordered tr Untaken r) (Reachable-Account r)
  Reachable-Account (then_step r (writes s a list n)) = written s a list n (Reachable-Account r)
