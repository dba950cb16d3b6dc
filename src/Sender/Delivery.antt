-- ===== src/Sender/Delivery.antt =====
-- src/senders/tcp_sender.cpp: what the socket has been given, against the lists handed to send.
use real_time_data_transfer.Base.{
  true_not_false, ℕ, ◌≡◌, sym, ap, subst, ◌∙◌, inl, inr, true, List, ◌++◌, append-nil, append_assoc,
}
use real_time_data_transfer.Packets.{Packets}
use real_time_data_transfer.Sender.{State, Transport, payloads, idle}
use real_time_data_transfer.Sender.Steps.{Reachable}
use real_time_data_transfer.Sender.Queue.{is_filled, pending, Reachable-Ordered}
use real_time_data_transfer.Sender.Account.{Untaken, Account, Reachable-Account, kept, dropped}
use real_time_data_transfer.Sender.Bytes.{payloads-append}
use real_time_data_transfer.Sender.Wire.{Reachable-Wired}

module _ (tr : Transport) where
  -- Each list is sent exactly once and in order. In every reachable state between two calls in
  -- which is_done is true, the socket has been given the bytes of all the lists handed to send, one
  -- after the other, and nothing else. The application must not assign to a list while
  -- packets_list is set.
  pub done-delivered :
      {lists : ℕ → Packets} {s : State}
      → Reachable tr Untaken lists s
      → s.caller ≡ idle
      → s.shared.is_done ≡ true
      → s.wire ≡ payloads tr s.handed
  done-delivered {s = s} r c d =
      let v = Reachable-Ordered tr Untaken r in
      let w = (Reachable-Wired tr Untaken r).settled d in
      elim (Reachable-Account tr r) [
        | kept e ↦ elim (v.listed d) [
          | inl n ↦
              w
              ∙ ap (payloads tr) (
                  sym
                    (subst (λ l. s.handed ≡ s.taken ++ pending s.lists l) n e ∙ append-nil s.taken))
          | inr f ↦ absurd (true_not_false (sym f ∙ ap is_filled c))
        ]
        | dropped d' l b m more e ↦ absurd (true_not_false (sym d ∙ d'))
      ]

  -- The lists handed over start with those that the worker has copied.
  Account-more : {s : State} → Account s → (more : List Packets) × (s.handed ≡ s.taken ++ more)
  Account-more {s = s} (kept e) = (pending s.lists s.shared.packets_list, e)
  Account-more (dropped d l b m more e) = (more, e)

  -- In every reachable state, errors and terminations included, what the socket has been given is a
  -- beginning of the bytes of all the lists handed to send, in their order: nothing is repeated,
  -- reordered or left out before what follows it. The application must not assign to a list while
  -- packets_list is set.
  pub wire-IsPrefix :
      {lists : ℕ → Packets} {s : State}
      → Reachable tr Untaken lists s
      → (missing : List ℕ) × (s.wire ++ missing ≡ payloads tr s.handed)
  wire-IsPrefix {s = s} r =
      let (missing, e) = (Reachable-Wired tr Untaken r).partial in
      let (more, h) = Account-more (Reachable-Account tr r) in
      (
        missing ++ payloads tr more,
        sym (append_assoc s.wire missing (payloads tr more))
            ∙ ap (λ z. z ++ payloads tr more) e
            ∙ sym (payloads-append tr s.taken more)
            ∙ ap (payloads tr) (sym h),
      )
