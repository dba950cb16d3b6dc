-- ===== src/Sender/Bytes.antt =====
-- src/senders/tcp_sender.cpp: the bytes of packets and lists.
use real_time_data_transfer.Base.{
  add64, ℕ, zero, suc, ◌+◌, ◌%◌, ◌^◌, ◌≡◌, refl, sym, ap, ◌∙◌, List, [], ◌∷◌, ◌++◌, append-nil,
  append_assoc, arith,
}
use real_time_data_transfer.Packets.{DataPacket, Packets}
use real_time_data_transfer.Sender.{Transport, segment, payload, payloads}

module _ (tr : Transport) where
  zero_add : (n : ℕ) → 0 + n ≡ n
  zero_add n = omega arith

  segment-mod :
      (p : DataPacket) (i j n : ℕ) → i % 2 ^ 64 ≡ j % 2 ^ 64 → segment tr p i n ≡ segment tr p j n
  unfolding segment
  segment-mod p i j zero h = refl
  segment-mod p i j (suc n) h = rw (h, segment-mod p (i + 1) (j + 1) n (omega arith)) refl

  pub segment-split :
      (p : DataPacket) (i n m k : ℕ)
      → n + m ≡ k
      → segment tr p i k ≡ segment tr p i n ++ segment tr p (add64 i n) m
  unfolding segment
  segment-split p i zero m k h =
      ap (segment tr p i) (sym h ∙ zero_add m) ∙ segment-mod p i (add64 i 0) m (omega arith)
  segment-split p i (suc n) m zero h = absurd (omega arith)
  segment-split p i (suc n) m (suc k) h =
      ap (λ z. tr.byte_at p (i % 2 ^ 64) ∷ z)
        (segment-split p (i + 1) n m k (omega arith)
          ∙ ap (λ z. segment tr p (i + 1) n ++ z)
              (segment-mod p (add64 (i + 1) n) (add64 i (suc n)) m (omega arith)))

  pub payloads-append :
      (ks ls : List Packets) → payloads tr (ks ++ ls) ≡ payloads tr ks ++ payloads tr ls
  unfolding payloads
  payloads-append [] ls = refl
  payloads-append (k ∷ ks) ls =
      ap (λ z. payload tr k ++ z) (payloads-append ks ls)
      ∙ sym (append_assoc (payload tr k) (payloads tr ks) (payloads tr ls))

  pub payloads-singleton : (l : Packets) → payloads tr (l ∷ []) ≡ payload tr l
  unfolding payloads
  payloads-singleton l = append-nil (payload tr l)
