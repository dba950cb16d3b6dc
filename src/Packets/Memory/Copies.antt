-- ===== src/Packets/Memory/Copies.antt =====
-- includes/data_packets.h: what an assignment of a DataPacketsList leaves in the memory.
use real_time_data_transfer.Base.{
  ◌==◌, Bool-cases, some_not_none, some_injective, length, take, ℕ, zero, suc, ◌≡◌, refl, sym, ap,
  ◌∙◌, ◌≢◌, inl, inr, true, Option, none, some, [], ◌∷◌, arith,
}
use real_time_data_transfer.Packets.{Packets}
use real_time_data_transfer.Packets.Memory.{
  Heap, store, Allocator, DataPacketsList, release, block, allocate, copy_construct, assign,
}

store-same : (a b : ℕ) (v : Option Packets) (h : Heap) → b ≡ a → store a v h b ≡ v
unfolding store
store-same a b v h e = let t : (b == a) ≡ true = ground arith in rw t refl

store-other : (a b : ℕ) (v : Option Packets) (h : Heap) → b ≢ a → store a v h b ≡ h b
unfolding store
store-other a b v h n = elim (Bool-cases (b == a)) [
  | inl t ↦ absurd (n (ground arith))
  | inr t ↦ rw t refl
]

take-length : (ps : Packets) (n : ℕ) → length ps ≡ n → take n ps ≡ ps
take-length [] zero e = refl
take-length [] (suc n) e = refl
take-length (p ∷ ps) zero e = absurd (omega arith)
take-length (p ∷ ps) (suc n) e = ap (λ z. p ∷ z) (take-length ps n (omega arith))

block-at :
    (p : Option ℕ) (a : ℕ) (ps : Packets) (h : Heap) → p ≡ some a → h a ≡ some ps → block p h ≡ ps
block-at none a ps h e k = cc
block-at (some b) a ps h e k =
    let t : h b ≡ some ps = ap h (some_injective e) ∙ k in rw (t, block) refl

release-other : (p : Option ℕ) (a : ℕ) (h : Heap) → p ≢ some a → release p h a ≡ h a
release-other none a h n = refl
release-other (some b) a h n = store-other b a none h (λ e. n (ap some (sym e)))

module _ (alloc : Allocator) where
  -- malloc gives out a block that is not allocated.
  abbrev pub IsFresh : ℕ → Heap → Type 0
  IsFresh n h = h (alloc.address n h) ≡ none

  -- An object that owns an allocated block with its packets.
  pub record Owns (l : DataPacketsList) (ps : Packets) (h : Heap) : Type 0 where
    pub at : ℕ
    pub is_at : l.packets ≡ some at
    pub has : h at ≡ some ps
    pub many : length ps ≡ l.num_packets

  copy_construct-Owns :
      (obj : DataPacketsList) (ps : Packets) (h : Heap)
      → IsFresh obj.num_packets h
      → Owns obj ps h
      → (Owns (copy_construct alloc obj h).0 ps (copy_construct alloc obj h).1)
        × (Owns obj ps (copy_construct alloc obj h).1)
        × ((copy_construct alloc obj h).0.packets ≢ obj.packets)
  unfolding copy_construct allocate
  copy_construct-Owns obj ps h fresh o =
      let n = obj.num_packets in
      let a = alloc.address n h in
      let apart : o.at ≢ a = λ e. some_not_none (sym o.has ∙ ap h e ∙ fresh) in
      let h1 = store a (some (alloc.leftover n h)) h in
      let there : h1 o.at ≡ some ps =
        store-other a o.at (some (alloc.leftover n h)) h apart ∙ o.has in
      let content : take n (block obj.packets h1) ≡ ps =
        ap (take n) (block-at obj.packets o.at ps h1 o.is_at there) ∙ take-length ps n o.many in
      (
        record {
          at = a;
          is_at = refl;
          has = store-same a a (some (take n (block obj.packets h1))) h1 refl ∙ ap some content;
          many = o.many;
        },
        record {
          at = o.at;
          is_at = o.is_at;
          has = store-other a o.at (some (take n (block obj.packets h1))) h1 apart ∙ there;
          many = o.many;
        },
        λ e. apart (sym (some_injective (e ∙ o.is_at))),
      )

  -- Assignment copies. When malloc gives out a block that is not allocated, after an assignment
  -- from another object, which owns its packets in another block, the object owns a copy of the
  -- packets, the other object still owns its own, and the two blocks differ.
  pub assign-Owns :
      (l obj : DataPacketsList) (ps : Packets) (h : Heap)
      → IsFresh obj.num_packets (release l.packets h)
      → Owns obj ps h
      → l.packets ≢ obj.packets
      → (Owns (assign alloc l obj h).0 ps (assign alloc l obj h).1)
        × (Owns obj ps (assign alloc l obj h).1)
        × ((assign alloc l obj h).0.packets ≢ obj.packets)
  unfolding assign
  assign-Owns l obj ps h fresh o n =
      copy_construct-Owns obj ps (release l.packets h) fresh (record {
        at = o.at;
        is_at = o.is_at;
        has = release-other l.packets o.at h (λ e. n (e ∙ sym o.is_at)) ∙ o.has;
        many = o.many;
      })

  -- An assignment of a list to itself loses the packets: when malloc gives the block that was freed
  -- out again, the object ends with what malloc left in it, whatever the packets were.
  pub assign_self :
      (l : DataPacketsList) (a : ℕ) (h : Heap)
      → l.packets ≡ some a
      → alloc.address l.num_packets (release l.packets h) ≡ a
      → block (assign alloc l l h).0.packets (assign alloc l l h).1
        ≡ take l.num_packets (alloc.leftover l.num_packets (release l.packets h))
  unfolding assign copy_construct allocate
  assign_self l a h e again =
      let n = l.num_packets in
      let h0 = release l.packets h in
      let c = alloc.address n h0 in
      let left = alloc.leftover n h0 in
      let h1 = store c (some left) h0 in
      let read : block l.packets h1 ≡ left =
        block-at l.packets c left h1 (e ∙ ap some (sym again))
          (store-same c c (some left) h0 refl) in
      let copy = take n (block l.packets h1) in
      block-at (some c) c copy (store c (some copy) h1) refl (store-same c c (some copy) h1 refl)
      ∙ ap (take n) read
