-- ===== src/Receiver/Connected.antt =====
-- others/receiver_example.c: the loop over the addresses.
use real_time_data_transfer.Base.{
  Option-cases, if_elim, some_not_none, some_injective, ℕ, ◌≡◌, refl, sym, ap, ◌∙◌, ◌≢◌, ◌⊎◌, inl,
  inr, true, Option, none, some, List, [], ◌∷◌, ◌++◌,
}
use real_time_data_transfer.Receiver.{Peer, connect_first}

module _ (h : Peer) (Open : h.World → ℕ → Type 0) where
  -- What the manual pages say of the descriptors: socket opens the one that it returns, close
  -- closes its own, and connect opens none.
  pub record IsPeer : Type 0 where
    pub socket_opens :
        (a : h.Address) (x : h.World) (f : ℕ)
        → Open (h.socket a x).1 f
        → Open x f ⊎ ((h.socket a x).0 ≡ some f)
    pub connect_keeps :
        (s : ℕ) (a : h.Address) (x : h.World) (f : ℕ) → Open (h.connect s a x).1 f → Open x f
    pub close_closes : (g : ℕ) (x : h.World) (f : ℕ) → Open (h.close g x) f → Open x f × (f ≢ g)

  -- The outcome on a list of addresses: no descriptor is left open but the one that is returned,
  -- which is connected to an address of the list.
  pub data IsConnected (l : List h.Address) (x : h.World) : Option ℕ × h.World → Type 0 where
    refused : {y : h.World} → ((f : ℕ) → Open y f → Open x f) → IsConnected l x (none, y)
    connected :
        (before after : List h.Address) (p : h.Address) (z : h.World) (fd : ℕ)
        → l ≡ before ++ p ∷ after
        → (h.socket p z).0 ≡ some fd
        → (h.connect fd p (h.socket p z).1).0 ≡ true
        → ((f : ℕ) → Open (h.connect fd p (h.socket p z).1).1 f → Open x f ⊎ (f ≡ fd))
        → IsConnected l x (some fd, (h.connect fd p (h.socket p z).1).1)

  -- An address that is passed over, with nothing left open.
  passed :
      (p : h.Address) (rest : List h.Address) (x y : h.World) {r : Option ℕ × h.World}
      → ((f : ℕ) → Open y f → Open x f)
      → IsConnected rest y r
      → IsConnected (p ∷ rest) x r
  passed p rest x y k (refused o) = refused (λ f u. k f (o f u))
  passed p rest x y k (connected before after q z fd e s c o) =
      connected (p ∷ before) after q z fd (ap (λ l. p ∷ l) e) s c
        (λ f u. elim (o f u) [ inl v ↦ inl (k f v) | inr v ↦ inr v ])

  module _ (k : IsPeer) where
    -- The receiver connects to the first address that accepts it, and closes the sockets of those
    -- that do not. For a host whose calls open and close the descriptors that their manual pages
    -- say: when no address accepts, no descriptor is open that was not before; otherwise the only
    -- new one is that of a socket which an address of the list has accepted.
    pub connect_first-IsConnected :
        (l : List h.Address) (x : h.World) → IsConnected l x (connect_first h l x)
    unfolding connect_first
    connect_first-IsConnected [] x = refused (λ f o. o)
    connect_first-IsConnected (p ∷ rest) x =
        let x1 = (h.socket p x).1 in
        elim (Option-cases (h.socket p x).0) [
          | inl e ↦
              rw (e, connect_first)
                (passed p rest x x1
                  (λ f o. elim (k.socket_opens p x f o) [
                    | inl o' ↦ o'
                    | inr e' ↦ absurd (some_not_none (sym e' ∙ e))
                  ])
                  (connect_first-IsConnected rest x1))
          | inr (fd, e) ↦
              let x2 = (h.connect fd p x1).1 in
              let back : (f : ℕ) → Open x2 f → Open x f ⊎ (f ≡ fd) = λ f o.
                (elim (k.socket_opens p x f (k.connect_keeps fd p x1 f o)) [
                  | inl o' ↦ inl o'
                  | inr e' ↦ inr (some_injective (sym e' ∙ e))
                ]) in
              rw (e, connect_first)
                (if_elim (IsConnected (p ∷ rest) x) (h.connect fd p x1).0
                  (λ c. connected [] rest p x fd refl e c back)
                  (λ _.
                    passed p rest x (h.close fd x2)
                      (λ f o.
                        let (o', n) = k.close_closes fd x2 f o in
                        elim (back f o') [ inl o'' ↦ o'' | inr e' ↦ absurd (n e') ])
                      (connect_first-IsConnected rest (h.close fd x2))))
        ]
