-- ===== src/Receiver/Seconds.antt =====
-- others/receiver_example.c: the lines against the seconds in which the bytes were received.
use real_time_data_transfer.Base.{
  ◌==◌, if◌then◌else◌, zero_plus, plus_zero, length, ℕ, zero, suc, ◌+◌, ◌≡◌, refl, ap, ◌∙◌, Bool,
  true, false, not, List, [], ◌∷◌, ◌++◌, append_assoc, arith,
}
use real_time_data_transfer.Receiver.{
  Peer, Report, Tally, first_tally, bytes_of, reported, receive, receive_rounds,
}

-- A round of the loop: the second that time gave, and the number of bytes that recv gave.
abbrev pub Sample : Type 0
Sample = ℕ × ℕ

abbrev pub add_first : ℕ → List ℕ → List ℕ
add_first b [] = []
add_first b (r ∷ rest) = (b + r) ∷ rest

-- The bytes of each run of rounds in the same second, from a round in the second `now` on.
abbrev pub run_totals : ℕ → List Sample → List ℕ
run_totals now [] = 0 ∷ []
run_totals now ((second, b) ∷ rest) =
    let same = add_first b (run_totals now rest) in
    let other = add_first b (run_totals second rest) in if second == now then same else 0 ∷ other

-- The totals of the lines, in the order of printing.
abbrev pub totals : List Report → List ℕ
totals [] = []
totals (r ∷ rest) = totals rest ++ r.total ∷ []

-- With the bytes since the last line.
abbrev pub all_totals : Tally → List ℕ
all_totals t = totals t.printed ++ t.total_bytes_recvd ∷ []

add_first_twice : (a b : ℕ) (l : List ℕ) → add_first (a + b) l ≡ add_first a (add_first b l)
add_first_twice a b [] = refl
add_first_twice a b (r ∷ rest) =
    let sum : a + b + r ≡ a + (b + r) = omega arith in ap (λ n. n ∷ rest) sum

add_nothing : (b : ℕ) (l : List ℕ) → add_first (0 + b) l ≡ add_first b l
add_nothing b l = ap (λ n. add_first n l) (zero_plus b)

if_not : (c : Bool) (x y : List ℕ) → (if not c then x else y) ≡ (if c then y else x)
if_not true x y = refl
if_not false x y = refl

-- What a round adds, before rounds whose totals are `l` from a given second on.
round_totals :
    (b : Bool) (now size : ℕ) (t : Tally) (l : ℕ → List ℕ)
    → let t1 = reported b now t in
      totals t1.printed ++ add_first (t1.total_bytes_recvd + size) (l t1.last_second)
      ≡ totals t.printed
        ++ add_first t.total_bytes_recvd
            (if b then 0 ∷ add_first size (l now) else add_first size (l t.last_second))
round_totals true now size t l =
    append_assoc (totals t.printed) (t.total_bytes_recvd ∷ []) (add_first (0 + size) (l now))
    ∙ ap (λ z. totals t.printed ++ t.total_bytes_recvd ∷ z) (add_nothing size (l now))
    ∙ ap (λ m. totals t.printed ++ m ∷ add_first size (l now)) (plus_zero t.total_bytes_recvd)
round_totals false now size t l =
    ap (λ z. totals t.printed ++ z) (add_first_twice t.total_bytes_recvd size (l t.last_second))

add_zero : (l : List ℕ) → add_first 0 l ≡ l
add_zero [] = refl
add_zero (r ∷ rest) = ap (λ n. n ∷ rest) (zero_plus r)

module _ (h : Peer) where
  -- The rounds of a run of the loop.
  unfoldable pub samples : ℕ → ℕ → Tally → h.World → List Sample
  samples zero sockfd t x = []
  samples (suc n) sockfd t x =
      let (got, x1) = h.recv sockfd x in
      let (t', x') = receive h sockfd t x in
      ((h.time x1).0, length (bytes_of got)) ∷ samples n sockfd t' x'

  rounds-run_totals :
      (n sockfd : ℕ) (t : Tally) (x : h.World)
      → all_totals (receive_rounds h n sockfd t x).0
        ≡ totals t.printed
          ++ add_first t.total_bytes_recvd (run_totals t.last_second (samples n sockfd t x))
  unfolding receive_rounds receive samples
  rounds-run_totals zero sockfd t x =
      ap (λ m. totals t.printed ++ m ∷ []) (plus_zero t.total_bytes_recvd)
  rounds-run_totals (suc n) sockfd t x =
      let (got, x1) = h.recv sockfd x in
      let (now, x2) = h.time x1 in
      let (t', x') = receive h sockfd t x in
      let size = length (bytes_of got) in
      let l = λ (second : ℕ). run_totals second (samples n sockfd t' x') in
      rounds-run_totals n sockfd t' x'
      ∙ round_totals (not (now == t.last_second)) now size t l
      ∙ ap (λ z. totals t.printed ++ add_first t.total_bytes_recvd z)
          (if_not (now == t.last_second) (0 ∷ add_first size (l now))
            (add_first size (l t.last_second)))

  -- The lines of the receiver are those of a reference definition. After any number of rounds of
  -- the loop, on any host, the totals of the printed lines in their order, and after them the bytes
  -- counted since the last line, are the numbers of bytes received in each run of rounds that fell
  -- in the same second, from the second in which the loop began.
  pub printed-run_totals :
      (n sockfd now : ℕ) (x : h.World)
      → all_totals (receive_rounds h n sockfd (first_tally now) x).0
        ≡ run_totals now (samples n sockfd (first_tally now) x)
  printed-run_totals n sockfd now x =
      rounds-run_totals n sockfd (first_tally now) x
      ∙ add_zero (run_totals now (samples n sockfd (first_tally now) x))
