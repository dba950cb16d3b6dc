-- ===== src/Time/Sleep/Laws.antt =====
-- src/timers/timers_utils.cpp: the sleep functions never return early, and return as soon as the
-- clock has passed the target.
use mathlib.Core.List.{append_assoc}
use real_time_data_transfer.Base.{
  ℕ, zero, suc, ◌+◌, ◌-◌, ◌^◌, ◌≤◌, ◌<◌, ◌≡◌, refl, inl, inr, some, arith, ltb, ltb→lt, ltb→ge,
  ge→ltb, Bool-cases, All, All-append, subst, List, [], ◌∷◌, ◌++◌, sym, ◌∙◌, sub64,
}
use real_time_data_transfer.Time.{Timespec, timespec_diff_ns, total_ns, IsTime}
use real_time_data_transfer.Time.Laws.{timespec_diff-eq-sub}
use real_time_data_transfer.Time.Sleep.{Process, nap, sleep_loop, nanoseconds_sleep}

-- What clock_gettime(2) promises of CLOCK_MONOTONIC.
pub record IsClock (clock : ℕ → Timespec) : Type 0 where
  pub reading : (i : ℕ) → IsTime (clock i)
  pub monotonic : (i : ℕ) → total_ns (clock i) ≤ total_ns (clock (i + 1))

-- Later readings are not smaller.
pub clock_le :
    {clock : ℕ → Timespec}
    → IsClock clock
    → (i k j : ℕ) → i + k ≡ j
    → total_ns (clock i) ≤ total_ns (clock j)
clock_le {clock} c i zero j e =
    let same : i ≡ j = omega arith in
    subst (λ n. total_ns (clock i) ≤ total_ns (clock n)) same (omega arith)
clock_le {clock} c i (suc k) j e =
    let same : (i + k) + 1 ≡ j = omega arith in
    subst (λ n. total_ns (clock i) ≤ total_ns (clock n)) same
      (omega (arith, clock_le c i k (i + k) refl, c.monotonic (i + k)))

-- A request that nanosleep accepts, for some of the time asked for.
abbrev pub IsNap : ℕ → Timespec → Type 0
IsNap ns t = (t.tv_nsec < 1000000000) × (0 < total_ns t) × (total_ns t ≤ ns)

nap-IsNap : (ns slept : ℕ) → ns < 2 ^ 64 → slept < ns → IsNap ns (nap (sub64 ns slept))
nap-IsNap ns slept h k = omega arith

-- The outcome of a sleep of `ns` nanoseconds that began at the reading `start`: the last reading,
-- number `last`, has passed the target, and the new requests to nanosleep are in order.
pub record Slept (clock : ℕ → Timespec) (start : Timespec) (ns : ℕ) (naps : List Timespec)
    (after : Process) : Type 0 where
  pub last : ℕ
  pub counted : after.reads ≡ last + 1
  pub enough : total_ns start + ns ≤ total_ns (clock last)
  pub requests : List Timespec
  pub added : after.naps ≡ requests ++ naps
  pub valid : All (IsNap ns) requests

-- A request made first, and then the rest of the sleep.
Slept-cons :
    {clock : ℕ → Timespec} (start : Timespec) (ns : ℕ) (naps : List Timespec) (after : Process)
    (t : Timespec)
    → IsNap ns t
    → Slept clock start ns (t ∷ naps) after
    → Slept clock start ns naps after
Slept-cons start ns naps after t h s = record {
  last = s.last;
  counted = s.counted;
  enough = s.enough;
  requests = s.requests ++ t ∷ [];
  added = s.added ∙ sym (append_assoc s.requests (t ∷ []) naps);
  valid = All-append (IsNap ns) s.requests (t ∷ []) s.valid (h, tt);
}

module _ {clock : ℕ → Timespec} (c : IsClock clock) where
  -- The clock passes the target `k` readings after the reading `now`.
  sleep_loop_lem :
      (k fuel s now end ns : ℕ) (p : Process)
      → k < fuel
      → ns < 2 ^ 64
      → total_ns (clock s) ≤ total_ns (clock now)
      → p.reads ≡ now + 1
      → now + k ≡ end
      → total_ns (clock s) + ns ≤ total_ns (clock end)
      → (p' : Process) × (sleep_loop clock fuel (clock s) (clock now) ns p ≡ some p')
        × Slept clock (clock s) ns p.naps p'
  unfolding sleep_loop
  sleep_loop_lem k zero s now end ns p f b le r e reach = absurd (omega arith)
  sleep_loop_lem zero (suc fuel) s now end ns p f b le r e reach =
      let exact = timespec_diff-eq-sub _ _ (c.reading s) (c.reading now) le in
      let due = clock_le c end 0 now (omega arith) in
      rw
        (ge→ltb (timespec_diff_ns (clock s) (clock now)) ns (omega (arith, exact, due)), sleep_loop)
        (
          p,
          refl,
          record {
            last = now;
            counted = r;
            enough = omega (arith, due);
            requests = [];
            added = refl;
            valid = tt;
          },
        )
  sleep_loop_lem (suc k) (suc fuel) s now end ns p f b le r e reach =
      let exact = timespec_diff-eq-sub _ _ (c.reading s) (c.reading now) le in
      let next = clock_le c now 1 p.reads (omega arith) in
      elim (Bool-cases (ltb (timespec_diff_ns (clock s) (clock now)) ns)) [
        | inr done ↦
            rw (done, sleep_loop)
              (
                p,
                refl,
                record {
                  last = now;
                  counted = r;
                  enough = omega (arith, exact, ltb→ge _ _ done);
                  requests = [];
                  added = refl;
                  valid = tt;
                },
              )
        | inl more ↦
            let (p', same, slept) =
              sleep_loop_lem k fuel s p.reads end ns _ (omega arith) b (omega (arith, next)) refl
                (omega arith) reach in
            rw (more, sleep_loop)
              (p', same, Slept-cons _ ns p.naps p' _ (nap-IsNap _ _ b (ltb→lt _ _ more)) slept)
      ]

  -- Where the clock has passed an instant at reading `n`, it has at every later one.
  pub clock_past :
      (n now : ℕ) (instant : ℕ)
      → instant ≤ total_ns (clock n)
      → instant ≤ total_ns (clock (now + (n - now)))
  clock_past n now instant h =
      omega (arith, clock_le c n (now + (n - now) - n) (now + (n - now)) (omega arith))

  -- nanoseconds_sleep returns, and never early. If reading number `n` of the clock has passed the
  -- end of the sleep and the fuel is above `n`, it returns, its last reading is at least `ns`
  -- nanoseconds after its first, and each request to nanosleep is normalised, positive and at
  -- most `ns`.
  pub nanoseconds_sleep-returns :
      (n fuel ns : ℕ) (p : Process)
      → n < fuel
      → ns < 2 ^ 64
      → total_ns (clock p.reads) + ns ≤ total_ns (clock n)
      → (p' : Process) × (nanoseconds_sleep clock fuel ns p ≡ some p')
        × Slept clock (clock p.reads) ns p.naps p'
  unfolding nanoseconds_sleep
  nanoseconds_sleep-returns n fuel ns p f b reach =
      let now = p.reads + 1 in
      sleep_loop_lem (n - now) fuel p.reads now (now + (n - now)) ns _ (omega arith) b
        (c.monotonic p.reads) refl refl (clock_past n now _ reach)
