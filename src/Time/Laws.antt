-- ===== src/Time/Laws.antt =====
-- includes/timers_utils.h: the macros on `timespec` are exact on the clock's readings.
use real_time_data_transfer.Base.{ℕ, ◌+◌, ◌-◌, ◌^◌, ◌≤◌, ◌<◌, ◌≡◌, refl, subst, arith}
use real_time_data_transfer.Time.{Timespec, timespec_diff_ns, add_ns_to_timespec, total_ns, IsTime}

-- Between two readings of the clock, in order, TIMESPEC_DIFF_NS is the number of nanoseconds from
-- the first to the second, although its parts wrap when the second reading has the smaller tv_nsec.
pub timespec_diff-eq-sub :
    (t1 t2 : Timespec)
    → IsTime t1
    → IsTime t2
    → total_ns t1 ≤ total_ns t2
    → timespec_diff_ns t1 t2 ≡ total_ns t2 - total_ns t1
unfolding timespec_diff_ns
timespec_diff-eq-sub t1 t2 h1 h2 le = omega arith

-- ADD_NS_TO_TIMESPEC moves a reading by exactly `ns` nanoseconds and leaves it normalised, as long
-- as the sum is below 2 ^ 64 nanoseconds.
pub add_ns_to_timespec-exact :
    (t : Timespec) (ns : ℕ)
    → IsTime t
    → total_ns t + ns < 2 ^ 64
    → (total_ns (add_ns_to_timespec t ns) ≡ total_ns t + ns) × IsTime (add_ns_to_timespec t ns)
unfolding add_ns_to_timespec
add_ns_to_timespec-exact t ns h fits = (omega arith, omega arith)

-- Two normalised readings of the same instant are equal.
pub total_ns-injective :
    (t1 t2 : Timespec) → IsTime t1 → IsTime t2 → total_ns t1 ≡ total_ns t2 → t1 ≡ t2
total_ns-injective t1 t2 h1 h2 e =
    let sec : t1.tv_sec ≡ t2.tv_sec = omega (arith, h1.normal, h2.normal) in
    let nsec : t1.tv_nsec ≡ t2.tv_nsec = omega (arith, h1.normal, h2.normal) in
    subst (λ s. t1 ≡ record { tv_sec = s; tv_nsec = t2.tv_nsec }) sec
      (subst (λ n. t1 ≡ record { tv_sec = t1.tv_sec; tv_nsec = n }) nsec refl)

-- The two macros are inverse to each other on the clock's readings: TIMESPEC_DIFF_NS gives back the
-- nanoseconds that ADD_NS_TO_TIMESPEC has added, where the sum is below 2 ^ 64 nanoseconds, and
-- adding the difference of two readings, in order, to the first gives the second.
pub timespec_diff-add_ns :
    (t1 t2 : Timespec)
    → IsTime t1
    → IsTime t2
    → ((ns : ℕ) → total_ns t1 + ns < 2 ^ 64 → timespec_diff_ns t1 (add_ns_to_timespec t1 ns) ≡ ns)
      × (total_ns t1 ≤ total_ns t2 → add_ns_to_timespec t1 (timespec_diff_ns t1 t2) ≡ t2)
timespec_diff-add_ns t1 t2 h1 h2 = (
  λ ns fits.
      let (moved, valid) = add_ns_to_timespec-exact t1 ns h1 fits in
      omega
        (arith, moved, timespec_diff-eq-sub t1 (add_ns_to_timespec t1 ns) h1 valid (omega arith)),
  λ le.
      let d = timespec_diff-eq-sub t1 t2 h1 h2 le in
      let (moved, valid) =
        add_ns_to_timespec-exact t1 (timespec_diff_ns t1 t2) h1 (omega (arith, h2.range)) in
      total_ns-injective (add_ns_to_timespec t1 (timespec_diff_ns t1 t2)) t2 valid h2
        (omega (arith, moved, d)),
)
