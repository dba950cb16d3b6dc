-- ===== src/Time/Sleep/Requests.antt =====
-- src/timers/timers_utils.cpp: the requests that nanoseconds_sleep makes of nanosleep.
use real_time_data_transfer.Base.{ℕ, ◌^◌, ◌<◌, ◌≡◌, sym, ◌∙◌, arith}
use real_time_data_transfer.Time.{Timespec, IsTime, total_ns}
use real_time_data_transfer.Time.Laws.{total_ns-injective}
use real_time_data_transfer.Time.Sleep.{nap}

pub nap-IsTime : (ns : ℕ) → ns < 2 ^ 64 → IsTime (nap ns)
nap-IsTime ns h = record { normal = omega arith; range = omega arith }

total_ns-nap : (ns : ℕ) → ns < 2 ^ 64 → total_ns (nap ns) ≡ ns
total_ns-nap ns h = omega arith

-- The request for a duration below 2 ^ 64 nanoseconds is for exactly that duration, has its
-- nanoseconds below a second, and is the only such request; and a duration that is read back from a
-- request gives the request again.
pub nap-IsRequest :
    (ns : ℕ)
    → ns < 2 ^ 64
    → IsTime (nap ns)
      × (total_ns (nap ns) ≡ ns)
      × ((t : Timespec) → IsTime t → total_ns t ≡ ns → t ≡ nap ns)
      × ((t : Timespec) → IsTime t → nap (total_ns t) ≡ t)
nap-IsRequest ns h = (
  nap-IsTime ns h,
  total_ns-nap ns h,
  λ t v e. total_ns-injective t (nap ns) v (nap-IsTime ns h) (e ∙ sym (total_ns-nap ns h)),
  λ t v.
      total_ns-injective (nap (total_ns t)) t (nap-IsTime (total_ns t) v.range) v
        (total_ns-nap (total_ns t) v.range),
)
