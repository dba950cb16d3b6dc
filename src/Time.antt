-- ===== src/Time.antt =====
-- includes/timers_utils.h: conversions between units of time, and arithmetic on `timespec`.
-- Every expression is of type uint_fast64_t, so it wraps modulo 2 ^ 64.
pub mod Laws
pub mod Sleep
use real_time_data_transfer.Base.{ℕ, ◌+◌, ◌*◌, ◌/◌, ◌%◌, ◌^◌, ◌<◌, add64, sub64, mul64}

abbrev pub sec_to_ms : ℕ → ℕ
sec_to_ms s = mul64 s 1000

abbrev pub sec_to_us : ℕ → ℕ
sec_to_us s = mul64 (sec_to_ms s) 1000

abbrev pub sec_to_ns : ℕ → ℕ
sec_to_ns s = mul64 (sec_to_us s) 1000

abbrev pub sec_to_ps : ℕ → ℕ
sec_to_ps s = mul64 (sec_to_ns s) 1000

abbrev pub ms_to_us : ℕ → ℕ
ms_to_us s = mul64 s 1000

abbrev pub ms_to_ns : ℕ → ℕ
ms_to_ns s = mul64 (ms_to_us s) 1000

abbrev pub us_to_ns : ℕ → ℕ
us_to_ns s = mul64 s 1000

abbrev pub ns_to_us : ℕ → ℕ
ns_to_us s = s / 1000

abbrev pub ns_to_ms : ℕ → ℕ
ns_to_ms s = ns_to_us s / 1000

abbrev pub ns_to_sec : ℕ → ℕ
ns_to_sec s = ns_to_ms s / 1000

abbrev pub ps_to_ns : ℕ → ℕ
ps_to_ns s = s / 1000

pub record Timespec : Type 0 where
  pub tv_sec : ℕ
  pub tv_nsec : ℕ

-- The macro TIMESPEC_DIFF_NS. A signed difference converted to uint_fast64_t is the difference
-- modulo 2 ^ 64.
unfoldable pub timespec_diff_ns : Timespec → Timespec → ℕ
timespec_diff_ns t1 t2 = add64 (sec_to_ns (sub64 t2.tv_sec t1.tv_sec)) (sub64 t2.tv_nsec t1.tv_nsec)

-- The macro ADD_NS_TO_TIMESPEC: two statements, and both read the old `tv_nsec`.
pub add_ns_to_timespec : Timespec → ℕ → Timespec
add_ns_to_timespec t ns = record {
  tv_sec = add64 t.tv_sec (ns_to_sec (add64 t.tv_nsec ns));
  tv_nsec = add64 t.tv_nsec ns % sec_to_ns 1;
}

-- What a `timespec` stands for, in nanoseconds without bound.
abbrev pub total_ns : Timespec → ℕ
total_ns t = t.tv_sec * 1000000000 + t.tv_nsec

-- A reading as the kernel gives it, within the first 2 ^ 64 nanoseconds (584 years).
pub record IsTime (t : Timespec) : Type 0 where
  pub normal : t.tv_nsec < 1000000000
  pub range : total_ns t < 2 ^ 64
