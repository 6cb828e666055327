-- ===== src/Common/Percent.antt =====
-- `ParseFloatPercentage` and `ParseDuration` (common/qdisc.go). Floats and the two parsers of the
-- standard library are the platform's.
pub mod Exact
use kube_dtn.Prelude.{
  ℕ, ◌/◌, ◌%◌, ◌^◌, String, ◌||◌, Result, ok, err, panic, message, ◌==◌, String_eq, if◌then◌else◌,
}
use kube_dtn.Prelude.Int.{pos, negsuc}
use kube_dtn.Platform.{Platform}

module _ (p : Platform) where
  unfoldable pub parse_float_percentage : String → Result p.Float32
  parse_float_percentage str = if str == "" then ok p.zero_float32 else (elim (p.parse_float str) [
    | err e ↦ err e
    | panic ↦ panic
    | ok value ↦
        if p.is_nan value
        then err (message "percentage value must be a number")
        else if p.is_below_zero value || p.is_above_hundred value
        then err (message "percentage value must be between 0 and 100")
        else ok (p.to_float32 value)
  ])

  -- `uint32(value.Microseconds())` of a duration in nanoseconds
  abbrev pub microseconds : ℕ → ℕ
  microseconds nanoseconds = nanoseconds / 1000 % 2 ^ 32

  unfoldable pub parse_duration : String → Result ℕ
  parse_duration str = if str == "" then ok 0 else (elim (p.parse_nanoseconds str) [
    | err e ↦ err e
    | panic ↦ panic
    | ok (pos n) ↦ ok (microseconds n)
    | ok (negsuc n) ↦ err (message "duration value must be positive")
  ])
