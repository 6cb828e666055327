-- ===== src/Common/Percent/Exact.antt =====
-- Which durations keep their value.
use kube_dtn.Prelude.{
  ◌≡◌, ◌≢◌, ◌↔◌, ap, ℕ, ◌/◌, ◌%◌, ◌<◌, ◌^◌, String, ok, arith, ◌==◌, String_eq, Bool-cases, inl,
  inr, eq_iff,
}
use kube_dtn.Prelude.Int.{pos}
use kube_dtn.Platform.{Platform}
use kube_dtn.Common.Percent.{parse_duration}

exact : (n : ℕ) → (ok (n / 1000 % 2 ^ 32) ≡ ok (n / 1000)) ↔ (n / 1000 < 2 ^ 32)
exact n = (
  λ e. let same : n / 1000 % 2 ^ 32 ≡ n / 1000 = cc in omega arith,
  λ h. ap ok (omega (arith, h)),
)

-- A duration is taken at its number of microseconds exactly if that is below 2^32, which is an hour
-- and some eleven minutes.
pub parse_duration-exact_iff :
    (p : Platform) (str : String) (n : ℕ)
    → str ≢ ""
    → p.parse_nanoseconds str ≡ ok (pos n)
    → (parse_duration p str ≡ ok (n / 1000)) ↔ (n / 1000 < 2 ^ 32)
unfolding parse_duration
parse_duration-exact_iff p str n some_text read = elim (Bool-cases (str == "")) [
  | inl empty ↦ absurd (some_text ((eq_iff str "").0 empty))
  | inr other ↦ rw (other, read) (exact n)
]
