-- ===== src/Common/Qdisc/Burst.antt =====
-- `getTbfBurst` (common/qdisc.go).
use kube_dtn.Prelude.{ℕ, ◌*◌, ◌/◌, ◌%◌, ◌^◌, ◌≤◌, ◌<◌, ◌≡◌, arith, ltb, if◌then◌else◌, ◌↔◌}

-- `uint32(rate / 250)`, and 5000 at least
unfoldable pub get_tbf_burst : ℕ → ℕ
get_tbf_burst rate = let burst = rate / 250 % 2 ^ 32 in if ltb burst 5000 then 5000 else burst

-- the larger number
abbrev pub max : ℕ → ℕ → ℕ
max m n = if ltb m n then n else m

-- The burst is a 32-bit number of at least 5000 bytes.
pub get_tbf_burst_bounds : (rate : ℕ) → (5000 ≤ get_tbf_burst rate) × (get_tbf_burst rate < 2 ^ 32)
unfolding get_tbf_burst
get_tbf_burst_bounds rate = ground arith

-- The burst is a 250th of the rate or 5000, whichever is more, exactly if that 250th fits 32 bits:
-- the rate is below 250 times 2^32.
pub get_tbf_burst-exact_iff :
    (rate : ℕ) → (get_tbf_burst rate ≡ max 5000 (rate / 250)) ↔ (rate < 250 * 2 ^ 32)
unfolding get_tbf_burst
get_tbf_burst-exact_iff rate = ground arith
