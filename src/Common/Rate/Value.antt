-- ===== src/Common/Rate/Value.antt =====
-- What `strconv.ParseUint`, as `ParseRate` uses it, reads, and the size of a rate.
use kube_dtn.Prelude.{
  ℕ, ◌≡◌, ◌≤◌, ◌<◌, ◌+◌, ◌-◌, ◌*◌, ◌%◌, Bool, true, ◌&&◌, none, some, List, [], ◌∷◌, ltb, ok, err,
  String, if◌then◌else◌, arith, Bool-cases, inl, inr, Option, message, map, ◌^◌,
}
use kube_dtn.Prelude.Text.{codes}
use kube_dtn.Common.Rate.{
  is_digit, parse_digits, parse_uint, u64, parse_trimmed, parse_rate_codes, parse_rate, strip_bits,
  strip_iec, strip_unit, units, trim_space, to_lower,
}

abbrev pub all_digits : List ℕ → Bool
all_digits [] = true
all_digits (c ∷ s) = is_digit c && all_digits s

-- The number that the digits write in decimal behind a number.
abbrev pub digits_value : List ℕ → ℕ → ℕ
digits_value [] n = n
digits_value (c ∷ s) n = digits_value s (n * 10 + (c - b'0'))

digits_value_grows : (s : List ℕ) (n : ℕ) → n ≤ digits_value s n
digits_value_grows [] n = ground arith
digits_value_grows (c ∷ s) n = let rest = digits_value_grows s (n * 10 + (c - b'0')) in ground arith

parse_digits_lem :
    (s : List ℕ) (n : ℕ)
    → n < u64
    → parse_digits s n
      ≡ (if all_digits s && ltb (digits_value s n) u64 then some (digits_value s n) else none)
unfolding parse_digits
parse_digits_lem [] n below = ground arith
parse_digits_lem (c ∷ s) n below = elim (Bool-cases (ltb (n * 10 + (c - b'0')) u64)) [
  | inl e ↦ let rest = parse_digits_lem s (n * 10 + (c - b'0')) (ground arith) in ground arith
  | inr e ↦ let grows = digits_value_grows s (n * 10 + (c - b'0')) in ground arith
]

-- A number is read exactly from one or more digits whose value is below 2^64, and it is that value.
pub parse_uint_lem :
    (c : ℕ) (s : List ℕ)
    → parse_uint (c ∷ s) ≡ (
        if all_digits (c ∷ s) && ltb (digits_value (c ∷ s) 0) u64
        then some (digits_value (c ∷ s) 0)
        else none)
unfolding parse_uint
parse_uint_lem c s = parse_digits_lem (c ∷ s) 0 (ground arith)

scaled_below :
    (found : Option ℕ) (multiplier : ℕ) {n : ℕ}
    → (elim found [
      | none ↦ err (message "strconv.ParseUint")
      | some value ↦ ok (value * multiplier % u64)
    ])
      ≡ ok n
    → n < u64
scaled_below none multiplier e = absurd (cc)
scaled_below (some value) multiplier {n} e =
    let same : value * multiplier % u64 ≡ n = cc in ground arith

parse_trimmed_below : (rate : List ℕ) {n : ℕ} → parse_trimmed rate ≡ ok n → n < u64
unfolding parse_trimmed
parse_trimmed_below rate e =
    let (number_and_unit, bits) = strip_bits rate in
    let (unit, base) = strip_iec number_and_unit in
    let (number, multiplier) = strip_unit units 0 base (unit, bits) in
    scaled_below (parse_uint number) multiplier e

parse_rate_codes_below : (rate : List ℕ) {n : ℕ} → parse_rate_codes rate ≡ ok n → n < u64
unfolding parse_rate_codes
parse_rate_codes_below [] {n} e = let same : 0 ≡ n = cc in ground arith
parse_rate_codes_below (c ∷ s) e = parse_trimmed_below (c ∷ s) e

-- A rate that is accepted is below 2^64.
pub parse_rate_bounds : (rate : String) (n : ℕ) → parse_rate rate ≡ ok n → n < 2 ^ 64
unfolding parse_rate
parse_rate_bounds rate n e = parse_rate_codes_below (trim_space (map to_lower (codes rate))) e
