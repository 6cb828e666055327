-- ===== src/Common/Rate.antt =====
-- `ParseRate` (common/qdisc.go): a rate such as 1000, 100kbit, 100Mbps, 1Gibps in bits per second.
-- Texts are lists of code points. `strings.ToLower` and `strings.TrimSpace` are modelled on ASCII.
pub mod Value
pub mod Units
use mathlib.Core.List.{reverse}
use mathlib.Core.Option
use kube_dtn.Prelude.{
  ℕ, zero, suc, ◌+◌, ◌-◌, ◌*◌, ◌%◌, ◌^◌, String, Bool, true, false, ◌&&◌, ◌||◌, Option, none, some,
  List, [], ◌∷◌, map, Result, ok, err, message, ltb, leb, nat_eq, if◌then◌else◌,
}
use kube_dtn.Prelude.Text.{codes}

abbrev pub u64 : ℕ
u64 = 2 ^ 64

unfoldable pub is_digit : ℕ → Bool
is_digit c = leb b'0' c && leb c b'9'

unfoldable pub is_space : ℕ → Bool
is_space c = nat_eq c 32 || (leb 9 c && leb c 13)

unfoldable pub to_lower : ℕ → ℕ
to_lower c = if leb b'A' c && leb c b'Z' then c + 32 else c

unfoldable pub drop_spaces : List ℕ → List ℕ
unfolding is_space
drop_spaces [] = []
drop_spaces (c ∷ s) = let rest = drop_spaces s in if is_space c then rest else c ∷ s

unfoldable pub trim_space : List ℕ → List ℕ
unfolding drop_spaces
trim_space s = reverse (drop_spaces (reverse (drop_spaces s)))

unfoldable pub strip_prefix : List ℕ → List ℕ → Option (List ℕ)
strip_prefix [] s = some s
strip_prefix (p ∷ ps) [] = none
strip_prefix (p ∷ ps) (c ∷ s) = if nat_eq p c then strip_prefix ps s else none

-- `strings.HasSuffix` and `strings.TrimSuffix` in one: what stands before the suffix.
unfoldable pub strip_suffix : List ℕ → List ℕ → Option (List ℕ)
unfolding strip_prefix
strip_suffix suf s = Option.map reverse (strip_prefix (reverse suf) (reverse s))

-- `strconv.ParseUint(s, 10, 64)`
unfoldable pub parse_digits : List ℕ → ℕ → Option ℕ
unfolding is_digit
parse_digits [] n = some n
parse_digits (c ∷ s) n =
    let rest = parse_digits s (n * 10 + (c - b'0')) in
    if is_digit c then (if ltb (n * 10 + (c - b'0')) u64 then rest else none) else none

unfoldable pub parse_uint : List ℕ → Option ℕ
unfolding parse_digits
parse_uint [] = none
parse_uint (c ∷ s) = parse_digits (c ∷ s) 0

-- The suffix "bit" or "bps": the text before it, and the multiplier.
unfoldable pub strip_bits : List ℕ → List ℕ × ℕ
unfolding strip_suffix
strip_bits rate = elim (strip_suffix (codes "bit") rate) [
  | some before ↦ (before, 1)
  | none ↦ elim (strip_suffix (codes "bps") rate) [ some before ↦ (before, 8) | none ↦ (rate, 1) ]
]

-- The IEC prefix "i": the text before it, and the base.
unfoldable pub strip_iec : List ℕ → List ℕ × ℕ
unfolding strip_suffix
strip_iec rate = elim (strip_suffix (codes "i") rate) [
  | some before ↦ (before, 1024)
  | none ↦ (rate, 1000)
]

-- `for j := 0; j < times; j++ { unitMultiplier *= base }`
unfoldable pub times_base : ℕ → ℕ → ℕ → ℕ
times_base base zero multiplier = multiplier
times_base base (suc j) multiplier = times_base base j (multiplier * base % u64)

-- The loop over the units, from index `i`, up to its `break`.
unfoldable pub strip_unit : List (List ℕ) → ℕ → ℕ → List ℕ × ℕ → List ℕ × ℕ
unfolding strip_suffix times_base
strip_unit [] i base (rate, multiplier) = (rate, multiplier)
strip_unit (unit ∷ units) i base (rate, multiplier) = elim (strip_suffix unit rate) [
  | some before ↦ (before, times_base base (i + 1) multiplier)
  | none ↦ strip_unit units (i + 1) base (rate, multiplier)
]

abbrev pub units : List (List ℕ)
units = codes "k" ∷ codes "m" ∷ codes "g" ∷ codes "t" ∷ []

-- From the trimmed text, not empty, on.
unfoldable pub parse_trimmed : List ℕ → Result ℕ
unfolding strip_bits strip_iec strip_unit parse_uint
parse_trimmed rate =
    let (number_and_unit, bits) = strip_bits rate in
    let (unit, base) = strip_iec number_and_unit in
    let (number, multiplier) = strip_unit units 0 base (unit, bits) in
    elim (parse_uint number) [
      | none ↦ err (message "strconv.ParseUint")
      | some value ↦ ok (value * multiplier % u64)
    ]

unfoldable pub parse_rate_codes : List ℕ → Result ℕ
unfolding parse_trimmed
parse_rate_codes rate = elim rate [ [] ↦ ok 0 | c ∷ s ↦ parse_trimmed (c ∷ s) ]

unfoldable pub parse_rate : String → Result ℕ
unfolding parse_rate_codes trim_space to_lower
parse_rate rate = parse_rate_codes (trim_space (map to_lower (codes rate)))
