-- ===== src/Common/Rate/Units/Parse.antt =====
-- What `ParseRate` makes of a number with a unit.
use mathlib.Core.List.{append-nil}
use kube_dtn.Prelude.{
  ℕ, ◌≡◌, refl, ap, ◌∙◌, ◌*◌, ◌%◌, ◌^◌, Bool, true, false, Option, none, some, List, [], ◌∷◌, ◌++◌,
  Result, ok, err, message, ltb, if◌then◌else◌, Bool-cases, inl, inr,
}
use kube_dtn.Prelude.Text.{codes}
use kube_dtn.Common.Rate.{
  is_digit, u64, strip_prefix, strip_bits, strip_iec, strip_unit, times_base, units, parse_trimmed,
  parse_uint,
}
use kube_dtn.Common.Rate.Value.{all_digits, digits_value, parse_uint_lem}
use kube_dtn.Common.Rate.Units.{
  Scale, single, kilo, mega, giga, tera, Suffix, no_suffix, bit, bps, scale_text, exponent,
  iec_text, base, bits, rate_text,
}
use kube_dtn.Common.Rate.Units.Strip.{
  strip_suffix-append, strip_suffix-behind, strip_bits-text, strip_iec-text, this_unit, next_unit,
}
use kube_dtn.Common.Rate.Units.Absent.{no_i, no_bit_iec, no_bps_iec, no_letter}

abbrev scale_value : ℕ → Option ℕ → Result ℕ
scale_value multiplier none = err (message "strconv.ParseUint")
scale_value multiplier (some value) = ok (value * multiplier % u64)

abbrev scaled : List ℕ × ℕ → Result ℕ
scaled (number, multiplier) = scale_value multiplier (parse_uint number)

-- The three steps, one behind the other.
parse_trimmed_steps :
    (rate w v : List ℕ) (b k : ℕ) {last : List ℕ × ℕ}
    → strip_bits rate ≡ (w, b)
    → strip_iec w ≡ (v, k)
    → strip_unit units 0 k (v, b) ≡ last
    → parse_trimmed rate ≡ scaled last
unfolding parse_trimmed
parse_trimmed_steps rate w v b k first second third =
    ap (λ (x : List ℕ × ℕ). scaled (strip_unit units 0 (strip_iec x.0).1 ((strip_iec x.0).0, x.1)))
      first
    ∙ ap (λ (x : List ℕ × ℕ). scaled (strip_unit units 0 x.1 (x.0, b))) second
    ∙ ap scaled third

times_base-factor :
    (scale : Scale) (iec : Bool) (suffix : Suffix)
    → times_base (base iec) (exponent scale) (bits suffix) ≡ bits suffix * base iec ^ exponent scale
unfolding times_base
times_base-factor single true no_suffix = refl
times_base-factor single true bit = refl
times_base-factor single true bps = refl
times_base-factor single false no_suffix = refl
times_base-factor single false bit = refl
times_base-factor single false bps = refl
times_base-factor kilo true no_suffix = refl
times_base-factor kilo true bit = refl
times_base-factor kilo true bps = refl
times_base-factor kilo false no_suffix = refl
times_base-factor kilo false bit = refl
times_base-factor kilo false bps = refl
times_base-factor mega true no_suffix = refl
times_base-factor mega true bit = refl
times_base-factor mega true bps = refl
times_base-factor mega false no_suffix = refl
times_base-factor mega false bit = refl
times_base-factor mega false bps = refl
times_base-factor giga true no_suffix = refl
times_base-factor giga true bit = refl
times_base-factor giga true bps = refl
times_base-factor giga false no_suffix = refl
times_base-factor giga false bit = refl
times_base-factor giga false bps = refl
times_base-factor tera true no_suffix = refl
times_base-factor tera true bit = refl
times_base-factor tera true bps = refl
times_base-factor tera false no_suffix = refl
times_base-factor tera false bit = refl
times_base-factor tera false bps = refl

module _ (c : ℕ) (s : List ℕ) (digits : all_digits (c ∷ s) ≡ true) where
  strip_unit-text :
      (scale : Scale) (of_base multiplier : ℕ)
      → strip_unit units 0 of_base (c ∷ s ++ scale_text scale, multiplier)
        ≡ (c ∷ s, times_base of_base (exponent scale) multiplier)
  unfolding strip_unit is_digit strip_prefix
  strip_unit-text single of_base multiplier =
      ap (λ rate. strip_unit units 0 of_base (rate, multiplier)) (append-nil (c ∷ s))
      ∙ next_unit (codes "k") (codes "m" ∷ codes "g" ∷ codes "t" ∷ []) 0 of_base (c ∷ s) multiplier
          (no_letter c s digits b'k' refl)
      ∙ next_unit (codes "m") (codes "g" ∷ codes "t" ∷ []) 1 of_base (c ∷ s) multiplier
          (no_letter c s digits b'm' refl)
      ∙ next_unit (codes "g") (codes "t" ∷ []) 2 of_base (c ∷ s) multiplier
          (no_letter c s digits b'g' refl)
      ∙ next_unit (codes "t") [] 3 of_base (c ∷ s) multiplier (no_letter c s digits b't' refl)
  strip_unit-text kilo of_base multiplier =
      this_unit (codes "k") (codes "m" ∷ codes "g" ∷ codes "t" ∷ []) 0 of_base (c ∷ s ++ codes "k")
        multiplier (strip_suffix-append (codes "k") (c ∷ s))
  strip_unit-text mega of_base multiplier =
      next_unit (codes "k") (codes "m" ∷ codes "g" ∷ codes "t" ∷ []) 0 of_base (c ∷ s ++ codes "m")
        multiplier (strip_suffix-behind (codes "k") (c ∷ s) (codes "m") refl)
      ∙ this_unit (codes "m") (codes "g" ∷ codes "t" ∷ []) 1 of_base (c ∷ s ++ codes "m") multiplier
          (strip_suffix-append (codes "m") (c ∷ s))
  strip_unit-text giga of_base multiplier =
      next_unit (codes "k") (codes "m" ∷ codes "g" ∷ codes "t" ∷ []) 0 of_base (c ∷ s ++ codes "g")
        multiplier (strip_suffix-behind (codes "k") (c ∷ s) (codes "g") refl)
      ∙ next_unit (codes "m") (codes "g" ∷ codes "t" ∷ []) 1 of_base (c ∷ s ++ codes "g") multiplier
          (strip_suffix-behind (codes "m") (c ∷ s) (codes "g") refl)
      ∙ this_unit (codes "g") (codes "t" ∷ []) 2 of_base (c ∷ s ++ codes "g") multiplier
          (strip_suffix-append (codes "g") (c ∷ s))
  strip_unit-text tera of_base multiplier =
      next_unit (codes "k") (codes "m" ∷ codes "g" ∷ codes "t" ∷ []) 0 of_base (c ∷ s ++ codes "t")
        multiplier (strip_suffix-behind (codes "k") (c ∷ s) (codes "t") refl)
      ∙ next_unit (codes "m") (codes "g" ∷ codes "t" ∷ []) 1 of_base (c ∷ s ++ codes "t") multiplier
          (strip_suffix-behind (codes "m") (c ∷ s) (codes "t") refl)
      ∙ next_unit (codes "g") (codes "t" ∷ []) 2 of_base (c ∷ s ++ codes "t") multiplier
          (strip_suffix-behind (codes "g") (c ∷ s) (codes "t") refl)
      ∙ this_unit (codes "t") [] 3 of_base (c ∷ s ++ codes "t") multiplier
          (strip_suffix-append (codes "t") (c ∷ s))

  value_read :
      (scale : Scale) (iec : Bool) (suffix : Suffix)
      → scaled (c ∷ s, times_base (base iec) (exponent scale) (bits suffix)) ≡ (
          if ltb (digits_value (c ∷ s) 0) u64
          then ok (digits_value (c ∷ s) 0 * (bits suffix * base iec ^ exponent scale) % u64)
          else err (message "strconv.ParseUint"))
  value_read scale iec suffix =
      let value = digits_value (c ∷ s) 0 in
      rw (← times_base-factor scale iec suffix) (
        ap (scale_value (times_base (base iec) (exponent scale) (bits suffix))) (parse_uint_lem c s)
        ∙ (elim (Bool-cases (ltb value u64)) [
          | inl small ↦ rw (digits, small) refl
          | inr large ↦ rw (digits, large) refl
        ]))

  -- A number with a unit is accepted exactly if the number is below 2^64, and is the number times
  -- the power of 1000, or of 1024 with an "i", times 8 for "bps"; all modulo 2^64.
  pub parse_trimmed-rate_text :
      (scale : Scale) (iec : Bool) (suffix : Suffix)
      → parse_trimmed (rate_text (c ∷ s) scale iec suffix) ≡ (
          if ltb (digits_value (c ∷ s) 0) u64
          then ok (digits_value (c ∷ s) 0 * (bits suffix * base iec ^ exponent scale) % u64)
          else err (message "strconv.ParseUint"))
  parse_trimmed-rate_text scale iec suffix =
      parse_trimmed_steps (rate_text (c ∷ s) scale iec suffix)
        (c ∷ s ++ scale_text scale ++ iec_text iec) (c ∷ s ++ scale_text scale) (bits suffix)
        (base iec)
        (strip_bits-text (c ∷ s ++ scale_text scale ++ iec_text iec) suffix
          (no_bit_iec c s digits scale iec) (no_bps_iec c s digits scale iec))
        (strip_iec-text (c ∷ s ++ scale_text scale) iec (no_i c s digits scale))
        (strip_unit-text scale (base iec) (bits suffix))
      ∙ value_read scale iec suffix
