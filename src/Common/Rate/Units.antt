-- ===== src/Common/Rate/Units.antt =====
-- Rates with units, as `ParseRate` takes them, from the trimmed text in lower case on.
pub mod Strip
pub mod Absent
pub mod Parse
use mathlib.Core.List.{reverse, reverse-append, reverse-reverse, append-nil}
use kube_dtn.Prelude.{
  ℕ, ◌≡◌, refl, ap, ◌∙◌, ◌+◌, ◌*◌, ◌%◌, ◌^◌, Bool, true, false, Option, none, some, List, [], ◌∷◌,
  ◌++◌, Result, ok, err, message, ltb, nat_eq, if◌then◌else◌, arith, Bool-cases, inl, inr,
}
use kube_dtn.Prelude.Text.{codes}
use kube_dtn.Common.Rate.{
  is_digit, u64, strip_prefix, strip_suffix, strip_bits, strip_iec, strip_unit, times_base, units,
  parse_trimmed, parse_uint,
}
use kube_dtn.Common.Rate.Value.{all_digits, digits_value, parse_uint_lem}

-- A power of the base, and its letter.
pub data Scale : Type 0 where
  single kilo mega giga tera : Scale

pub data Suffix : Type 0 where
  no_suffix bit bps : Suffix

abbrev pub scale_text : Scale → List ℕ
scale_text single = []
scale_text kilo = codes "k"
scale_text mega = codes "m"
scale_text giga = codes "g"
scale_text tera = codes "t"

abbrev pub exponent : Scale → ℕ
exponent single = 0
exponent kilo = 1
exponent mega = 2
exponent giga = 3
exponent tera = 4

-- whether the base is 1024
abbrev pub iec_text : Bool → List ℕ
iec_text true = codes "i"
iec_text false = []

abbrev pub base : Bool → ℕ
base true = 1024
base false = 1000

abbrev pub suffix_text : Suffix → List ℕ
suffix_text no_suffix = []
suffix_text bit = codes "bit"
suffix_text bps = codes "bps"

-- bits in what the suffix counts
abbrev pub bits : Suffix → ℕ
bits no_suffix = 1
bits bit = 1
bits bps = 8

abbrev pub rate_text : List ℕ → Scale → Bool → Suffix → List ℕ
rate_text number scale iec suffix = number ++ scale_text scale ++ iec_text iec ++ suffix_text suffix
