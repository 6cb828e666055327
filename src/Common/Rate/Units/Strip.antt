-- ===== src/Common/Rate/Units/Strip.antt =====
-- What is left of a text without a suffix.
use mathlib.Core.List.{reverse, reverse-append, reverse-reverse, append-nil}
use kube_dtn.Prelude.{
  ℕ, ◌≡◌, refl, ap, ◌∙◌, ◌+◌, Bool, true, false, none, some, List, [], ◌∷◌, ◌++◌, nat_eq, arith,
}
use kube_dtn.Prelude.Text.{codes}
use kube_dtn.Common.Rate.{
  is_digit, strip_prefix, strip_suffix, strip_bits, strip_iec, strip_unit, times_base,
}
use kube_dtn.Common.Rate.Value.{all_digits}
use kube_dtn.Common.Rate.Units.{Suffix, no_suffix, bit, bps, iec_text, base, suffix_text, bits}

strip_prefix-append : (p s : List ℕ) → strip_prefix p (p ++ s) ≡ some s
unfolding strip_prefix
strip_prefix-append [] s = refl
strip_prefix-append (c ∷ p) s =
    let same : nat_eq c c ≡ true = ground arith in rw same (strip_prefix-append p s)

pub strip_suffix-append : (suf s : List ℕ) → strip_suffix suf (s ++ suf) ≡ some s
unfolding strip_suffix
strip_suffix-append suf s =
    rw (reverse-append s suf, strip_prefix-append (reverse suf) (reverse s), reverse-reverse s) refl

-- Whether a suffix is there depends on the end of the text only.
pub strip_suffix-behind :
    (suf s t : List ℕ)
    → strip_prefix (reverse suf) (reverse t ++ reverse s) ≡ none
    → strip_suffix suf (s ++ t) ≡ none
unfolding strip_suffix
strip_suffix-behind suf s t e = rw (reverse-append s t, e) refl

pub last_digit :
    (c : ℕ) (s : List ℕ)
    → all_digits (c ∷ s) ≡ true
    → (d : ℕ) × (r : List ℕ) × (reverse (c ∷ s) ≡ d ∷ r) × (is_digit d ≡ true)
last_digit c [] h = (c, [], refl, ground arith)
last_digit c (e ∷ s) h =
    let (d, r, there, digit) = last_digit e s (ground arith) in
    (d, r ++ c ∷ [], reverse-append (c ∷ []) (e ∷ s) ∙ ap (λ x. x ++ c ∷ []) there, digit)

strip_bits-none :
    (w : List ℕ)
    → strip_suffix (codes "bit") w ≡ none
    → strip_suffix (codes "bps") w ≡ none
    → strip_bits w ≡ (w, 1)
unfolding strip_bits
strip_bits-none w none_bit none_bps = rw (strip_bits, none_bit, none_bps) refl

strip_iec-none : (w : List ℕ) → strip_suffix (codes "i") w ≡ none → strip_iec w ≡ (w, 1000)
unfolding strip_iec
strip_iec-none w none_there = rw (strip_iec, none_there) refl

pub strip_bits-text :
    (w : List ℕ) (suffix : Suffix)
    → strip_suffix (codes "bit") w ≡ none
    → strip_suffix (codes "bps") w ≡ none
    → strip_bits (w ++ suffix_text suffix) ≡ (w, bits suffix)
unfolding strip_bits
strip_bits-text w no_suffix none_bit none_bps =
    ap strip_bits (append-nil w) ∙ strip_bits-none w none_bit none_bps
strip_bits-text w bit none_bit none_bps = rw (strip_bits, strip_suffix-append (codes "bit") w) refl
strip_bits-text w bps none_bit none_bps =
    rw
      (
        strip_bits,
        strip_suffix-behind (codes "bit") w (codes "bps") refl,
        strip_suffix-append (codes "bps") w,
      )
      refl

pub strip_iec-text :
    (w : List ℕ) (iec : Bool)
    → strip_suffix (codes "i") w ≡ none
    → strip_iec (w ++ iec_text iec) ≡ (w, base iec)
unfolding strip_iec
strip_iec-text w true none_there = rw (strip_iec, strip_suffix-append (codes "i") w) refl
strip_iec-text w false none_there = ap strip_iec (append-nil w) ∙ strip_iec-none w none_there

module _ (unit : List ℕ) (later : List (List ℕ)) (i of_base : ℕ) where
  pub this_unit :
      (rate : List ℕ) (multiplier : ℕ) {before : List ℕ}
      → strip_suffix unit rate ≡ some before
      → strip_unit (unit ∷ later) i of_base (rate, multiplier)
        ≡ (before, times_base of_base (i + 1) multiplier)
  unfolding strip_unit
  this_unit rate multiplier e = rw (strip_unit, e) refl

  pub next_unit :
      (rate : List ℕ) (multiplier : ℕ)
      → strip_suffix unit rate ≡ none
      → strip_unit (unit ∷ later) i of_base (rate, multiplier)
        ≡ strip_unit later (i + 1) of_base (rate, multiplier)
  unfolding strip_unit
  next_unit rate multiplier e = rw (strip_unit, e) refl
