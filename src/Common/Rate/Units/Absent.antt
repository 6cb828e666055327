-- ===== src/Common/Rate/Units/Absent.antt =====
-- Suffixes that are not there behind a number.
use mathlib.Core.List.{reverse, append-nil}
use kube_dtn.Prelude.{ℕ, ◌≡◌, refl, Bool, true, false, none, List, [], ◌∷◌, ◌++◌, arith}
use kube_dtn.Prelude.Text.{codes}
use kube_dtn.Common.Rate.{is_digit, strip_prefix, strip_suffix}
use kube_dtn.Common.Rate.Value.{all_digits}
use kube_dtn.Common.Rate.Units.{Scale, single, kilo, mega, giga, tera, scale_text, iec_text}
use kube_dtn.Common.Rate.Units.Strip.{strip_suffix-behind, last_digit}

module _ (c : ℕ) (s : List ℕ) (digits : all_digits (c ∷ s) ≡ true) where
  -- A suffix that is not there behind any digit is not there.
  strip_suffix-digits :
      (suf t : List ℕ)
      → ((d : ℕ) (r : List ℕ)
          → is_digit d ≡ true
          → strip_prefix (reverse suf) (reverse t ++ d ∷ r) ≡ none)
      → strip_suffix suf (c ∷ s ++ t) ≡ none
  strip_suffix-digits suf t h =
      let (d, r, there, digit) = last_digit c s digits in
      strip_suffix-behind suf (c ∷ s) t (rw there (h d r digit))

  no_bit : (scale : Scale) → strip_suffix (codes "bit") (c ∷ s ++ scale_text scale) ≡ none
  unfolding strip_prefix is_digit
  no_bit single = strip_suffix-digits (codes "bit") (scale_text single) (λ d r h. ground arith)
  no_bit kilo = strip_suffix-digits (codes "bit") (scale_text kilo) (λ d r h. refl)
  no_bit mega = strip_suffix-digits (codes "bit") (scale_text mega) (λ d r h. refl)
  no_bit giga = strip_suffix-digits (codes "bit") (scale_text giga) (λ d r h. refl)
  no_bit tera = strip_suffix-digits (codes "bit") (scale_text tera) (λ d r h. ground arith)

  no_bps : (scale : Scale) → strip_suffix (codes "bps") (c ∷ s ++ scale_text scale) ≡ none
  unfolding strip_prefix is_digit
  no_bps single = strip_suffix-digits (codes "bps") (scale_text single) (λ d r h. ground arith)
  no_bps kilo = strip_suffix-digits (codes "bps") (scale_text kilo) (λ d r h. refl)
  no_bps mega = strip_suffix-digits (codes "bps") (scale_text mega) (λ d r h. refl)
  no_bps giga = strip_suffix-digits (codes "bps") (scale_text giga) (λ d r h. refl)
  no_bps tera = strip_suffix-digits (codes "bps") (scale_text tera) (λ d r h. refl)

  pub no_i : (scale : Scale) → strip_suffix (codes "i") (c ∷ s ++ scale_text scale) ≡ none
  unfolding strip_prefix is_digit
  no_i single = strip_suffix-digits (codes "i") (scale_text single) (λ d r h. ground arith)
  no_i kilo = strip_suffix-digits (codes "i") (scale_text kilo) (λ d r h. refl)
  no_i mega = strip_suffix-digits (codes "i") (scale_text mega) (λ d r h. refl)
  no_i giga = strip_suffix-digits (codes "i") (scale_text giga) (λ d r h. refl)
  no_i tera = strip_suffix-digits (codes "i") (scale_text tera) (λ d r h. refl)

  -- The base of the IEC does not look like a suffix.
  pub no_bit_iec :
      (scale : Scale) (iec : Bool)
      → strip_suffix (codes "bit") (c ∷ s ++ scale_text scale ++ iec_text iec) ≡ none
  unfolding strip_prefix
  no_bit_iec scale true =
      strip_suffix-behind (codes "bit") (c ∷ s ++ scale_text scale) (codes "i") refl
  no_bit_iec scale false = rw (append-nil (c ∷ s ++ scale_text scale)) (no_bit scale)

  pub no_bps_iec :
      (scale : Scale) (iec : Bool)
      → strip_suffix (codes "bps") (c ∷ s ++ scale_text scale ++ iec_text iec) ≡ none
  unfolding strip_prefix
  no_bps_iec scale true =
      strip_suffix-behind (codes "bps") (c ∷ s ++ scale_text scale) (codes "i") refl
  no_bps_iec scale false = rw (append-nil (c ∷ s ++ scale_text scale)) (no_bps scale)

  pub no_letter : (letter : ℕ) → is_digit letter ≡ false → strip_suffix (letter ∷ []) (c ∷ s) ≡ none
  unfolding strip_prefix is_digit
  no_letter letter other =
      rw (← append-nil (c ∷ s)) (strip_suffix-digits (letter ∷ []) [] (λ d r h. ground arith))
