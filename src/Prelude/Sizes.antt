-- ===== src/Prelude/Sizes.antt =====
-- Lengths of texts.
use Prim.Native.String
use text.Mathlib.TextLemmas.{nil-append, cons-append}
use kube_dtn.Prelude.{
  ℕ, suc, ◌+◌, ◌-◌, ◌/◌, ◌%◌, ◌≤◌, ◌<◌, ◌≡◌, refl, ap, ◌∙◌, String, Bool, true, false, arith, ltb,
  nat_eq, if◌then◌else◌, Bool-cases, inl, inr,
}
use kube_dtn.Prelude.Lists.{length}
use kube_dtn.Prelude.Text.{codes, digit, decimal_rounds, decimal}

abbrev pub size : String → ℕ
size s = length (codes s)

pub length-codes-append :
    (s t : String) → length (codes (String.◌++◌ s t)) ≡ length (codes s) + length (codes t)
length-codes-append String.[] t = rw (nil-append t) (omega arith)
length-codes-append (String.◌∷◌ c s) t =
    rw (cons-append c s t) (omega (arith, length-codes-append s t))

size_chosen :
    (b : Bool) (s t : String) {n : ℕ} → size s ≡ n → size t ≡ n → size (if b then s else t) ≡ n
size_chosen true s t e f = e
size_chosen false s t e f = f

size-digit : (d : ℕ) → size (digit d) ≡ 1
size-digit d = size_chosen (nat_eq d 0) "0" _ refl (
    size_chosen (nat_eq d 1) "1" _ refl (
      size_chosen (nat_eq d 2) "2" _ refl (
        size_chosen (nat_eq d 3) "3" _ refl (
          size_chosen (nat_eq d 4) "4" _ refl (
            size_chosen (nat_eq d 5) "5" _ refl (
              size_chosen (nat_eq d 6) "6" _ refl (
                size_chosen (nat_eq d 7) "7" _ refl
                  (size_chosen (nat_eq d 8) "8" _ refl refl))))))))

module _ (rounds n : ℕ) where
  last_round : n < 10 → size (decimal_rounds (suc rounds) n) ≡ 1
  unfolding decimal_rounds
  last_round h = let small : ltb n 10 ≡ true = ground arith in rw small (size-digit n)

  next_round :
      10 ≤ n → size (decimal_rounds (suc rounds) n) ≡ size (decimal_rounds rounds (n / 10)) + 1
  unfolding decimal_rounds
  next_round h =
      let large : ltb n 10 ≡ false = ground arith in
      rw large (
        omega (
          arith,
          length-codes-append (decimal_rounds rounds (n / 10)) (digit (n % 10)),
          size-digit (n % 10),
        ))

-- How many digits a number has.
decimal_rounds-tens :
    (rounds n : ℕ) → 10 ≤ n → n < 100 → size (decimal_rounds (suc (suc rounds)) n) ≡ 2
decimal_rounds-tens rounds n low high =
    let rest = last_round rounds (n / 10) (omega arith) in
    omega (arith, next_round (suc rounds) n low, rest)

decimal_rounds-hundreds :
    (rounds n : ℕ) → 100 ≤ n → n < 1000 → size (decimal_rounds (suc (suc (suc rounds))) n) ≡ 3
decimal_rounds-hundreds rounds n low high =
    let rest = decimal_rounds-tens rounds (n / 10) (omega arith) (omega arith) in
    omega (arith, next_round (suc (suc rounds)) n (omega arith), rest)

decimal_rounds-thousands :
    (rounds n : ℕ)
    → 1000 ≤ n
    → n < 10000
    → size (decimal_rounds (suc (suc (suc (suc rounds)))) n) ≡ 4
decimal_rounds-thousands rounds n low high =
    let rest = decimal_rounds-hundreds rounds (n / 10) (omega arith) (omega arith) in
    omega (arith, next_round (suc (suc (suc rounds))) n (omega arith), rest)

-- No digit is less than one.
some_digit : (rounds n : ℕ) → 1 ≤ size (decimal_rounds (suc rounds) n)
some_digit rounds n = elim (Bool-cases (ltb n 10)) [
  | inl small ↦ let one = last_round rounds n (ground arith) in omega arith
  | inr large ↦ let more = next_round rounds n (ground arith) in omega arith
]

decimal_rounds-more :
    (rounds n : ℕ) → 10000 ≤ n → 5 ≤ size (decimal_rounds (suc (suc (suc (suc (suc rounds))))) n)
decimal_rounds-more rounds n h =
    let one = some_digit rounds (n / 10 / 10 / 10 / 10) in
    let a = next_round (suc rounds) (n / 10 / 10 / 10) (omega arith) in
    let b = next_round (suc (suc rounds)) (n / 10 / 10) (omega arith) in
    let c = next_round (suc (suc (suc rounds))) (n / 10) (omega arith) in
    let d = next_round (suc (suc (suc (suc rounds)))) n (omega arith) in omega arith

module _ (n : ℕ) where
  -- `decimal` with its rounds written otherwise.
  sized : (rounds : ℕ) → suc n ≡ rounds → size (decimal n) ≡ size (decimal_rounds rounds n)
  unfolding decimal
  sized rounds same = ap (λ r. size (decimal_rounds r n)) same

  pub decimal-one : n < 10 → size (decimal n) ≡ 1
  unfolding decimal
  decimal-one h = last_round n n h

  pub decimal-two : 10 ≤ n → n < 100 → size (decimal n) ≡ 2
  decimal-two low high =
      sized (suc (suc (n - 1))) (omega arith) ∙ decimal_rounds-tens (n - 1) n low high

  pub decimal-three : 100 ≤ n → n < 1000 → size (decimal n) ≡ 3
  decimal-three low high =
      sized (suc (suc (suc (n - 2)))) (omega arith) ∙ decimal_rounds-hundreds (n - 2) n low high

  pub decimal-four : 1000 ≤ n → n < 10000 → size (decimal n) ≡ 4
  decimal-four low high =
      sized (suc (suc (suc (suc (n - 3))))) (omega arith)
      ∙ decimal_rounds-thousands (n - 3) n low high

  pub decimal-five : 10000 ≤ n → 5 ≤ size (decimal n)
  decimal-five h =
      let same = sized (suc (suc (suc (suc (suc (n - 4)))))) (omega arith) in
      let many = decimal_rounds-more (n - 4) n h in omega arith
