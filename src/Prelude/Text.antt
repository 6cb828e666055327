-- ===== src/Prelude/Text.antt =====
-- What the code uses of Go's `strings` and `strconv`, on native texts.
use Prim.Native.Nat.{ℕ, zero, suc, ◌/◌, ◌%◌}
use Prim.Native.Char.{code}
use Prim.Native.String.{String, [], ◌∷◌, ◌++◌}
use mathlib.Core.Bool.{Bool, true, false, ◌||◌}
use mathlib.Core.Option.{Option, none, some}
use mathlib.Core.List.{List}
use kube_dtn.Prelude.Tests.{String_eq, ltb, nat_eq, if◌then◌else◌}

-- The code points of a text, one for each byte of an ASCII text.
abbrev pub codes : String → List ℕ
codes [] = List.[]
codes (c ∷ s) = List.◌∷◌ (code c) (codes s)

-- What stands behind a prefix, if the text has it.
unfoldable pub after_prefix : String → String → Option String
after_prefix [] s = some s
after_prefix (p ∷ ps) [] = none
after_prefix (p ∷ ps) (c ∷ s) = if nat_eq (code p) (code c) then after_prefix ps s else none

abbrev pub is_some : {A : Type 0} → Option A → Bool
is_some none = false
is_some (some _) = true

abbrev pub value_or : {A : Type 0} → A → Option A → A
value_or d none = d
value_or d (some a) = a

-- `strings.HasPrefix`, `strings.TrimPrefix`
abbrev pub has_prefix : String → String → Bool
has_prefix s p = is_some (after_prefix p s)

abbrev pub trim_prefix : String → String → String
trim_prefix s p = value_or s (after_prefix p s)

-- `strings.Contains`
unfoldable pub contains_text : String → String → Bool
contains_text [] p = is_some (after_prefix p [])
contains_text (c ∷ s) p = is_some (after_prefix p (c ∷ s)) || contains_text s p

-- `fmt.Sprint` of a number: its decimal digits. Each round divides by ten, so one round more than
-- the number is enough.
abbrev pub digit : ℕ → String
digit d =
    if nat_eq d 0
    then "0"
    else if nat_eq d 1
    then "1"
    else if nat_eq d 2
    then "2"
    else if nat_eq d 3
    then "3"
    else if nat_eq d 4
    then "4"
    else if nat_eq d 5
    then "5"
    else if nat_eq d 6
    then "6"
    else if nat_eq d 7
    then "7"
    else if nat_eq d 8
    then "8"
    else "9"

unfoldable pub decimal_rounds : ℕ → ℕ → String
decimal_rounds zero n = ""
decimal_rounds (suc rounds) n =
    let rest = decimal_rounds rounds (n / 10) in
    if ltb n 10 then digit n else rest ++ digit (n % 10)

unfoldable pub decimal : ℕ → String
unfolding decimal_rounds
decimal n = decimal_rounds (suc n) n
