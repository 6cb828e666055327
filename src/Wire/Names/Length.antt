-- ===== src/Wire/Names/Length.antt =====
-- How long the names of interfaces are: Linux takes 15 characters.
use Prim.Native.String
use kube_dtn.Prelude.{
  ℕ, zero, suc, ◌+◌, ◌≤◌, ◌<◌, ◌≡◌, ◌↔◌, refl, ◌∙◌, String, arith, ltb, Bool-cases, inl, inr,
  if◌then◌else◌,
}
use kube_dtn.Prelude.Text.{decimal}
use kube_dtn.Prelude.Sizes.{
  size, length-codes-append, decimal-one, decimal-two, decimal-three, decimal-four, decimal-five,
}
use kube_dtn.Wire.Names.{first_chars, pad4, iface_name}

abbrev padding : ℕ → String
padding n = if ltb n 10 then "000" else if ltb n 100 then "00" else if ltb n 1000 then "0" else ""

module _ (n : ℕ) where
  size-pad4 : size (pad4 n) ≡ size (padding n) + size (decimal n)
  unfolding pad4
  size-pad4 = length-codes-append (padding n) (decimal n)

  pad4-four : n < 10000 → size (pad4 n) ≡ 4
  pad4-four h = size-pad4 ∙ (elim (Bool-cases (ltb n 10)) [
    | inl a ↦ let d = decimal-one n (ground arith) in rw a (omega arith)
    | inr a ↦ elim (Bool-cases (ltb n 100)) [
      | inl b ↦ let d = decimal-two n (ground arith) (ground arith) in rw (a, b) (omega arith)
      | inr b ↦ elim (Bool-cases (ltb n 1000)) [
        | inl c ↦
            let d = decimal-three n (ground arith) (ground arith) in rw (a, b, c) (omega arith)
        | inr c ↦ let d = decimal-four n (ground arith) h in rw (a, b, c) (omega arith)
      ]
    ]
  ])

  pad4-five : 10000 ≤ n → 5 ≤ size (pad4 n)
  pad4-five h = let d = decimal-five n h in let e = size-pad4 in omega arith

first_chars-at_most : (n : ℕ) (s : String) → size (first_chars n s) ≤ n
unfolding first_chars
first_chars-at_most zero s = omega arith
first_chars-at_most (suc n) String.[] = omega arith
first_chars-at_most (suc n) (String.◌∷◌ c s) = omega (arith, first_chars-at_most n s)

first_chars-all : (n : ℕ) (s : String) → n ≤ size s → size (first_chars n s) ≡ n
unfolding first_chars
first_chars-all zero s h = refl
first_chars-all (suc n) String.[] h = absurd (omega arith)
first_chars-all (suc n) (String.◌∷◌ c s) h = omega (arith, first_chars-all n s (omega arith))

module _ (pod_name pod_iface_name : String) (id : ℕ) where
  size-iface_name :
      size (iface_name pod_name pod_iface_name id)
      ≡ size (first_chars 5 pod_name) + size (first_chars 5 pod_iface_name) + 1 + size (pad4 id)
  unfolding iface_name
  size-iface_name = omega (
    arith,
    length-codes-append (first_chars 5 pod_name)
        (String.◌++◌ (first_chars 5 pod_iface_name) (String.◌++◌ "-" (pad4 id))),
    length-codes-append (first_chars 5 pod_iface_name) (String.◌++◌ "-" (pad4 id)),
    length-codes-append "-" (pad4 id),
  )

  fits : id < 10000 → size (iface_name pod_name pod_iface_name id) ≤ 15
  fits h = omega (
    arith,
    size-iface_name,
    pad4-four id h,
    first_chars-at_most 5 pod_name,
    first_chars-at_most 5 pod_iface_name,
  )

  too_long :
      5 ≤ size pod_name
      → 5 ≤ size pod_iface_name
      → 10000 ≤ id
      → 15 < size (iface_name pod_name pod_iface_name id)
  too_long a b h = omega (
    arith,
    size-iface_name,
    pad4-five id h,
    first_chars-all 5 pod_name a,
    first_chars-all 5 pod_iface_name b,
  )

  -- The name of an interface whose pod and interface have at least five characters each fits the
  -- 15 characters of Linux exactly if its number is below 10000.
  pub iface_name-fits_iff :
      5 ≤ size pod_name
      → 5 ≤ size pod_iface_name
      → (size (iface_name pod_name pod_iface_name id) ≤ 15) ↔ (id < 10000)
  iface_name-fits_iff a b = elim (Bool-cases (ltb id 10000)) [
    | inl small ↦ let f = fits (ground arith) in ground arith
    | inr large ↦ let f = too_long a b (ground arith) in ground arith
  ]
