-- ===== src/Wire/Names/Distinct.antt =====
-- The number in the name of an interface, and that it makes the name unique.
use Prim.Native.Char.{code}
use Prim.Native.String
use text.Mathlib.TextLemmas.{nil-append, cons-append}
use kube_dtn.Prelude.{
  ℕ, Bool, zero, suc, ◌+◌, ◌*◌, ◌-◌, ◌/◌, ◌%◌, ◌^◌, ◌≤◌, ◌<◌, ◌≡◌, ◌≢◌, refl, ap, ◌∙◌, String, List,
  [], ◌∷◌, arith, ltb, nat_eq, true, false, if◌then◌else◌, Bool-cases, inl, inr,
}
use kube_dtn.Prelude.Lists.{length}
use kube_dtn.Prelude.Text.{digit, decimal_rounds, decimal}
use kube_dtn.Wire.Table.{Wires, next_index}
use kube_dtn.Wire.Names.{first_chars, pad4, iface_name, signed_name, gen_node_iface_name}

-- The number that is read up to a character; a dash begins a new one.
abbrev read_code : ℕ → ℕ → ℕ
read_code acc c = if nat_eq c 45 then 0 else acc * 10 + (c - 48)

abbrev read : ℕ → String → ℕ
read acc String.[] = acc
read acc (String.◌∷◌ c s) = read (read_code acc (code c)) s

read-append : (acc : ℕ) (s t : String) → read acc (String.◌++◌ s t) ≡ read (read acc s) t
read-append acc String.[] t = rw (nil-append t) refl
read-append acc (String.◌∷◌ c s) t =
    rw (cons-append c s t) (read-append (read_code acc (code c)) s t)

read_chosen :
    (acc : ℕ) (b : Bool) (s t : String) {n : ℕ}
    → (b ≡ true → read acc s ≡ n)
    → (b ≡ false → read acc t ≡ n)
    → read acc (if b then s else t) ≡ n
read_chosen acc true s t f g = f refl
read_chosen acc false s t f g = g refl

-- The digit of `d`, if it is tried for before all others.
module _ (acc d : ℕ) where
  abbrev Reads : String → Type 0
  Reads s = read acc s ≡ acc * 10 + d

  read-digit : d < 10 → Reads (digit d)
  read-digit h =
      read_chosen acc (nat_eq d 0) "0" _ (λ e. ground arith)
        λ n₀.
          read_chosen acc (nat_eq d 1) "1" _ (λ e. ground arith)
            λ n₁.
              read_chosen acc (nat_eq d 2) "2" _ (λ e. ground arith)
                λ n₂.
                  read_chosen acc (nat_eq d 3) "3" _ (λ e. ground arith)
                    λ n₃.
                      read_chosen acc (nat_eq d 4) "4" _ (λ e. ground arith)
                        λ n₄.
                          read_chosen acc (nat_eq d 5) "5" _ (λ e. ground arith)
                            λ n₅.
                              read_chosen acc (nat_eq d 6) "6" _ (λ e. ground arith)
                                λ n₆.
                                  read_chosen acc (nat_eq d 7) "7" _ (λ e. ground arith)
                                    λ n₇.
                                      read_chosen acc (nat_eq d 8) "8" _ (λ e. ground arith)
                                        λ n₈. ground arith

-- The last digit and those before it.
tens : (n acc : ℕ) → acc ≡ n / 10 → acc * 10 + n % 10 ≡ n
tens n acc e = omega (arith, e)

read-decimal_rounds : (rounds n : ℕ) → n < rounds → read 0 (decimal_rounds rounds n) ≡ n
unfolding decimal_rounds
read-decimal_rounds zero n h = absurd (omega (arith, h))
read-decimal_rounds (suc rounds) n h = elim (Bool-cases (ltb n 10)) [
  | inl small ↦ rw small (read-digit 0 n (ground (arith, small)) ∙ omega arith)
  | inr large ↦ rw large (
      read-append 0 (decimal_rounds rounds (n / 10)) (digit (n % 10))
      ∙ read-digit (read 0 (decimal_rounds rounds (n / 10))) (n % 10) (omega arith)
      ∙ tens n (read 0 (decimal_rounds rounds (n / 10))) (
          read-decimal_rounds rounds (n / 10)
            (let low : 10 ≤ n = ground (arith, large) in omega (arith, h, low))))
]

module _ (n : ℕ) where
  abbrev zeros : String
  zeros = if ltb n 10 then "000" else if ltb n 100 then "00" else if ltb n 1000 then "0" else ""

  read-zeros : read 0 zeros ≡ 0
  read-zeros =
      read_chosen 0 (ltb n 10) "000" _ (λ _. refl)
        λ _.
          read_chosen 0 (ltb n 100) "00" _ (λ _. refl)
            λ _. read_chosen 0 (ltb n 1000) "0" "" (λ _. refl) (λ _. refl)

  read-pad4 : read 0 (pad4 n) ≡ n
  unfolding pad4 decimal
  read-pad4 =
      read-append 0 zeros (decimal n)
      ∙ ap (λ acc. read acc (decimal n)) read-zeros
      ∙ read-decimal_rounds (suc n) n (omega arith)

-- The number of a name is what is read behind its dash.
read-iface_name : (pod intf : String) (id : ℕ) → read 0 (iface_name pod intf id) ≡ id
unfolding iface_name
read-iface_name pod intf id =
    read-append 0 (first_chars 5 pod) _
    ∙ read-append _ (first_chars 5 intf) _
    ∙ read-append (read (read 0 (first_chars 5 pod)) (first_chars 5 intf)) "-" (pad4 id)
    ∙ read-pad4 id

-- Calls of GenNodeIfaceName, for their effect.
unfoldable pub gen_names : {Handle : Type 0} → List (String × String) → Wires Handle → Wires Handle
unfolding gen_node_iface_name
gen_names [] w = w
gen_names ((pod, intf) ∷ rest) w = gen_names rest (gen_node_iface_name pod intf w).1

module _ {Handle : Type 0} where
  -- The number goes up by one at each name, as long as it does not wrap.
  curr_id-gen :
      (pod intf : String) (w : Wires Handle)
      → w.curr_id + 1 < 2 ^ 63
      → (gen_node_iface_name pod intf w).1.curr_id ≡ w.curr_id + 1
  unfolding gen_node_iface_name next_index
  curr_id-gen pod intf w h = omega (arith, h)

  curr_id-gen_names :
      (calls : List (String × String)) (w : Wires Handle)
      → w.curr_id + length calls < 2 ^ 63
      → (gen_names calls w).curr_id ≡ w.curr_id + length calls
  unfolding gen_names
  curr_id-gen_names [] w h = omega arith
  curr_id-gen_names ((pod, intf) ∷ rest) w h =
      let one = curr_id-gen pod intf w (omega (arith, h)) in
      let all = curr_id-gen_names rest (gen_node_iface_name pod intf w).1 (omega (arith, h, one)) in
      omega (arith, one, all)

  read-gen :
      (pod intf : String) (w : Wires Handle)
      → w.curr_id + 1 < 2 ^ 63
      → read 0 (gen_node_iface_name pod intf w).0 ≡ w.curr_id + 1
  unfolding gen_node_iface_name next_index signed_name
  read-gen pod intf w h =
      let id : (w.curr_id + 1) % 2 ^ 64 ≡ w.curr_id + 1 = omega (arith, h) in
      let above : ltb (w.curr_id + 1) (2 ^ 63) ≡ true = ground (arith, h) in
      rw (id, above) (read-iface_name pod intf (w.curr_id + 1))

  -- Two calls of GenNodeIfaceName do not give the same name, whatever pods and interfaces they are
  -- for and whatever names are made in between: the number makes the name unique, until its 63 bits
  -- are used up.
  pub gen_node_iface_name-distinct :
      (pod intf pod' intf' : String) (between : List (String × String)) (w : Wires Handle)
      → w.curr_id + length between + 2 < 2 ^ 63
      → (gen_node_iface_name pod intf w).0
        ≢ (gen_node_iface_name pod' intf' (gen_names between (gen_node_iface_name pod intf w).1)).0
  gen_node_iface_name-distinct pod intf pod' intf' between w bound e =
      let w₁ = (gen_node_iface_name pod intf w).1 in
      let one = curr_id-gen pod intf w (omega (arith, bound)) in
      let later = curr_id-gen_names between w₁ (omega (arith, bound, one)) in
      let a = read-gen pod intf w (omega (arith, bound)) in
      let b = read-gen pod' intf' (gen_names between w₁) (omega (arith, bound, one, later)) in
      let s = ap (read 0) e in omega (arith, a, b, s, one, later)
