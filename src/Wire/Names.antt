-- ===== src/Wire/Names.antt =====
-- Names of the node's ends of the wires: `GenNodeIfaceName`.
pub mod Length
pub mod Distinct
use Prim.Native.String.{String, [], ◌∷◌, ◌++◌}
use kube_dtn.Prelude.{ℕ, zero, suc, ◌-◌, ◌^◌, ltb, if◌then◌else◌}
use kube_dtn.Prelude.Text.{decimal}
use kube_dtn.Wire.Table.{Wires, next_index}

-- `%.5s`: the first five characters
unfoldable pub first_chars : ℕ → String → String
first_chars zero s = []
first_chars (suc n) [] = []
first_chars (suc n) (c ∷ s) = c ∷ first_chars n s

-- `%04d`: at least four digits
unfoldable pub pad4 : ℕ → String
unfolding decimal
pad4 n =
    (if ltb n 10 then "000" else if ltb n 100 then "00" else if ltb n 1000 then "0" else "")
    ++ decimal n

unfoldable pub iface_name : String → String → ℕ → String
unfolding first_chars pad4
iface_name pod_name pod_iface_name id =
    first_chars 5 pod_name ++ (first_chars 5 pod_iface_name ++ ("-" ++ pad4 id))

-- `%04d` of a number below zero: the sign is one of the four characters.
unfoldable pub pad4_below_zero : ℕ → String
unfolding decimal
pad4_below_zero n = "-" ++ ((if ltb n 10 then "00" else if ltb n 100 then "0" else "") ++ decimal n)

-- The name with a signed number, given by its bits.
unfoldable pub signed_name : String → String → ℕ → String
unfolding iface_name first_chars pad4_below_zero
signed_name pod_name pod_iface_name id =
    if ltb id (2 ^ 63)
    then iface_name pod_name pod_iface_name id
    else first_chars 5 pod_name
      ++ (first_chars 5 pod_iface_name ++ ("-" ++ pad4_below_zero (2 ^ 64 - id)))

-- `GenNodeIfaceName`, whose error is always nil
unfoldable pub gen_node_iface_name :
    {Handle : Type 0} → String → String → Wires Handle → String × Wires Handle
unfolding next_index signed_name
gen_node_iface_name pod_name pod_iface_name w =
    let (id, w') = next_index w in (signed_name pod_name pod_iface_name id, w')
