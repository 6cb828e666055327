-- ===== src/Common/Vni.antt =====
-- VXLAN identifiers and link identifiers (common/utils.go).
use kube_dtn.Prelude.{◌≡◌, arith}
use kube_dtn.Prelude.Int.{ℤ, pos, negsuc, ◌+ℤ◌, ◌-ℤ◌, to_int32}

abbrev pub vxlan_base : ℤ
vxlan_base = pos 5000

-- `int32(VxlanBase + uid)`; the sum is taken in 64 bits
unfoldable pub get_vni_from_uid : ℤ → ℤ
unfolding to_int32
get_vni_from_uid uid = to_int32 (vxlan_base +ℤ uid)

-- `int64(vni - VxlanBase)`; the difference is taken in 32 bits
unfoldable pub get_uid_from_vni : ℤ → ℤ
unfolding to_int32
get_uid_from_vni vni = to_int32 (vni -ℤ vxlan_base)

-- A link's identifier comes back from its VNI up to the truncation to 32 bits.
get_uid-get_vni : (uid : ℤ) → get_uid_from_vni (get_vni_from_uid uid) ≡ to_int32 uid
unfolding get_uid_from_vni get_vni_from_uid
get_uid-get_vni (pos n) = ground arith
get_uid-get_vni (negsuc n) = ground arith
