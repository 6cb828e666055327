-- ===== src/Tests/Network.antt =====
-- Rates, disciplines, VNIs and the VXLAN manager at work.
use kube_dtn.Prelude.{
  true, ℕ, ◌≡◌, ◌≢◌, refl, ◌↔◌, ◌<◌, ◌*◌, ◌/◌, ◌^◌, String, none, some, List, [], ◌∷◌, ok,
  if◌then◌else◌, ◌==◌, arith, nat_eq, String_eq,
}
use kube_dtn.Prelude.Int.{pos, ℤ_eq, to_int32}
use kube_dtn.Prelude.Maps.{lookup, insert}
use kube_dtn.Api.{Topology}
use kube_dtn.Api.Proto.{PbLinkProperties}
use kube_dtn.Platform.{Platform, NetemAttrs, Qdisc, netem, tbf, vxlan_kind}
use kube_dtn.Prelude.{ltb, err, message}
use kube_dtn.Prelude.Text.{codes}
use kube_dtn.Prelude.{◌%◌}
use kube_dtn.Common.Rate.Units.{rate_text, mega, bps, bits, base, exponent}
use kube_dtn.Common.Rate.Units.Parse.{parse_trimmed-rate_text}
use kube_dtn.Common.Rate.{parse_trimmed, is_digit, parse_rate, u64}
use kube_dtn.Common.Rate.Value.{all_digits, digits_value}
use kube_dtn.Common.Qdisc.Burst.{max, get_tbf_burst, get_tbf_burst-exact_iff}
use kube_dtn.Common.Qdisc.Make.{make_qdiscs, no_attrs}
use kube_dtn.Common.Qdisc.Make.Shape.{IsRead, IsMade, make_qdiscs-IsMade_iff}
use kube_dtn.Vxlan.Manager.{new_vxlan_manager, get, init, State}
use kube_dtn.Vxlan.Aliasing.{get-init, last_netns}
use kube_dtn.Tests.Lab.{lab, topology}

get_tbf_burst-exact_iff_example :
    (get_tbf_burst 1073741824000 ≡ max 5000 (1073741824000 / 250)) ↔ (1073741824000 < 250 * 2 ^ 32)
get_tbf_burst-exact_iff_example = get_tbf_burst-exact_iff 1073741824000

abbrev properties : PbLinkProperties
properties = record {
  latency = "";
  latency_corr = "";
  jitter = "";
  loss = "";
  loss_corr = "";
  rate = "10Mbit";
  gap = 0;
  duplicate = "";
  duplicate_corr = "";
  reorder_prob = "";
  reorder_corr = "";
  corrupt_prob = "";
  corrupt_corr = "";
}

abbrev no_netem : NetemAttrs ℕ
no_netem = record {
  latency = 0;
  delay_corr = 0;
  jitter = 0;
  loss = 0;
  loss_corr = 0;
  gap = 0;
  duplicate = 0;
  duplicate_corr = 0;
  reorder_prob = 0;
  reorder_corr = 0;
  corrupt_prob = 0;
  corrupt_corr = 0;
}

abbrev disciplines : List (Qdisc ℕ)
disciplines = netem no_attrs no_netem ∷ tbf 10000000 40000 1500 ∷ []

properties-sized : lab.proto_size properties ≢ 0
properties-sized = ground arith

make_qdiscs-IsMade_iff_example : (make_qdiscs lab (some properties) ≡ ok disciplines) ↔ (
    (attrs : NetemAttrs ℕ) × (rate : ℕ) × IsRead lab properties properties-sized attrs
    × (parse_rate "10Mbit" ≡ ok rate)
    × IsMade lab properties properties-sized attrs rate disciplines)
make_qdiscs-IsMade_iff_example = make_qdiscs-IsMade_iff lab properties properties-sized disciplines

-- A node on which the first pod's namespace has a VXLAN device and the second one has none.
abbrev two_pods : Platform
two_pods = record lab {
  link_list = λ ns w. (
    ok (
        if ns == "/run/netns/r1"
        then record { name = "eth1"; index = pos 3; kind = vxlan_kind (pos 5001) (some "10.1.1.2") }
          ∷ []
        else []),
    w,
  );
}

abbrev in_namespace : String → Topology
in_namespace ns =
    let t = topology none none in record t { status = record (t.status) { net_ns = ns } }

abbrev pods : List Topology
pods = in_namespace "/run/netns/r1" ∷ in_namespace "/run/netns/r2" ∷ []

abbrev after_init : State two_pods
after_init = (
  record {
    vxlans = (pos 5001, 0) ∷ [];
    cells = λ q. if nat_eq 0 q then "/run/netns/r2" else if nat_eq 0 q then "/run/netns/r1" else "";
    next = 1;
  },
  [],
)

initialised : init two_pods pods (new_vxlan_manager, []) ≡ (ok tt, after_init)
unfolding init insert to_int32
initialised = refl

read_back : get (pos 5001) (after_init.0) ≡ some "/run/netns/r2"
unfolding get lookup
read_back = refl

get-init_example : "/run/netns/r2" ≡ last_netns "" pods
get-init_example = get-init two_pods pods [] (pos 5001) "/run/netns/r2" initialised read_back

hundred : all_digits (codes "100") ≡ true
unfolding is_digit
hundred = refl

parse_trimmed-rate_text_example : parse_trimmed (rate_text (codes "100") mega true bps) ≡ (
    if ltb (digits_value (codes "100") 0) u64
    then ok (digits_value (codes "100") 0 * (bits bps * base true ^ exponent mega) % u64)
    else err (message "strconv.ParseUint"))
parse_trimmed-rate_text_example = parse_trimmed-rate_text b'1' (codes "00") hundred mega true bps

ten_mbit : parse_rate "10Mbit" ≡ ok 10000000
unfolding parse_rate
ten_mbit = refl

hundred_mbps_test : parse_rate " 100Mbps " ≡ ok 800000000
unfolding parse_rate
hundred_mbps_test = refl

three_tibit_test : parse_rate "3tibit" ≡ ok (3 * 1024 * 1024 * 1024 * 1024)
unfolding parse_rate
three_tibit_test = refl

decimal_test : parse_rate "1.5gbit" ≡ err (message "strconv.ParseUint")
unfolding parse_rate
decimal_test = refl
