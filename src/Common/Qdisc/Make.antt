-- ===== src/Common/Qdisc/Make.antt =====
-- `MakeQdiscs` (common/qdisc.go): from a link's properties to netem and tbf disciplines.
pub mod Shape
use kube_dtn.Prelude.{
  ℕ, String, Bool, Option, none, some, List, [], ◌∷◌, Result, ok, err, panic, nat_eq, if◌then◌else◌,
}
use kube_dtn.Prelude.Int.{pos}
use kube_dtn.Api.Proto.{PbLinkProperties}
use kube_dtn.Platform.{Platform, NetemAttrs, QdiscAttrs, Qdisc, netem, tbf}
use kube_dtn.Common.Rate.{parse_rate}
use kube_dtn.Common.Percent.{parse_float_percentage, parse_duration}
use kube_dtn.Common.Qdisc.Burst.{get_tbf_burst}

-- A check that returns at its error.
infixl 5 ◌>>=◌
abbrev pub ◌>>=◌ : {V W : Type 0} → Result V → (V → Result W) → Result W
panic >>= next = panic
err x >>= next = err x
ok v >>= next = next v

abbrev pub no_attrs : QdiscAttrs
no_attrs = record { link_index = pos 0; parent = 0; handle = 0 }

module _ (p : Platform) where
  -- The arguments of `NewNetem`, each parsed in the order of the source.
  unfoldable pub netem_attrs : PbLinkProperties → Result (NetemAttrs p.Float32)
  unfolding parse_duration parse_float_percentage
  netem_attrs properties = do
    latency ← parse_duration p properties.latency
    latency_corr ← parse_float_percentage p properties.latency_corr
    jitter ← parse_duration p properties.jitter
    loss ← parse_float_percentage p properties.loss
    loss_corr ← parse_float_percentage p properties.loss_corr
    duplicate ← parse_float_percentage p properties.duplicate
    duplicate_corr ← parse_float_percentage p properties.duplicate_corr
    reorder_prob ← parse_float_percentage p properties.reorder_prob
    reorder_corr ← parse_float_percentage p properties.reorder_corr
    corrupt_prob ← parse_float_percentage p properties.corrupt_prob
    corrupt_corr ← parse_float_percentage p properties.corrupt_corr
    ok (record {
      latency = latency;
      delay_corr = latency_corr;
      jitter = jitter;
      loss = loss;
      loss_corr = loss_corr;
      gap = properties.gap;
      duplicate = duplicate;
      duplicate_corr = duplicate_corr;
      reorder_prob = reorder_prob;
      reorder_corr = reorder_corr;
      corrupt_prob = corrupt_prob;
      corrupt_corr = corrupt_corr;
    })

  -- The token bucket filter, if a rate is given.
  abbrev pub tbf_of : ℕ → List (Qdisc p.Float32)
  tbf_of rate = if nat_eq rate 0 then [] else tbf rate (get_tbf_burst rate) 1500 ∷ []

  unfoldable pub make_qdiscs : Option PbLinkProperties → Result (List (Qdisc p.Float32))
  unfolding netem_attrs parse_rate get_tbf_burst
  make_qdiscs none = ok []
  make_qdiscs (some properties) = if nat_eq (p.proto_size properties) 0 then ok [] else (do
    attrs ← netem_attrs properties
    rate ← parse_rate properties.rate
    ok (netem no_attrs attrs ∷ tbf_of rate))
