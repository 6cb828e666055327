-- ===== src/Common/Veth/Again.antt =====
-- What a second call of `SetupVeth` does after one that made the pair (common/veth.go).
use kube_dtn.Prelude.{
  ◌≡◌, refl, ap, ◌∙◌, Bool, true, false, ◌&&◌, Option, ok, map_error, wrapped, of_result, ◌>>=◌,
  ◌>>◌,
}
use kube_dtn.Prelude.Laws.{Keeps, Keeps-bind, Keeps-map_error}
use kube_dtn.Api.Proto.{PbLinkProperties}
use kube_dtn.Platform.{Platform, Veth, Do}
use kube_dtn.Common.Context.{Context}
use kube_dtn.Common.Qdisc.Make.{make_qdiscs}
use kube_dtn.Common.Qdisc.Apply.{set_veth_qdiscs}
use kube_dtn.Common.Qdisc.Apply.Quiet.{QuietQdiscs, set_veth_qdiscs-Keeps}
use kube_dtn.Common.Veth.{create_veth, remove_stale, setup_veth}

module _ (p : Platform) where
  -- Does the device exist in its namespace?
  abbrev pub exists : Veth p → p.World → Bool
  exists veth = p.is_exist_link veth.ns_name veth.link_name

  abbrev pub both_exist : Veth p → Veth p → p.World → Bool
  both_exist self peer w = exists self w && exists peer w

  module _ (ctx : Context) (self peer : Veth p) (props : Option PbLinkProperties) where
    -- `SetupVeth` does nothing about a pair that is there.
    setup_existing :
        (w : p.World)
        → both_exist self peer w ≡ true
        → setup_veth p ctx self peer props w ≡ (ok tt, w)
    unfolding setup_veth
    setup_existing w e = rw e refl

    -- What `CreateVeth` does after the pair is made.
    abbrev set_both : Do p (Unit {0})
    set_both = do
      qdiscs ← map_error (wrapped "failed to construct qdiscs") (of_result (make_qdiscs p props))
      map_error (wrapped "failed to set qdiscs on self veth") (set_veth_qdiscs p ctx self qdiscs)
      map_error (wrapped "failed to set qdiscs on peer veth") (set_veth_qdiscs p ctx peer qdiscs)

    module _ {V : Type 0} (view : p.World → V) (h : QuietQdiscs p view) where
      set_both-Keeps : Keeps view set_both
      set_both-Keeps =
          Keeps-bind view
            (map_error (wrapped "failed to construct qdiscs") (of_result (make_qdiscs p props))) _
            (Keeps-map_error view (wrapped "failed to construct qdiscs")
              (of_result (make_qdiscs p props)) (λ w. refl))
            (λ qs.
              Keeps-bind view
                (map_error (wrapped "failed to set qdiscs on self veth")
                  (set_veth_qdiscs p ctx self qs))
                _
                (Keeps-map_error view (wrapped "failed to set qdiscs on self veth")
                  (set_veth_qdiscs p ctx self qs) (set_veth_qdiscs-Keeps p view h ctx self qs))
                (λ _.
                  Keeps-map_error view (wrapped "failed to set qdiscs on peer veth")
                    (set_veth_qdiscs p ctx peer qs) (set_veth_qdiscs-Keeps p view h ctx peer qs)))

    first_call :
        (w made : p.World)
        → exists self w ≡ false
        → exists peer w ≡ false
        → p.make_veth self peer w ≡ (ok tt, made)
        → setup_veth p ctx self peer props w ≡ set_both made
    unfolding setup_veth remove_stale create_veth
    first_call w made i e m = rw (i, e, m) refl

    -- If neither device exists, koko makes the pair, both devices exist then, and the work on
    -- disciplines leaves devices where they are, then after a call of SetupVeth the next one
    -- succeeds and does nothing, also if the first failed to set the disciplines: the link is left
    -- without them.
    pub setup_veth_again :
        (w made : p.World)
        → QuietQdiscs p (both_exist self peer)
        → exists self w ≡ false
        → exists peer w ≡ false
        → p.make_veth self peer w ≡ (ok tt, made)
        → both_exist self peer made ≡ true
        → setup_veth p ctx self peer props (setup_veth p ctx self peer props w).1
          ≡ (ok tt, (setup_veth p ctx self peer props w).1)
    setup_veth_again w made quiet i e m b = setup_existing (setup_veth p ctx self peer props w).1 (
        ap (λ r. both_exist self peer r.1) (first_call w made i e m)
        ∙ set_both-Keeps (both_exist self peer) quiet made
        ∙ b)
