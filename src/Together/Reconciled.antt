-- ===== src/Together/Reconciled.antt =====
-- What a Reconcile that succeeds has made of the node.
use kube_dtn.Prelude.{
  ◌≡◌, ◌≢◌, ap, subst, String, Bool, true, some, List, [], ◌∷◌, map, Result, ok, err, panic,
  outcome_of, and_then, attempt, pure, ◌>>=◌, ◌>>◌,
}
use kube_dtn.Prelude.Laws.{bind-eq-ok}
use kube_dtn.Api.{Link, Topology}
use kube_dtn.Api.Proto.{PbLink}
use kube_dtn.Api.Conversion.{to_proto}
use kube_dtn.Platform.{Platform}
use kube_dtn.Common.Context.{background}
use kube_dtn.Controller.{Cluster}
use kube_dtn.Controller.Diff.{Diff, calc_diff}
use kube_dtn.Controller.Reconcile
use kube_dtn.Controller.Reconcile.Laws.{not_equal}
use kube_dtn.Controller.Reconcile.{
  batch_query, from_status, apply_diff, links_of, reconcile, reconcile_found, finish,
  daemon_address,
}
use kube_dtn.Daemon.State.{Node, Call}
use kube_dtn.Daemon.AddLink.{add_link, link_context}
use kube_dtn.Daemon.DelLink.{del_link}
use kube_dtn.Daemon.Batches.{each_link, add_links, del_links, update_links, update_link}
use kube_dtn.Together.{Network, cluster_of, pod_of}

module _ (p : Platform) where
  -- Calls of a handler for links one after the other, each from the state that the one before it
  -- has left, and each with success.
  abbrev pub Run : (PbLink → Call p (Unit {0})) → List Link → Node p → Node p → Type 0
  Run f [] n n' = n ≡ n'
  Run f (l ∷ ls) n n' = (m : Node p) × (f (to_proto l) n ≡ (ok tt, m)) × Run f ls m n'

  each_link-Run :
      (f : PbLink → Call p (Unit {0})) (links : List Link) (n n' : Node p)
      → each_link p f (map to_proto links) n ≡ (ok tt, n')
      → Run f links n n'
  unfolding each_link
  each_link-Run f [] n n' e = ap (λ r. r.1) e
  each_link-Run f (l ∷ ls) n n' e =
      let (_, m, first, rest) =
        bind-eq-ok (f (to_proto l)) (λ _. each_link p f (map to_proto ls)) n e in
      (m, first, each_link-Run f ls m n' rest)

  -- A handler that goes through the links of a query and answers.
  answer-Run :
      (f : PbLink → Call p (Unit {0})) (links : List Link) (n n' : Node p) (b : Bool)
      → (each_link p f (map to_proto links) >> pure true) n ≡ (ok b, n')
      → Run f links n n'
  answer-Run f links n n' b e =
      let (_, m, run, ended) =
        bind-eq-ok (each_link p f (map to_proto links)) (λ _. pure true) n e in
      subst (Run f links n) (ap (λ r. r.1) ended) (each_link-Run f links n m run)

  module _ (net : Network p) (t : Topology) where
    abbrev c : Cluster
    c = cluster_of p net

    -- Nothing for no links; else the daemon at the topology's address is dialled, and does the
    -- calls for all links, which may depend on the state in which it begins.
    abbrev pub Batch : (Node p → PbLink → Call p (Unit {0})) → List Link → Node p → Node p → Type 0
    Batch f [] n n' = n ≡ n'
    Batch f (l ∷ ls) n n' =
        (m : Node p) × (net.dial (daemon_address t.status.src_ip) n ≡ (ok tt, m))
        × Run (f m) (l ∷ ls) m n'

    finish-ok :
        (r : Result Bool × Node p) {n' : Node p}
        → and_then (finish c) (outcome_of r) ≡ (ok tt, n')
        → (b : Bool) × (r ≡ (ok b, n'))
    finish-ok (ok b, n₁) e = (b, ap (λ r. (ok b, r.1)) e)
    finish-ok (err x, n₁) e = absurd (cc)
    finish-ok (panic, n₁) e = absurd (cc)

    -- What the RPC of a batch answers, if its result is returned without an error.
    rpc-ok :
        (rpc : Call p Bool) (n n' : Node p)
        → (do Reconcile.connect_daemon c t.status.src_ip; result ← attempt rpc; finish c result) n
          ≡ (ok tt, n')
        → (m : Node p) × (net.dial (daemon_address t.status.src_ip) n ≡ (ok tt, m))
          × ((b : Bool) × (rpc m ≡ (ok b, n')))
    unfolding Reconcile.connect_daemon
    rpc-ok rpc n n' e =
        let (_, m, dialled, rest) =
          bind-eq-ok (net.dial (daemon_address t.status.src_ip)) (λ _. attempt rpc >>= finish c) n
            e in
        (m, dialled, finish-ok (rpc m) rest)

    del_links-Batch :
        (links : List Link) (n n' : Node p)
        → Reconcile.del_links c t links n ≡ (ok tt, n')
        → Batch (λ _. del_link p (pod_of p t)) links n n'
    unfolding Reconcile.del_links del_links batch_query
    del_links-Batch [] n n' e = ap (λ r. r.1) e
    del_links-Batch (l ∷ ls) n n' e =
        let (m, dialled, (b, r)) = rpc-ok (del_links p (batch_query t (l ∷ ls))) n n' e in
        (m, dialled, answer-Run (del_link p (pod_of p t)) (l ∷ ls) m n' b r)

    add_links-Batch :
        (links : List Link) (n n' : Node p)
        → Reconcile.add_links c t links n ≡ (ok tt, n')
        → Batch (λ _. add_link p background (pod_of p t)) links n n'
    unfolding Reconcile.add_links add_links batch_query
    add_links-Batch [] n n' e = ap (λ r. r.1) e
    add_links-Batch (l ∷ ls) n n' e =
        let (m, dialled, (b, r)) =
          rpc-ok (add_links p background (batch_query t (l ∷ ls))) n n' e in
        (m, dialled, answer-Run (add_link p background (pod_of p t)) (l ∷ ls) m n' b r)

    update_links-Batch :
        (links : List Link) (n n' : Node p)
        → Reconcile.update_links c t links n ≡ (ok tt, n')
        → Batch (λ m. update_link p (link_context p background m) (pod_of p t)) links n n'
    unfolding Reconcile.update_links update_links batch_query
    update_links-Batch [] n n' e = ap (λ r. r.1) e
    update_links-Batch (l ∷ ls) n n' e =
        let (m, dialled, (b, r)) =
          rpc-ok (update_links p background (batch_query t (l ∷ ls))) n n' e in
        (
          m,
          dialled,
          answer-Run (update_link p (link_context p background m) (pod_of p t)) (l ∷ ls) m n' b r,
        )

    -- From one state of the node to another, the links that are not wanted any more are deleted,
    -- then the new ones are added, then those with other properties are updated.
    pub record IsApplied (d : Diff) (n n' : Node p) : Type 0 where
      pub without : Node p
      pub with_new : Node p
      pub deleted : Batch (λ _. del_link p (pod_of p t)) d.del n without
      pub added : Batch (λ _. add_link p background (pod_of p t)) d.add without with_new
      pub updated :
          Batch
            (λ m. update_link p (link_context p background m) (pod_of p t))
            d.properties_changed
            with_new
            n'

    apply_diff-IsApplied :
        (d : Diff) (n n' : Node p) → apply_diff c t d n ≡ (ok tt, n') → IsApplied d n n'
    unfolding apply_diff
    apply_diff-IsApplied d n n' e =
        let (_, n₁, dels, rest) =
          bind-eq-ok (Reconcile.del_links c t d.del)
            (λ _. Reconcile.add_links c t d.add >> Reconcile.update_links c t d.properties_changed)
            n e in
        let (_, n₂, adds, updates) =
          bind-eq-ok (Reconcile.add_links c t d.add)
            (λ _. Reconcile.update_links c t d.properties_changed) n₁ rest in
        record {
          without = n₁;
          with_new = n₂;
          deleted = del_links-Batch d.del n n₁ dels;
          added = add_links-Batch d.add n₁ n₂ adds;
          updated = update_links-Batch d.properties_changed n₂ n' updates;
        }

    -- A Reconcile that succeeds, of a topology whose status has links that differ from those of the
    -- spec, goes from the node that it has read the topology of, by the calls of delLink, addLink
    -- and the update, all with success and each from the state that the last one left, for the links
    -- that CalcDiff wants deleted, added and changed, in this order, to a node from which the
    -- writing of the status, retried, leads to the last one. The daemon that answers is one node.
    pub reconcile-IsApplied :
        (namespace name : String) (n n₁ n' : Node p) (old : List Link)
        → c.get_topology namespace name n ≡ (ok t, n₁)
        → t.status.links ≡ some old
        → t.status.links ≢ t.spec.links
        → reconcile c namespace name n ≡ (ok tt, n')
        → (n₂ : Node p) × IsApplied (calc_diff old (links_of c t.spec.links)) n₁ n₂
          × (net.retry_on_conflict (Reconcile.copy_links c namespace name) n₂ ≡ (ok tt, n'))
    unfolding reconcile reconcile_found from_status
    reconcile-IsApplied namespace name n n₁ n' old got known differ done =
        let run = rw (got, not_equal c namespace name t differ) at done in
        let (u, n₂, applied, copied) =
          bind-eq-ok (from_status c t t.status.links)
            (λ _. c.retry_on_conflict (Reconcile.copy_links c namespace name)) n₁ run in
        (
          n₂,
          apply_diff-IsApplied (calc_diff old (links_of c t.spec.links)) n₁ n₂
              (subst (λ o. from_status c t o n₁ ≡ (ok u, n₂)) known applied),
          copied,
        )
