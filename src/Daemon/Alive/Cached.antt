-- ===== src/Daemon/Alive/Cached.antt =====
-- `SetAlive` and the informer's cache, to whose objects it writes.
use kube_dtn.Prelude.{
  ◌≡◌, ◌≢◌, refl, ap, sym, ◌∙◌, ℕ, zero, suc, true, some, List, [], ◌∷◌, ◌++◌, map, Action, Error,
  conflict, ok, err, arith,
}
use mathlib.Core.List.{append_assoc, append-nil}
use kube_dtn.Prelude.{String_eq}
use kube_dtn.Prelude.Maps.{lookup}
use kube_dtn.Prelude.Memory.{replicate}
use kube_dtn.Api.{Topology, Link}
use kube_dtn.Api.Proto.{Pod, PodQuery}
use kube_dtn.Api.Conversion.{to_proto}
use kube_dtn.Platform.{Platform}
use kube_dtn.Metrics.TopologyManager.{topology_key, write}
use kube_dtn.Daemon.State.{Node, Call}
use kube_dtn.Daemon.Topologies.{default_ns, get_pod, from_cache, get, to_proto_pod, update_status}
use kube_dtn.Daemon.Alive.{
  is_alive, finalizer, with_address, with_finalizer, manage, set_status, set_finalizers, set_alive,
}

abbrev pub query_of : Pod → PodQuery
query_of pod = record { name = pod.name; kube_ns = pod.kube_ns }

-- The pod of a topology.
abbrev pub pod_of : Topology → List Link → Pod
pod_of t links = record {
  name = t.name;
  src_ip = t.status.src_ip;
  net_ns = t.status.net_ns;
  kube_ns = t.namespace;
  links = map to_proto links;
}

-- Attempts of a function, whatever comes of them.
abbrev pub attempts : {S : Type 0} → ℕ → Action S (Unit {0}) → S → S
attempts zero f n = n
attempts (suc k) f n = attempts k f (f n).1

module _ (p : Platform) (retry : Call p (Unit {0}) → Call p (Unit {0})) where
  -- `RetryOnConflict` gives up at an error that is no conflict.
  abbrev pub GivesUp : Type 0
  GivesUp =
      (f : Call p (Unit {0})) (n n' : Node p) (e : Error)
      → e ≢ conflict
      → f n ≡ (err e, n')
      → retry f n ≡ (err e, n')

  -- The pointer under which the cache has a pod.
  abbrev pub IsCached : Pod → ℕ → Node p → Type 0
  IsCached pod q n =
      lookup (topology_key (default_ns p pod.kube_ns) pod.name) n.topology_store ≡ some q

  get_pod-cached :
      (pod : Pod) (q : ℕ) (n : Node p)
      → IsCached pod q n
      → get_pod p pod.name pod.kube_ns n ≡ (ok q, n)
  unfolding get_pod from_cache
  get_pod-cached pod q n e = rw (e, from_cache) refl

  -- What is written: to the cache's object, and to the manager.
  abbrev marked : Pod → ℕ → Node p → Node p
  marked pod q n =
      let t = n.heap.object q in
      record (manage p retry (is_alive pod) q t n).1 { heap = write q (with_address pod t) n.heap }

  set_status-cached :
      (pod : Pod) (q : ℕ) (n : Node p)
      → IsCached pod q n
      → set_status p retry pod n
        ≡ update_status p (with_address pod (n.heap.object q)) pod.kube_ns (marked pod q n)
  unfolding set_status
  set_status-cached pod q n e = rw (get_pod-cached pod q n e) refl

  get-cached :
      (pod : Pod) (q : ℕ) (m : Node p) (t : Topology) (links : List Link)
      → IsCached pod q m
      → m.heap.object q ≡ t
      → t.spec.links ≡ some links
      → get p (query_of pod) m ≡ (ok (pod_of t links), m)
  unfolding get to_proto_pod
  get-cached pod q m t links cached held known =
      rw (get_pod-cached pod q m cached, held, known) refl

  object-marked :
      (pod : Pod) (q : ℕ) (n : Node p)
      → (marked pod q n).heap.object q ≡ with_address pod (n.heap.object q)
  unfolding write
  object-marked pod q n = ground arith

  -- If the API refuses the status of a cached pod with an error that is no conflict, then SetAlive
  -- returns that error, but Get answers for the pod with the address that was to be set: the object
  -- of the informer's cache was written before. Retrying must give up at such an error, and the
  -- topology must have links.
  pub set_alive-refused :
      (pod : Pod) (q : ℕ) (n : Node p) (links : List Link) (e : Error) (w : p.World)
      → GivesUp
      → IsCached pod q n
      → (n.heap.object q).spec.links ≡ some links
      → (let t = n.heap.object q in
          let set = record (t.status) { src_ip = pod.src_ip; net_ns = pod.net_ns } in
          p.api_update_status pod.kube_ns (record t { status = set }) n.world ≡ (err e, w))
      → e ≢ conflict
      → (m : Node p) × (set_alive p retry pod n ≡ (err e, m))
        × (get p (query_of pod) m ≡ (
          ok (record (pod_of (n.heap.object q) links) { src_ip = pod.src_ip; net_ns = pod.net_ns }),
          m,
        ))
  unfolding set_alive update_status
  set_alive-refused pod q n links e w gives_up cached known refused other =
      let m : Node p = record (marked pod q n) { world = w } in
      let tried : set_status p retry pod n ≡ (err e, m) =
        set_status-cached pod q n cached ∙ rw refused refl in
      (
        m,
        rw (gives_up (set_status p retry pod) n m e other tried) refl,
        get-cached pod q m (with_address pod (n.heap.object q)) links cached (object-marked pod q n)
            known,
      )

  -- The node after an attempt to set the finalizer: in the cache it is set, and the API was asked.
  abbrev finalized : Pod → ℕ → Node p → Node p
  finalized pod q n =
      let t = with_finalizer (is_alive pod) (n.heap.object q) in
      record n { heap = write q t n.heap; world = (p.api_update pod.kube_ns t n.world).1 }

  set_finalizers-cached :
      (pod : Pod) (q : ℕ) (n : Node p)
      → IsCached pod q n
      → (set_finalizers p retry pod n).1 ≡ finalized pod q n
  unfolding set_finalizers
  set_finalizers-cached pod q n e = rw (get_pod-cached pod q n e) refl

  finalizers-finalized :
      (pod : Pod) (q : ℕ) (n : Node p)
      → is_alive pod ≡ true
      → ((finalized pod q n).heap.object q).finalizers
        ≡ (n.heap.object q).finalizers ++ finalizer ∷ []
  unfolding write
  finalizers-finalized pod q n up = ground (arith, up)

  -- Each attempt to set the finalizer of a cached pod that is up adds it once more: after so many
  -- attempts the object of the informer's cache has it so many times, whatever the API answered.
  pub finalizers-attempts :
      (pod : Pod) (q k : ℕ) (n : Node p)
      → is_alive pod ≡ true
      → IsCached pod q n
      → ((attempts k (set_finalizers p retry pod) n).heap.object q).finalizers
        ≡ (n.heap.object q).finalizers ++ replicate k finalizer
  finalizers-attempts pod q zero n up cached = sym (append-nil (n.heap.object q).finalizers)
  finalizers-attempts pod q (suc k) n up cached =
      ap (λ m. ((attempts k (set_finalizers p retry pod) m).heap.object q).finalizers)
        (set_finalizers-cached pod q n cached)
      ∙ finalizers-attempts pod q k (finalized pod q n) up cached
      ∙ ap (λ fs. fs ++ replicate k finalizer) (finalizers-finalized pod q n up)
      ∙ append_assoc (n.heap.object q).finalizers (finalizer ∷ []) (replicate k finalizer)
