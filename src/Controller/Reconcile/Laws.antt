-- ===== src/Controller/Reconcile/Laws.antt =====
-- What a call of `Reconcile` does, by how its parts end.
use kube_dtn.Prelude.{
  ◌≡◌, ◌≢◌, refl, ap, subst, ◌⊎◌, inl, inr, String, false, List, ◌∷◌, Action, Result, ok, err,
  panic, not_found, conflict, and_then, Bool-cases, Outcome, value, error, outcome_of, Error,
  option_test_iff, list_eq,
}
use kube_dtn.Prelude.Laws.{bind-eq-ok}
use kube_dtn.Api.{Link, Topology}
use kube_dtn.Api.Equality.{links_deep_equal, Link_eq}
use kube_dtn.Controller.{Cluster}
use kube_dtn.Controller.Reconcile.{
  add_links, del_links, update_links, from_status, reconcile_found, copy_links, reconcile,
  with_spec_links, ignore_not_found, batch_query, connect_daemon,
}

-- What `RetryOnConflict` documents: it calls the function, again after a conflict if it likes, and
-- returns what the last call returned.
pub data Attempts {S : Type 0} (f : Action S (Unit {0})) : S → Result (Unit {0}) × S → Type 0 where
  last : {s : S} {r : Result (Unit {0}) × S} → f s ≡ r → Attempts f s r
  again :
      {s s₁ : S} {r : Result (Unit {0}) × S}
      → f s ≡ (err conflict, s₁)
      → Attempts f s₁ r
      → Attempts f s r

abbrev pub Retries : Cluster → Type 0
Retries c = (f : Action c.World (Unit {0})) (w : c.World) → Attempts f w (c.retry_on_conflict f w)

module _ {S : Type 0} (f : Action S (Unit {0})) where
  -- the call that was the last
  Attempts-last : {s : S} {r : Result (Unit {0}) × S} → Attempts f s r → (s₁ : S) × (f s₁ ≡ r)
  Attempts-last (last {s} e) = (s, e)
  Attempts-last (again e rest) = Attempts-last rest

module _ (c : Cluster) (namespace name : String) where
  -- If the links of status and spec are equal already, one read is all that happens.
  pub reconcile_unchanged :
      (t : Topology) (w w₁ : c.World)
      → c.get_topology namespace name w ≡ (ok t, w₁)
      → t.status.links ≡ t.spec.links
      → reconcile c namespace name w ≡ (ok tt, w₁)
  unfolding reconcile
  reconcile_unchanged t w w₁ got same =
      let equal = (option_test_iff t.status.links t.spec.links).1 same in rw (got, equal)

  pub not_equal :
      (t : Topology)
      → t.status.links ≢ t.spec.links
      → links_deep_equal t.status.links t.spec.links ≡ false
  not_equal t differ = elim (Bool-cases (links_deep_equal t.status.links t.spec.links)) [
    | inl same ↦ absurd (differ ((option_test_iff t.status.links t.spec.links).0 same))
    | inr other ↦ other
  ]

  -- Where links of the status and the spec differ, a failure of the deletions, additions or
  -- updates ends the call with that error: the status is not written.
  reconcile_failing :
      (t : Topology) (w w₁ w₂ : c.World) (e : Error)
      → c.get_topology namespace name w ≡ (ok t, w₁)
      → t.status.links ≢ t.spec.links
      → from_status c t t.status.links w₁ ≡ (err e, w₂)
      → reconcile c namespace name w ≡ (err e, w₂)
  unfolding reconcile reconcile_found
  reconcile_failing t w w₁ w₂ e got differ failed = rw (got, not_equal t differ, failed)

  -- In the API: the links of the spec were written to the status of the topology as it was read
  -- last, or the topology is gone.
  abbrev pub IsCopied : c.World → Type 0
  IsCopied w =
      (w₁ : c.World) × ((c.get_topology namespace name w₁ ≡ (err not_found, w))
        ⊎ ((t : Topology) × (w₂ : c.World) × (c.get_topology namespace name w₁ ≡ (ok t, w₂))
            × (c.update_status (record t { status = record (t.status) { links = t.spec.links } }) w₂
                ≡ (ok tt, w))))

  IsCopied-from :
      (w : c.World) (w₁ : c.World) (r : Result Topology × c.World)
      → c.get_topology namespace name w₁ ≡ r
      → and_then
          (λ (found : Outcome Topology). elim found [
            | error e ↦ ignore_not_found e
            | value topology ↦ c.update_status (with_spec_links c topology)
          ])
          (outcome_of r)
        ≡ (ok tt, w)
      → IsCopied w
  IsCopied-from w w₁ (ok t, w₂) got e = (w₁, inr (t, w₂, got, e))
  IsCopied-from w w₁ (err not_found, w₂) got e =
      let same : w₂ ≡ w = ap (λ (r : Result (Unit {0}) × c.World). r.1) e in
      (w₁, inl (subst (λ x. c.get_topology namespace name w₁ ≡ (err not_found, x)) same got))
  IsCopied-from w w₁ (err x, w₂) got e = absurd (cc)
  IsCopied-from w w₁ (panic, w₂) got e = absurd (cc)

  -- If retrying calls the function until its last result is returned, then a call that succeeds
  -- for a topology whose links differ has written the links of the spec to its status, or the
  -- topology is gone.
  pub reconcile_copies :
      (t : Topology) (w w₁ w' : c.World)
      → Retries c
      → c.get_topology namespace name w ≡ (ok t, w₁)
      → t.status.links ≢ t.spec.links
      → reconcile c namespace name w ≡ (ok tt, w')
      → IsCopied w'
  unfolding reconcile reconcile_found copy_links
  reconcile_copies t w w₁ w' retries got differ done =
      let run = rw (got, not_equal t differ) at done in
      let (_, w₂, applied, copied) =
        bind-eq-ok (from_status c t t.status.links)
          (λ _. c.retry_on_conflict (copy_links c namespace name)) w₁ run in
      let tried =
        subst (Attempts (copy_links c namespace name) w₂) copied
          (retries (copy_links c namespace name) w₂) in
      let (s₁, final) = Attempts-last (copy_links c namespace name) tried in
      IsCopied-from w' s₁ (c.get_topology namespace name s₁) refl final

-- If the daemon is reached and answers each of the three calls with false and no error, then all
-- three succeed.
refused_passes :
    (c : Cluster) (t : Topology) (l : Link) (ls : List Link) (w w₁ w₂ : c.World)
    → connect_daemon c t.status.src_ip w ≡ (ok tt, w₁)
    → c.add_links_rpc t.status.src_ip (batch_query t (l ∷ ls)) w₁ ≡ (ok false, w₂)
    → c.del_links_rpc t.status.src_ip (batch_query t (l ∷ ls)) w₁ ≡ (ok false, w₂)
    → c.update_links_rpc t.status.src_ip (batch_query t (l ∷ ls)) w₁ ≡ (ok false, w₂)
    → (add_links c t (l ∷ ls) w ≡ (ok tt, w₂))
      × (del_links c t (l ∷ ls) w ≡ (ok tt, w₂))
      × (update_links c t (l ∷ ls) w ≡ (ok tt, w₂))
unfolding add_links del_links update_links
refused_passes c t l ls w w₁ w₂ dialled added deleted updated =
    (rw (dialled, added) refl, rw (dialled, deleted) refl, rw (dialled, updated) refl)
