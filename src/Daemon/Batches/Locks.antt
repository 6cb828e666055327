-- ===== src/Daemon/Batches/Locks.antt =====
-- The link mutexes over a batch of links.
use kube_dtn.Prelude.{
  ◌≡◌, ◌≢◌, refl, ◌∙◌, true, List, [], ◌∷◌, Result, ok, err, panic, and_then, pure, ◌>>◌,
}
use kube_dtn.Prelude.Int.{ℤ}
use kube_dtn.Prelude.Laws.{KeepsCalm}
use kube_dtn.Api.Proto.{PbLink}
use kube_dtn.Platform.{Platform}
use kube_dtn.Daemon.State.{Node, Call}
use kube_dtn.Daemon.Batches.{each_link}

module _ (p : Platform) where
  abbrev view : Node p → List ℤ
  view n = n.locked

  -- A chain that does not panic, of calls that leave the mutexes as they are unless they panic.
  pub chain-KeepsCalm :
      {A B : Type 0} (f : A → Call p B) (before : List ℤ) (r : Result A × Node p)
      → (r.0 ≢ panic → view r.1 ≡ before)
      → ((a : A) → KeepsCalm view (f a))
      → (and_then f r).0 ≢ panic
      → view (and_then f r).1 ≡ before
  chain-KeepsCalm f before (ok a, n) h k calm = k a n calm ∙ h (λ e. cc)
  chain-KeepsCalm f before (err x, n) h k calm = h (λ e. cc)
  chain-KeepsCalm f before (panic, n) h k calm = absurd (calm refl)

  each_link-KeepsCalm :
      (f : PbLink → Call p (Unit {0})) (links : List PbLink)
      → ((link : PbLink) → KeepsCalm view (f link))
      → KeepsCalm view (each_link p f links)
  unfolding each_link
  each_link-KeepsCalm f [] h n calm = refl
  each_link-KeepsCalm f (link ∷ links) h n calm =
      chain-KeepsCalm (λ _. each_link p f links) (view n) (f link n) (h link n)
        (λ _. each_link-KeepsCalm f links h) calm

  -- The same of a handler that goes through all links of its query.
  pub batch-KeepsCalm :
      (f : PbLink → Call p (Unit {0})) (links : List PbLink)
      → ((link : PbLink) → KeepsCalm view (f link))
      → KeepsCalm view (each_link p f links >> pure true)
  batch-KeepsCalm f links h n calm =
      chain-KeepsCalm (λ _. pure true) (view n) (each_link p f links n)
        (each_link-KeepsCalm f links h n) (λ _ k c. refl) calm
