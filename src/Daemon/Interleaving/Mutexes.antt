-- ===== src/Daemon/Interleaving/Mutexes.antt =====
-- A daemon's mutex for the link is with the one call that is in its part.
use kube_dtn.Prelude.{ℕ, ◌≡◌, ◌↔◌, Option, none, some, arith}
use kube_dtn.Daemon.Interleaving.{
  Pc, started, making, calling, waiting, updating, finished, System, Move, lock_own, fail_device,
  unlock_own, fail_call, reach_peer, lock_peer, unlock_peer, by, Reach, start, later,
}

-- The daemon whose mutex a call has, by where it stands.
abbrev pub held : Pc → ℕ → ℕ → Option ℕ
held making own peer = some own
held updating own peer = some peer
held started own peer = none
held calling own peer = none
held waiting own peer = none
held finished own peer = none

module _ (own peer : ℕ → ℕ) where
  abbrev pub Inv : System → Type 0
  Inv s = (i d : ℕ) → (held (s.pc i) (own i) (peer i) ≡ some d) ↔ (s.holder d ≡ some i)

  Move-Inv : {i : ℕ} {s t : System} → Move own peer i s t → Inv s → Inv t
  Move-Inv {i} {s} (lock_own at free e) inv j d =
      rw e (ground (arith, inv j d, inv i d, inv i (own i), inv j (own i)))
  Move-Inv {i} {s} (fail_device at e) inv j d =
      rw e (ground (arith, inv j d, inv i d, inv i (own i), inv j (own i)))
  Move-Inv {i} {s} (unlock_own at e) inv j d =
      rw e (ground (arith, inv j d, inv i d, inv i (own i), inv j (own i)))
  Move-Inv {i} {s} (fail_call at e) inv j d = rw e (ground (arith, inv j d, inv i d))
  Move-Inv {i} {s} (reach_peer at e) inv j d = rw e (ground (arith, inv j d, inv i d))
  Move-Inv {i} {s} (lock_peer at free e) inv j d =
      rw e (ground (arith, inv j d, inv i d, inv i (peer i), inv j (peer i)))
  Move-Inv {i} {s} (unlock_peer at e) inv j d =
      rw e (ground (arith, inv j d, inv i d, inv i (peer i), inv j (peer i)))

  pub Reach-Inv : {n k : ℕ} {s : System} → Reach own peer n k s → Inv s
  Reach-Inv start = λ i d. ground arith
  Reach-Inv (later r (by i lt mv)) = Move-Inv mv (Reach-Inv r)

  -- In no reachable state are two calls in the part under one daemon's mutex, be it one in
  -- `addLink` and one in `Update`.
  pub mutual_exclusion :
      {n k : ℕ} {s : System}
      → Reach own peer n k s
      → (i j d : ℕ) → held (s.pc i) (own i) (peer i) ≡ some d
      → held (s.pc j) (own j) (peer j) ≡ some d
      → i ≡ j
  mutual_exclusion {s = s} r i j d in_i in_j =
      let inv_i = (Reach-Inv r i d).0 in_i in let inv_j = (Reach-Inv r j d).0 in_j in ground arith
