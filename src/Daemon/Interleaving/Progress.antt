-- ===== src/Daemon/Interleaving/Progress.antt =====
-- No deadlock, and all calls can return.
use kube_dtn.Prelude.{
  ℕ, zero, suc, ◌+◌, ◌*◌, ◌≤◌, ◌<◌, ◌≡◌, ◌≢◌, refl, none, some, arith, Option-cases, ◌⊎◌, inl, inr,
  ap, ◌∙◌,
}
use native.Mathlib.Decide.{dec_lt}
use kube_dtn.Daemon.Interleaving.{
  Pc, started, making, calling, waiting, updating, finished, System, put, Move, lock_own,
  fail_device, unlock_own, fail_call, reach_peer, lock_peer, unlock_peer, Step, by, initial, Reach,
  start, later,
}
use kube_dtn.Daemon.Interleaving.Mutexes.{held, Reach-Inv}

-- The steps that a call has left at most.
abbrev pub left : Pc → ℕ
left started = 5
left making = 4
left calling = 3
left waiting = 2
left updating = 1
left finished = 0

abbrev pub total : ℕ → (ℕ → Pc) → ℕ
total zero pc = 0
total (suc n) pc = total n pc + left (pc n)

total-put_of_le : (n : ℕ) (pc : ℕ → Pc) (i : ℕ) (p : Pc) → n ≤ i → total n (put pc i p) ≡ total n pc
total-put_of_le zero pc i p h = refl
total-put_of_le (suc n) pc i p h = ground (arith, total-put_of_le n pc i p)

total-put :
    (n : ℕ) (pc : ℕ → Pc) (i : ℕ) (p : Pc)
    → i < n
    → total n (put pc i p) + left (pc i) ≡ total n pc + left p
total-put zero pc i p h = absurd (omega arith)
total-put (suc n) pc i p h = ground (arith, total-put n pc i p, total-put_of_le n pc i p)

module _ (own peer : ℕ → ℕ) where
  Move-total : {n i : ℕ} {s t : System} → i < n → Move own peer i s t → total n t.pc < total n s.pc
  Move-total {n} {i} {s} lt (lock_own at free e) = rw e (ground (arith, total-put n s.pc i making))
  Move-total {n} {i} {s} lt (fail_device at e) = rw e (ground (arith, total-put n s.pc i finished))
  Move-total {n} {i} {s} lt (unlock_own at e) = rw e (ground (arith, total-put n s.pc i calling))
  Move-total {n} {i} {s} lt (fail_call at e) = rw e (ground (arith, total-put n s.pc i finished))
  Move-total {n} {i} {s} lt (reach_peer at e) = rw e (ground (arith, total-put n s.pc i waiting))
  Move-total {n} {i} {s} lt (lock_peer at free e) =
      rw e (ground (arith, total-put n s.pc i updating))
  Move-total {n} {i} {s} lt (unlock_peer at e) = rw e (ground (arith, total-put n s.pc i finished))

  total-initial : (n : ℕ) → total n (initial own peer).pc ≡ 5 * n
  total-initial zero = refl
  total-initial (suc n) = omega (arith, total-initial n)

  Reach-total : {n k : ℕ} {s : System} → Reach own peer n k s → k + total n s.pc ≤ 5 * n
  Reach-total {n} start = omega (arith, total-initial n)
  Reach-total (later r (by i lt mv)) = omega (arith, Reach-total r, Move-total lt mv)

  Move-outside :
      {i j : ℕ} {s t : System} → i ≢ j → Move own peer i s t → s.pc j ≡ started → t.pc j ≡ started
  Move-outside ne (lock_own at free e) h = rw e (ground arith)
  Move-outside ne (fail_device at e) h = rw e (ground arith)
  Move-outside ne (unlock_own at e) h = rw e (ground arith)
  Move-outside ne (fail_call at e) h = rw e (ground arith)
  Move-outside ne (reach_peer at e) h = rw e (ground arith)
  Move-outside ne (lock_peer at free e) h = rw e (ground arith)
  Move-outside ne (unlock_peer at e) h = rw e (ground arith)

  -- No other calls than the first `n` have begun.
  Reach-outside : {n k : ℕ} {s : System} → Reach own peer n k s → (j : ℕ) → n ≤ j → s.pc j ≡ started
  Reach-outside start = λ j h. refl
  Reach-outside (later r (by i lt mv)) =
      λ j h. Move-outside (λ e. omega arith) mv (Reach-outside r j h)

  -- A call that has a mutex is not held up.
  holder_moves :
      (s : System) (j d : ℕ) (p : Pc)
      → s.pc j ≡ p
      → held p (own j) (peer j) ≡ some d
      → (t : System) × Move own peer j s t
  holder_moves s j d started at h = absurd (cc)
  holder_moves s j d making at h = (_, unlock_own at refl)
  holder_moves s j d calling at h = absurd (cc)
  holder_moves s j d waiting at h = absurd (cc)
  holder_moves s j d updating at h = (_, unlock_peer at refl)
  holder_moves s j d finished at h = absurd (cc)

  module _ {n k : ℕ} {s : System} (r : Reach own peer n k s) where
    -- A mutex is free, or the call that has it makes a step.
    free_or_moves : (d : ℕ) → (s.holder d ≡ none) ⊎ ((t : System) × Step own peer n s t)
    free_or_moves d = elim (Option-cases (s.holder d)) [
      | inl free ↦ inl free
      | inr (j, e) ↦
          let has = (Reach-Inv own peer r j d).1 e in
          let (t, mv) = holder_moves s j d (s.pc j) refl has in inr (t, by j (inside j has) mv)
    ]
      where
        inside : (j : ℕ) → held (s.pc j) (own j) (peer j) ≡ some d → j < n
        inside j has = elim (dec_lt j n) [
          | yes lt ↦ lt
          | no ge ↦ let out = Reach-outside r j (omega arith) in absurd (cc (rw out at has))
        ]

    call_moves :
        (i : ℕ) (p : Pc) → i < n → s.pc i ≡ p → p ≢ finished → (t : System) × Step own peer n s t
    call_moves i started lt at h = elim (free_or_moves (own i)) [
      | inl free ↦ (_, by i lt (lock_own at free refl))
      | inr moved ↦ moved
    ]
    call_moves i making lt at h = (_, by i lt (unlock_own at refl))
    call_moves i calling lt at h = (_, by i lt (reach_peer at refl))
    call_moves i waiting lt at h = elim (free_or_moves (peer i)) [
      | inl free ↦ (_, by i lt (lock_peer at free refl))
      | inr moved ↦ moved
    ]
    call_moves i updating lt at h = (_, by i lt (unlock_peer at refl))
    call_moves i finished lt at h = absurd (h refl)

  -- No deadlock: while a call has not returned, some call can make a step, also if daemons call
  -- one another at the same time, in a circle or a daemon itself.
  pub no_deadlock :
      (n k : ℕ) (s : System) (i : ℕ)
      → Reach own peer n k s
      → i < n
      → s.pc i ≢ finished
      → (t : System) × Step own peer n s t
  no_deadlock n k s i r lt busy = call_moves r i (s.pc i) lt refl busy

  -- Steps of the first `n` calls from one state to another.
  pub data Goes (n : ℕ) : System → System → Type 0 where
    there : {s : System} → Goes n s s
    further : {s t u : System} → Step own peer n s t → Goes n t u → Goes n s u

  finished_or_not : (p : Pc) → (p ≡ finished) ⊎ (p ≢ finished)
  finished_or_not started = inr (λ e. cc)
  finished_or_not making = inr (λ e. cc)
  finished_or_not calling = inr (λ e. cc)
  finished_or_not waiting = inr (λ e. cc)
  finished_or_not updating = inr (λ e. cc)
  finished_or_not finished = inl refl

  -- All of the first calls have returned, or one has not.
  unfinished :
      (n : ℕ) (pc : ℕ → Pc)
      → ((i : ℕ) → i < n → pc i ≡ finished) ⊎ ((i : ℕ) × (i < n) × (pc i ≢ finished))
  unfinished zero pc = inl (λ i lt. absurd (omega (arith, lt)))
  unfinished (suc n) pc = elim (unfinished n pc) [
    | inr (i, lt, busy) ↦ inr (i, omega (arith, lt), busy)
    | inl all ↦ elim (finished_or_not (pc n)) [
      | inr busy ↦ inr (n, omega arith, busy)
      | inl last ↦ inl (λ i lt. elim (dec_lt i n) [
        | yes below ↦ all i below
        | no above ↦ let same : i ≡ n = omega (arith, lt, above) in ap pc same ∙ last
      ])
    ]
  ]

  Step-total : {n : ℕ} {s t : System} → Step own peer n s t → total n t.pc < total n s.pc
  Step-total (by i lt mv) = Move-total lt mv

  run_on :
      (m n k : ℕ) (s : System)
      → total n s.pc ≤ m
      → Reach own peer n k s
      → (t : System) × Goes n s t × ((i : ℕ) → i < n → t.pc i ≡ finished)
  run_on zero n k s bound r = elim (unfinished n s.pc) [
    | inl all ↦ (s, there, all)
    | inr (i, lt, busy) ↦
        let (t, step) = no_deadlock n k s i r lt busy in
        absurd (omega (arith, Step-total step, bound))
  ]
  run_on (suc m) n k s bound r = elim (unfinished n s.pc) [
    | inl all ↦ (s, there, all)
    | inr (i, lt, busy) ↦
        let (t, step) = no_deadlock n k s i r lt busy in
        let (u, rest, all) =
          run_on m n (suc k) t (omega (arith, Step-total step, bound)) (later r step) in
        (u, further step rest, all)
  ]

  -- From every state that calls of addLink on several daemons reach, steps of these calls lead to
  -- one in which all of them have returned, also if daemons call one another at the same time.
  pub calls_return :
      (n k : ℕ) (s : System)
      → Reach own peer n k s
      → (t : System) × Goes n s t × ((i : ℕ) → i < n → t.pc i ≡ finished)
  calls_return n k s r = run_on (total n s.pc) n k s (omega arith) r
