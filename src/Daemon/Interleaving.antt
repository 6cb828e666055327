-- ===== src/Daemon/Interleaving.antt =====
-- Several calls of `addLink` for one link, on several daemons at once (daemon/kubedtn/handler.go). A
-- call makes the link's VXLAN device under its own daemon's mutex, gives it back, and calls `Update`
-- of the peer's daemon, which takes that daemon's mutex. Between any two of these steps another
-- call may run. Calls and daemons are numbers.
pub mod Mutexes
pub mod Progress
use kube_dtn.Prelude.{ℕ, suc, ◌<◌, ◌≡◌, Option, none, some, nat_eq, if◌then◌else◌}

-- Where a call stands: before its lock, making the device under the lock, at the call of the peer,
-- waiting for the peer's lock in the peer's `Update`, under that lock, returned.
pub data Pc : Type 0 where
  started making calling waiting updating finished : Pc

-- Where each call stands, and which call has each daemon's mutex for the link.
pub record System : Type 0 where
  pub pc : ℕ → Pc
  pub holder : ℕ → Option ℕ

abbrev pub put : {A : Type 0} → (ℕ → A) → ℕ → A → ℕ → A
put f i a j = if nat_eq i j then a else f j

-- `own` is the daemon of a call, `peer` the one that it calls.
module _ (own peer : ℕ → ℕ) where
  -- A step of the call `i`.
  pub data Move (i : ℕ) (s t : System) : Type 0 where
    -- `mutex.Lock()` in `addLink`
    lock_own :
        s.pc i ≡ started
        → s.holder (own i) ≡ none
        → t ≡ record { pc = put s.pc i making; holder = put s.holder (own i) (some i) }
        → Move i s t
    -- `SetupVxLan` fails: `mutex.Unlock(); return err`
    fail_device :
        s.pc i ≡ making
        → t ≡ record { pc = put s.pc i finished; holder = put s.holder (own i) none }
        → Move i s t
    -- the device is made: `mutex.Unlock()` in advance
    unlock_own :
        s.pc i ≡ making
        → t ≡ record { pc = put s.pc i calling; holder = put s.holder (own i) none }
        → Move i s t
    -- `UpdateRemote` does not reach the peer
    fail_call : s.pc i ≡ calling → t ≡ record s { pc = put s.pc i finished } → Move i s t
    -- it does: the peer's `Update` is at its lock
    reach_peer : s.pc i ≡ calling → t ≡ record s { pc = put s.pc i waiting } → Move i s t
    -- `mutex.Lock()` in `Update`
    lock_peer :
        s.pc i ≡ waiting
        → s.holder (peer i) ≡ none
        → t ≡ record { pc = put s.pc i updating; holder = put s.holder (peer i) (some i) }
        → Move i s t
    -- `defer mutex.Unlock()` in `Update`, which answers; `addLink` returns
    unlock_peer :
        s.pc i ≡ updating
        → t ≡ record { pc = put s.pc i finished; holder = put s.holder (peer i) none }
        → Move i s t

  -- One of the first `n` calls makes a step.
  pub data Step (n : ℕ) (s t : System) : Type 0 where
    by : (i : ℕ) → i < n → Move i s t → Step n s t

  abbrev pub initial : System
  initial = record { pc = λ i. started; holder = λ d. none }

  -- What is reached from the start in so many steps.
  pub data Reach (n : ℕ) : ℕ → System → Type 0 where
    start : Reach n 0 initial
    later : {k : ℕ} {s t : System} → Reach n k s → Step n s t → Reach n (suc k) t
