-- ===== src/Bpf.antt =====
-- The loader of the bypass programs (bpf/main.go). The kernel, cilium's libraries and the loading
-- functions that bpf2go generates are a parameter.
pub mod Outcomes
use kube_dtn.Prelude.{
  ℕ, String, Bool, true, false, Option, none, some, List, [], ◌∷◌, Action, Error, Result, ok, err,
  panic, Outcome, value, error, message, wrapped, pure, fail, crash, gets, attempt, map_error,
  ignore, ◌>>=◌, ◌>>◌, nat_eq, if◌then◌else◌,
}
use Prim.Native.String

abbrev pub maps_root : String
maps_root = "/sys/fs/bpf"

abbrev pub maps_pinpath : String
maps_pinpath = "/sys/fs/bpf/tc/globals"

-- `FilesystemTypeBPFFS`
abbrev pub bpf_fs_magic : ℕ
bpf_fs_magic = 0xcafe4a11

-- What the programs' file holds of maps and programs; nil until it is loaded.
pub record RedirObjects (BpfMap Program : Type 0) : Type 0 where
  pub debug_map : Option BpfMap
  pub map_active_estab : Option BpfMap
  pub map_proxy : Option BpfMap
  pub map_redir : Option BpfMap
  pub bpf_redir_proxy : Option Program

pub record SockopsObjects (BpfMap Program : Type 0) : Type 0 where
  pub debug_map : Option BpfMap
  pub map_active_estab : Option BpfMap
  pub map_proxy : Option BpfMap
  pub map_redir : Option BpfMap
  pub bpf_sockmap : Option Program

pub record Kernel : Type 1 where
  pub World : Type 0
  pub BpfMap : Type 0
  pub Program : Type 0
  pub CgroupLink : Type 0
  pub set_memlock_limit : Action World (Unit {0})
  -- `cgroupv2.Enabled`: both of its results
  pub cgroup_enabled : World → Bool × Option Error
  pub mkdir_all : String → Action World (Unit {0})
  -- What an object is after loading into it, and the error.
  pub load_redir_objects :
      RedirObjects BpfMap Program → World → (RedirObjects BpfMap Program × Option Error) × World
  pub load_sockops_objects :
      SockopsObjects BpfMap Program → World → (SockopsObjects BpfMap Program × Option Error) × World
  pub fd : BpfMap → ℕ
  pub raw_attach : ℕ → Option Program → Action World (Unit {0})
  pub raw_detach : ℕ → Program → Action World (Unit {0})
  pub attach_cgroup : String → Option Program → Action World CgroupLink
  pub close_link : CgroupLink → Action World (Unit {0})
  pub unpin : BpfMap → Action World (Unit {0})
  pub close_map : BpfMap → Action World (Unit {0})
  pub stat : String → Action World (Unit {0})
  pub is_not_exist : Error → Bool
  -- the type of the file system of a path
  pub statfs : String → Action World ℕ
  pub mount_bpf : String → Action World (Unit {0})

module _ (k : Kernel) where
  open k use {World, BpfMap, Program, CgroupLink}

  pub record BypassProgram : Type 0 where
    pub sockops_obj : SockopsObjects BpfMap Program
    pub redir_obj : RedirObjects BpfMap Program
    pub sockops_cgroup : Option CgroupLink

  -- `SetLimit`
  abbrev pub set_limit : Action World (Unit {0})
  set_limit = k.set_memlock_limit

  -- `getCgroupPath`: both of its results
  unfoldable pub get_cgroup_path : World → String × Option Error
  get_cgroup_path w =
      let (enabled, e) = k.cgroup_enabled w in
      (if enabled then "/sys/fs/cgroup" else "/sys/fs/cgroup/unified", e)

  -- The link is nil after an error.
  abbrev pub link_of : Outcome CgroupLink → Option CgroupLink
  link_of (value l) = some l
  link_of (error e) = none

  -- `FD()`, which dereferences the map
  abbrev pub fd_of : Option BpfMap → Action World ℕ
  fd_of none = crash
  fd_of (some m) = pure (k.fd m)

  abbrev pub loading : {A : Type 0} → (World → A × World) → Action World A
  loading f w = let (a, w') = f w in (ok a, w')

  -- The end of `LoadProgram`, inside `if cgroupPath, err := …; err == nil`: its `err` is another
  -- variable than the one that is returned.
  abbrev pub attach_sockops : String × Option Error → BypassProgram → Action World BypassProgram
  attach_sockops (path, some e) prog = pure prog
  attach_sockops (path, none) prog = do
    attached ← attempt (k.attach_cgroup path prog.sockops_obj.bpf_sockmap)
    pure (record prog { sockops_cgroup = link_of attached })

  -- The program that is returned with an error is not used by the caller.
  abbrev pub unless_failed : Option Error → BypassProgram → Action World BypassProgram
  unless_failed none prog = pure prog
  unless_failed (some e) prog = fail e

  -- `LoadProgram` from the socket programs on.
  unfoldable pub load_sockops : BypassProgram → Action World BypassProgram
  unfolding get_cgroup_path
  load_sockops prog = do
    sockops ← loading (k.load_sockops_objects prog.sockops_obj)
    path ← gets get_cgroup_path
    prog' ← attach_sockops path (record prog { sockops_obj = sockops.0 })
    unless_failed sockops.1 prog'

  -- `LoadProgram`
  unfoldable pub load_program : BypassProgram → Action World BypassProgram
  unfolding load_sockops
  load_program prog = do
    ignore (k.mkdir_all maps_pinpath)
    redir ← loading (k.load_redir_objects prog.redir_obj)
    fd ← fd_of redir.0.map_redir
    ignore (k.raw_attach fd redir.0.bpf_redir_proxy)
    load_sockops (record prog { redir_obj = redir.0 })

  abbrev pub close_cgroup : Option CgroupLink → Action World (Unit {0})
  close_cgroup none = pure tt
  close_cgroup (some l) = ignore (k.close_link l)

  abbrev pub detach_redir : Option BpfMap → Option Program → Action World (Unit {0})
  detach_redir target none = pure tt
  detach_redir target (some program) = do fd ← fd_of target; ignore (k.raw_detach fd program)

  abbrev pub release_map : Option BpfMap → Action World (Unit {0})
  release_map none = pure tt
  release_map (some m) = ignore (k.unpin m) >> ignore (k.close_map m)

  -- `CloseProgram`
  unfoldable pub close_program : BypassProgram → Action World (Unit {0})
  close_program prog = do
    close_cgroup prog.sockops_cgroup
    detach_redir prog.redir_obj.map_redir prog.redir_obj.bpf_redir_proxy
    release_map prog.sockops_obj.map_active_estab
    release_map prog.sockops_obj.map_proxy
    release_map prog.sockops_obj.map_redir
    release_map prog.sockops_obj.debug_map

  -- The directory is made if it is not there; any other error of `os.Stat` is passed over.
  abbrev pub make_root : Outcome (Unit {0}) → Action World (Unit {0})
  make_root (value _) = pure tt
  make_root (error e) =
      if k.is_not_exist e
      then map_error (wrapped "unable to create bpf mount directory") (k.mkdir_all maps_root)
      else pure tt

  abbrev pub mount_unless : ℕ → Action World (Unit {0})
  mount_unless fs_type =
      if nat_eq fs_type bpf_fs_magic
      then pure tt
      else map_error (wrapped "failed to mount /sys/fs/bpf") (k.mount_bpf maps_root)

  -- `CheckOrMountBPFFSDefault`
  unfoldable pub check_or_mount : Action World (Unit {0})
  check_or_mount = do
    found ← attempt (k.stat maps_root)
    make_root found
    fs_type ← map_error (wrapped "statfs /sys/fs/bpf") (k.statfs maps_root)
    mount_unless fs_type
