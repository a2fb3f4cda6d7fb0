-- ===== src/Sync.antt =====
-- How the process that starts a container and its child wait for one another: lxc/sync.c, with
-- the calls that lxc_spawn and do_start (lxc/start.c) and lxc_setup (lxc/conf.c) make of it.
pub mod Agreed
pub mod Progress
pub mod Ordered
mod Tests
use lxc.Base.{
  ℕ, ◌+◌, ◌≡◌, List, [], ◌∷◌, ◌++◌, Bool, true, false, if◌then◌else◌, Option, none, some, ℤ, pos,
  negsuc, int_eq,
}

-- SYNC_ERROR
abbrev pub sync_error : ℤ
sync_error = negsuc 0

-- START_SYNC_*
abbrev pub startup : ℕ
startup = 0

abbrev pub configure : ℕ
configure = 1

abbrev pub post_configure : ℕ
post_configure = 2

abbrev pub idmapped_mounts : ℕ
idmapped_mounts = 3

abbrev pub cgroup_limits : ℕ
cgroup_limits = 4

abbrev pub fds : ℕ
fds = 5

abbrev pub ready_start : ℕ
ready_start = 6

-- What lxc_read_nointr gives for four bytes: a failure, the end of the file, fewer bytes, or the
-- number.
pub data Received : Type 0 where
  read_failed end_of_file too_short : Received
  got : ℤ → Received

unfoldable pub sync_wait : Received → ℕ → Bool
sync_wait read_failed sequence = false
sync_wait end_of_file sequence = true
sync_wait too_short sequence = false
sync_wait (got sync) sequence =
    if int_eq sync sync_error then false else if int_eq sync (pos sequence) then true else false

-- What each process does between the calls. Each may fail. What the two exchange over data_sock, as
-- descriptors and names of network devices, is within the tasks: that a receive there may wait for the
-- other process, and for ever where that has died, is not modelled.
pub data Task : Type 0 where
  setup_limits create_network prepare_rootfs idmap_parent devices_activate : Task
  receive_fds set_running : Task
  prepare_child unshare_child configure_child mount_child setup_child send_fds exec_init : Task

pub data Op : Type 0 where
  task : Task → Op
  wake : ℕ → Op
  wait : ℕ → Op

-- __sync_barrier
unfoldable pub barrier : ℕ → List Op → List Op
barrier sequence rest = wake sequence ∷ wait (sequence + 1) ∷ rest

-- lxc_spawn
unfoldable pub spawn_ops : List Op
unfolding barrier
spawn_ops =
    task setup_limits
    ∷ barrier startup (
        task create_network
        ∷ wake post_configure
        ∷ task prepare_rootfs
        ∷ wait idmapped_mounts
        ∷ task idmap_parent
        ∷ wait cgroup_limits
        ∷ task devices_activate
        ∷ wake fds
        ∷ task receive_fds
        ∷ barrier ready_start (task set_running ∷ []))

-- do_start, with what lxc_setup does in it
unfoldable pub start_ops : List Op
unfolding barrier
start_ops =
    task prepare_child
    ∷ wait startup
    ∷ task unshare_child
    ∷ wake configure
    ∷ task configure_child
    ∷ wait post_configure
    ∷ task mount_child
    ∷ wake idmapped_mounts
    ∷ task setup_child
    ∷ barrier cgroup_limits (task send_fds ∷ wait ready_start ∷ task exec_init ∷ [])

-- `failed` is a process that left with an error, behind out_warn_father or out_delete_net.
pub data Status : Type 0 where
  running failed killed : Status

-- A process: what it has still to do, and the numbers it was sent and has not read.
pub record Process : Type 0 where
  pub todo : List Op
  pub status : Status
  pub inbox : List ℤ

pub record System : Type 0 where
  pub parent : Process
  pub child : Process

-- Its end of the socket is open: exec and the end of lxc_spawn close it as an exit does.
abbrev pub open_end : List Op → Status → Bool
open_end [] st = false
open_end (op ∷ r) running = true
open_end (op ∷ r) failed = false
open_end (op ∷ r) killed = false

abbrev pub is_open : Process → Bool
is_open p = open_end p.todo p.status

-- What the next operation of a process comes to.
pub data Outcome : Type 0 where
  blocked fails : Outcome
  goes : List Op → List ℤ → Option ℤ → Outcome

-- A write to a socket whose other end is closed fails, a read from it gives what was sent before
-- and then the end of the file.
unfoldable pub next_op : Bool → List ℤ → List Op → Outcome
unfolding sync_wait
next_op other inbox [] = blocked
next_op other inbox (task t ∷ r) = goes r inbox none
next_op other inbox (wake n ∷ r) = if other then goes r inbox (some (pos n)) else fails
next_op other (x ∷ inbox) (wait n ∷ r) = if sync_wait (got x) n then goes r inbox none else fails
next_op other [] (wait n ∷ r) =
    if other then blocked else if sync_wait end_of_file n then goes r [] none else fails

abbrev pub deliver : Option ℤ → Process → Process
deliver none p = p
deliver (some x) p = if is_open p then record p { inbox = p.inbox ++ x ∷ [] } else p

-- lxc_abort kills the child.
unfoldable pub abort : System → System
abort s = record {
  parent = record s.parent { status = failed };
  child = record s.child { status = killed };
}

-- out_warn_father
unfoldable pub warn_father : System → System
warn_father s = record {
  parent = deliver (some sync_error) s.parent;
  child = record s.child { status = failed };
}

abbrev pub parent_then : System → Outcome → Option System
parent_then s blocked = none
parent_then s fails = some (abort s)
parent_then s (goes r i o) =
    some (record { parent = record s.parent { todo = r; inbox = i }; child = deliver o s.child })

abbrev pub child_then : System → Outcome → Option System
child_then s blocked = none
child_then s fails = some (warn_father s)
child_then s (goes r i o) =
    some (record { parent = deliver o s.parent; child = record s.child { todo = r; inbox = i } })

unfoldable pub parent_step : System → Option System
unfolding next_op
parent_step s =
    if is_open s.parent
    then parent_then s (next_op (is_open s.child) s.parent.inbox s.parent.todo)
    else none

unfoldable pub child_step : System → Option System
unfolding next_op
child_step s =
    if is_open s.child
    then child_then s (next_op (is_open s.parent) s.child.inbox s.child.todo)
    else none

-- One step of either process, in any order; a system call that fails; a signal that kills the
-- child.
infix 40 ◌⟶◌ ◌⟶*◌
pub data ◌⟶◌ : System → System → Type 0 where
  parent_goes : {s t : System} → parent_step s ≡ some t → s ⟶ t
  child_goes : {s t : System} → child_step s ≡ some t → s ⟶ t
  parent_breaks : {s : System} → is_open s.parent ≡ true → s ⟶ abort s
  child_breaks : {s : System} → is_open s.child ≡ true → s ⟶ warn_father s
  child_dies :
      {s : System}
      → is_open s.child ≡ true
      → s ⟶ record s { child = record s.child { status = killed } }

pub data ◌⟶*◌ : System → System → Type 0 where
  here : {s : System} → s ⟶* s
  further : {s t u : System} → s ⟶* t → t ⟶ u → s ⟶* u

unfoldable pub started : System
unfolding spawn_ops start_ops
started = record {
  parent = record { todo = spawn_ops; status = running; inbox = [] };
  child = record { todo = start_ops; status = running; inbox = [] };
}
