-- ===== src/Notification.antt =====
-- kernel/ipc/notification.hpp and kernel/capability/notification_port.{hpp,cpp}: ports that gather flags and
-- wake a process that waits, or the process that they are bound to. `this` is the port's address,
-- `owner` the calling process and `self` the slot that it calls through.
pub mod Bind
pub mod Operations
pub mod Revocation
pub mod Queue
pub mod Waiting
mod Examples
use a9n.Base.{
  ℕ, zero, suc, Bool, true, false, not, ◌&&◌, Option, none, some, ◌==◌, if◌then◌else◌, is_some,
  points_to, write, bit_and, bit_or,
}
use a9n.Base.Result.{Result, ok, err, KernelError, illegal_argument}
use a9n.CapabilityTypes.{CapabilityError, SlotData, illegal_operation, permission_denied, fatal}
use a9n.Hal.{Hal}
use a9n.Kernel.{
  Kernel, NotificationState, NotificationPorts, NotificationPortState, M, ◌>>=◌, ◌>>◌, return, fail,
  modify, convert_kernel, convert_hal_to_capability, set_status, get_message_register,
  configure_message_register, or_else,
}
use a9n.Manager.Route.{route_mark_scheduled, try_schedule_and_switch}
use a9n.RevokedWait.{complete_revoked_wait}
use a9n.Process.{Processes, ProcessStatus}
use a9n.Slot.{set_local}
use a9n.WaitQueue.{Pointers, push, pop, remove}
use a9n.IpcQueue.{remove_ipc_queue}

-- The core of a port.
pub has_notification : NotificationPorts → ℕ → Bool
has_notification n this = elim (n.current_state this) [
  | NotificationState.has_flag ↦ not (n.flag this == 0)
  | NotificationState.none ↦ false
]

pub notify : ℕ → ℕ → NotificationPorts → NotificationPorts
notify this new_flag n = record n {
  flag = write (n.flag) this (bit_or (n.flag this) new_flag);
  current_state = write (n.current_state) this NotificationState.has_flag;
}

-- `consume` returns the flag and clears it.
pub consumed : ℕ → NotificationPorts → NotificationPorts
consumed this n = record n {
  flag = write (n.flag) this 0;
  current_state = write (n.current_state) this NotificationState.none;
}

abbrev pub set_ports : NotificationPorts → Kernel → Kernel
set_ports n k = record k { notification_ports = n }

abbrev pub set_state : ℕ → NotificationPortState → Kernel → Kernel
set_state this s k =
    set_ports (record (k.notification_ports) { state = write (k.notification_ports.state) this s })
      k

abbrev pub set_binded : ℕ → Option ℕ → Kernel → Kernel
set_binded this p k =
    set_ports
      (record (k.notification_ports) {
        binded_process = write (k.notification_ports.binded_process) this p;
      })
      k

-- What the wait queue works on.
abbrev pub pointers : Kernel → Pointers
pointers k = record {
  next = k.procs.next_notification_queue;
  preview = k.procs.preview_notification_queue;
  port = k.procs.current_notification_port;
  queue = k.notification_ports.queue;
}

abbrev pub put_pointers : Pointers → Kernel → Kernel
put_pointers q k = record k {
  procs = record (k.procs) {
    next_notification_queue = q.next;
    preview_notification_queue = q.preview;
    current_notification_port = q.port;
  };
  notification_ports = record (k.notification_ports) { queue = q.queue };
}

-- `if (!queue_head) state = WAIT`, where a process has left.
abbrev pub settle : ℕ → Option ℕ → Kernel → Kernel
settle this none k = set_state this NotificationPortState.wait k
settle this (some head) k = k

abbrev pub after_leave :
    {A : Type 0} → ℕ → Result A KernelError × Pointers → Kernel → Result A KernelError × Kernel
after_leave this (ok a, q) k = (ok a, settle this (q.queue this).head (put_pointers q k))
after_leave this (err e, q) k = (err e, put_pointers q k)

pub push_notification_queue : ℕ → ℕ → M KernelError (Unit {0})
push_notification_queue this p k = (ok tt, put_pointers (push (pointers k) this p) k)

pub pop_notification_queue : ℕ → M KernelError ℕ
pop_notification_queue this k = after_leave this (pop (pointers k) this) k

pub remove_notification_queue : ℕ → ℕ → M KernelError (Unit {0})
remove_notification_queue this p k = after_leave this (remove (pointers k) this p) k

-- `binded_process && binded_process != &p`.
abbrev pub is_bound_elsewhere : Option ℕ → ℕ → Bool
is_bound_elsewhere none p = false
is_bound_elsewhere (some b) p = not (b == p)

pub bind_process : ℕ → ℕ → M KernelError (Unit {0})
bind_process this p k =
    if is_bound_elsewhere (k.notification_ports.binded_process this) p
    then (err illegal_argument, k)
    else (ok tt, set_binded this (some p) k)

pub unbind_process : ℕ → ℕ → M KernelError (Unit {0})
unbind_process this p k =
    if points_to (k.notification_ports.binded_process this) p
    then (ok tt, set_binded this none k)
    else (err illegal_argument, k)

-- `self.rights & right`.
abbrev pub has_right : Kernel → ℕ → ℕ → Bool
has_right k self right = not (bit_and (k.slots.rights self) right == 0)

-- READ, WRITE and MODIFY.
abbrev pub read_right : ℕ
read_right = 1

abbrev pub write_right : ℕ
write_right = 2

abbrev pub modify_right : ℕ
modify_right = 8
