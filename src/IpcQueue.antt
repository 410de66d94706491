-- ===== src/IpcQueue.antt =====
-- kernel/capability/ipc_port.cpp: the wait queue of an IPC port. `this` is the port's address.
pub mod Leave
pub mod Pop
use a9n.Base.{ℕ, Option, none, some, write}
use a9n.Base.Result.{Result, ok, err, KernelError}
use a9n.Kernel.{Kernel, IpcPorts, IpcPortState, M}
use a9n.Process.{Processes}
use a9n.WaitQueue.{Pointers, push, pop_ipc, remove}

abbrev pub set_state : ℕ → IpcPortState → Kernel → Kernel
set_state this s k = record k {
  ipc_ports = record (k.ipc_ports) { state = write (k.ipc_ports.state) this s };
}

abbrev pub pointers : Kernel → Pointers
pointers k = record {
  next = k.procs.next_ipc_queue;
  preview = k.procs.preview_ipc_queue;
  port = k.procs.current_ipc_port;
  queue = k.ipc_ports.queue;
}

abbrev pub put_pointers : Pointers → Kernel → Kernel
put_pointers q k = record k {
  procs = record (k.procs) {
    next_ipc_queue = q.next;
    preview_ipc_queue = q.preview;
    current_ipc_port = q.port;
  };
  ipc_ports = record (k.ipc_ports) { queue = q.queue };
}

-- `if (!queue_head) state = WAIT`, where a process has left.
abbrev pub settle : ℕ → Option ℕ → Kernel → Kernel
settle this none k = set_state this IpcPortState.wait k
settle this (some head) k = k

abbrev pub after_leave :
    {A : Type 0} → ℕ → Result A KernelError × Pointers → Kernel → Result A KernelError × Kernel
after_leave this (ok a, q) k = (ok a, settle this (q.queue this).head (put_pointers q k))
after_leave this (err e, q) k = (err e, put_pointers q k)

pub push_ipc_queue : ℕ → ℕ → M KernelError (Unit {0})
push_ipc_queue this p k = (ok tt, put_pointers (push (pointers k) this p) k)

pub pop_ipc_queue : ℕ → M KernelError ℕ
pop_ipc_queue this k = after_leave this (pop_ipc (pointers k) this) k

pub remove_ipc_queue : ℕ → ℕ → M KernelError (Unit {0})
remove_ipc_queue this p k = after_leave this (remove (pointers k) this p) k
