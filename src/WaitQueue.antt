-- ===== src/WaitQueue.antt =====
-- The wait queues of kernel/capability/notification_port.cpp and ipc_port.cpp: lists of the processes
-- that wait at a port, doubly linked through the processes. Both ports have the same three operations
-- on fields of their own; those of an IPC port differ in `pop_ipc_queue` alone. `this` is the port.
pub mod Queues
pub mod Push
pub mod Pop
pub mod Equal
pub mod Leave
pub mod Remove
mod Examples
use a9n.Base.{ℕ, Option, none, some, ◌==◌, if◌then◌else◌, write, points_to}
use a9n.Base.Result.{Result, ok, err, KernelError, illegal_argument, no_such_address}
use a9n.Kernel.{Ends}

-- The pointers of the processes, with the port that each waits at, and the ends of each port's queue.
pub record Pointers : Type 0 where
  pub next : ℕ → Option ℕ
  pub preview : ℕ → Option ℕ
  pub port : ℕ → Option ℕ
  pub queue : ℕ → Ends

abbrev set_ends : Pointers → ℕ → Option ℕ → Option ℕ → Pointers
set_ends q this head tail = record q {
  queue = write q.queue this (record { head = head; tail = tail });
}

push_first : Pointers → ℕ → ℕ → Pointers
push_first q this p = record q {
  next = write q.next p none;
  preview = write q.preview p none;
  queue = write q.queue this (record { head = some p; tail = some p });
}

-- Behind the last process `t`.
push_behind : Pointers → ℕ → ℕ → ℕ → Pointers
push_behind q this t p = record q {
  next = write (write q.next p none) t (some p);
  preview = write q.preview p (q.queue this).tail;
  queue = write q.queue this (record { head = (q.queue this).head; tail = some p });
}

-- `if (!queue_head || !queue_tail)`.
push_to : Pointers → ℕ → ℕ → Option ℕ → Option ℕ → Pointers
unfolding push_first push_behind
push_to q this p none tail = push_first q this p
push_to q this p (some _) none = push_first q this p
push_to q this p (some _) (some t) = push_behind q this t p

-- `push_notification_queue` and `push_ipc_queue`.
pub push : Pointers → ℕ → ℕ → Pointers
unfolding push_to
push q this p =
    push_to (record q { port = write q.port p (some this) }) this p (q.queue this).head
      (q.queue this).tail

-- `queue_head = queue_head->next` with what follows from it at the new head.
advance : Pointers → ℕ → Option ℕ → Pointers
advance q this none = set_ends q this none none
advance q this (some h) = record (set_ends q this (some h) (q.queue this).tail) {
  preview = write q.preview h none;
}

release : Pointers → ℕ → Pointers
release q p = record q {
  next = write q.next p none;
  preview = write q.preview p none;
  port = write q.port p none;
}

-- `pop_notification_queue`.
pub pop : Pointers → ℕ → Result ℕ KernelError × Pointers
unfolding advance release
pop q this = elim (q.queue this).head [
  | none ↦ (err no_such_address, q)
  | some p ↦ (ok p, release (advance q this (q.next p)) p)
]

-- `pop_ipc_queue` clears the head's `next` only where a process follows, and never its `preview`.
release_head : Pointers → ℕ → Option ℕ → Pointers
release_head q p none = record q { port = write q.port p none }
release_head q p (some h) = record q { next = write q.next p none; port = write q.port p none }

pub pop_ipc : Pointers → ℕ → Result ℕ KernelError × Pointers
unfolding advance release_head
pop_ipc q this = elim (q.queue this).head [
  | none ↦ (err no_such_address, q)
  | some p ↦ (ok p, release_head (advance q this (q.next p)) p (q.next p))
]

-- The neighbours of a process in the queue of `this`, linked past it.
bypass_next : Pointers → ℕ → (before after : Option ℕ) → Pointers
bypass_next q this none after = set_ends q this after (q.queue this).tail
bypass_next q this (some v) after = record q { next = write q.next v after }

bypass_preview : Pointers → ℕ → (before after : Option ℕ) → Pointers
bypass_preview q this before none = set_ends q this (q.queue this).head before
bypass_preview q this before (some n) = record q { preview = write q.preview n before }

-- `if (!queue_head) queue_tail = nullptr;`.
close : Pointers → ℕ → Option ℕ → Pointers
close q this none = set_ends q this none none
close q this (some h) = q

unlink : Pointers → ℕ → ℕ → Pointers
unfolding bypass_next bypass_preview release close
unlink q this p =
    let q1 = bypass_next q this (q.preview p) (q.next p) in
    let q2 = release (bypass_preview q1 this (q1.preview p) (q1.next p)) p in
    close q2 this (q2.queue this).head

-- `remove_notification_queue` and `remove_ipc_queue`.
pub remove : Pointers → ℕ → ℕ → Result (Unit {0}) KernelError × Pointers
unfolding unlink
remove q this p =
    if points_to (q.port p) this then (ok tt, unlink q this p) else (err illegal_argument, q)
