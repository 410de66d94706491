-- ===== src/IpcQueue/Leave.antt =====
-- What the wait queues of the IPC ports leave alone, and the ports that the processes name.
use a9n.Base.{ℕ, ◌≡◌, ◌⊎◌, refl, Option, none, some}
use a9n.Base.Result.{Result, ok, err, KernelError}
use a9n.Kernel.{Kernel, IpcPortState}
use a9n.IpcQueue.{
  pointers, put_pointers, settle, after_leave, push_ipc_queue, pop_ipc_queue, remove_ipc_queue,
}
use a9n.WaitQueue.{Pointers, push, pop_ipc, remove}
use a9n.WaitQueue.Leave.{pop_ipc-Leaves, pop_ipc-free, remove-Leaves, remove-free}

-- The state without the queues and states of the IPC ports.
abbrev pub without_ipc : Kernel → Kernel
without_ipc k = record k {
  procs = record (k.procs) {
    next_ipc_queue = λ _. none;
    preview_ipc_queue = λ _. none;
    current_ipc_port = λ _. none;
  };
  ipc_ports = record {
    queue = λ _. record { head = none; tail = none };
    state = λ _. IpcPortState.wait;
  };
}

settle-without_ipc :
    (n : ℕ) (o : Option ℕ) (q : Pointers) (k : Kernel)
    → (without_ipc (settle n o (put_pointers q k)) ≡ without_ipc k)
      × ((settle n o (put_pointers q k)).procs.current_ipc_port ≡ q.port)
settle-without_ipc n none q k = (refl, refl)
settle-without_ipc n (some h) q k = (refl, refl)

after_leave-without_ipc :
    {A : Type 0} (k : Kernel) (n : ℕ) (out : Result A KernelError × Pointers)
    → (without_ipc (after_leave n out k).1 ≡ without_ipc k)
      × ((after_leave n out k).1.procs.current_ipc_port ≡ out.1.port)
after_leave-without_ipc k n (ok a, q) = settle-without_ipc n (q.queue n).head q k
after_leave-without_ipc k n (err e, q) = (refl, refl)

pub remove_ipc_queue-without_ipc :
    (n p : ℕ) (k : Kernel) → without_ipc (remove_ipc_queue n p k).1 ≡ without_ipc k
unfolding remove_ipc_queue
remove_ipc_queue-without_ipc n p k = (after_leave-without_ipc k n (remove (pointers k) n p)).0

pub remove_ipc_queue-port :
    (n p : ℕ) (k : Kernel) (x : ℕ)
    → ((remove_ipc_queue n p k).1.procs.current_ipc_port x ≡ k.procs.current_ipc_port x)
      ⊎ ((remove_ipc_queue n p k).1.procs.current_ipc_port x ≡ none)
unfolding remove_ipc_queue
remove_ipc_queue-port n p k x =
    rw (after_leave-without_ipc k n (remove (pointers k) n p)).1 (remove-Leaves (pointers k) n p x)

pub remove_ipc_queue-free :
    (n p : ℕ) (k : Kernel)
    → k.procs.current_ipc_port p ≡ some n
    → (remove_ipc_queue n p k).1.procs.current_ipc_port p ≡ none
unfolding remove_ipc_queue
remove_ipc_queue-free n p k e =
    rw (after_leave-without_ipc k n (remove (pointers k) n p)).1 (remove-free (pointers k) n p e)

module _ (n : ℕ) (k : Kernel) where
  pub pop_ipc_queue-without_ipc : without_ipc (pop_ipc_queue n k).1 ≡ without_ipc k
  unfolding pop_ipc_queue
  pop_ipc_queue-without_ipc = (after_leave-without_ipc k n (pop_ipc (pointers k) n)).0

  pub pop_ipc_queue-port :
      (x : ℕ)
      → ((pop_ipc_queue n k).1.procs.current_ipc_port x ≡ k.procs.current_ipc_port x)
        ⊎ ((pop_ipc_queue n k).1.procs.current_ipc_port x ≡ none)
  unfolding pop_ipc_queue
  pop_ipc_queue-port x =
      rw (after_leave-without_ipc k n (pop_ipc (pointers k) n)).1 (pop_ipc-Leaves (pointers k) n x)

  -- The process that leaves names no port.
  pub pop_ipc_queue-free :
      (p : ℕ)
      → (k.ipc_ports.queue n).head ≡ some p
      → (pop_ipc_queue n k).1.procs.current_ipc_port p ≡ none
  unfolding pop_ipc_queue
  pop_ipc_queue-free p e =
      rw (after_leave-without_ipc k n (pop_ipc (pointers k) n)).1 (pop_ipc-free (pointers k) n p e)

pub push_ipc_queue-eq :
    (n p : ℕ) (k : Kernel) → push_ipc_queue n p k ≡ (ok tt, put_pointers (push (pointers k) n p) k)
unfolding push_ipc_queue
push_ipc_queue-eq n p k = refl
