-- ===== src/IpcQueue/Pop.antt =====
-- The ways out of the wait queue of an IPC port, on the lists that the queues represent.
use a9n.Base.{
  [], ap, ◌∙◌, ℕ, ◌≡◌, refl, sym, subst, Option, none, some, List, ◌∷◌, erase, write, arith,
}
use a9n.Base.Result.{Result, ok, err, KernelError, no_such_address}
use a9n.Dll.{front}
use a9n.IpcQueue.{pointers, put_pointers, settle, after_leave, pop_ipc_queue, remove_ipc_queue}
use a9n.Kernel.{Kernel}
use a9n.WaitQueue.{Pointers, pop, remove}
use a9n.WaitQueue.Equal.{pop_ipc-pop}
use a9n.WaitQueue.Pop.{pop-Represents, pop-none as pop-empty}
use a9n.WaitQueue.Remove.{remove-Represents}
use a9n.WaitQueue.Queues.{Waiters, Represents}

-- A process has left the queue of `n`, which is now `xs`, and no reply state has changed.
pub record IsLeft {A : Type 0} (k : Kernel) (w : Waiters) (n : ℕ) (a : A) (xs : List ℕ)
    (out : Result A KernelError × Kernel) : Type 0 where
  pub result : out.0 ≡ ok a
  pub represents : Represents (pointers out.1) (write w n xs)
  pub replies : out.1.procs.source_reply_state ≡ k.procs.source_reply_state

settle-pointers :
    (n : ℕ) (o : Option ℕ) (q : Pointers) (k : Kernel)
    → (pointers (settle n o (put_pointers q k)) ≡ q)
      × ((settle n o (put_pointers q k)).procs.source_reply_state ≡ k.procs.source_reply_state)
settle-pointers n none q k = (refl, refl)
settle-pointers n (some h) q k = (refl, refl)

after_leave-IsLeft :
    {A : Type 0} (k : Kernel) (w : Waiters) (n : ℕ) (a : A) (xs : List ℕ)
    (out : Result A KernelError × Pointers)
    → (out.0 ≡ ok a) × Represents out.1 (write w n xs)
    → IsLeft k w n a xs (after_leave n out k)
after_leave-IsLeft k w n a xs (ok b, q) done =
    let settled = settle-pointers n (q.queue n).head q k in
    record {
      result = done.0;
      represents = subst (λ (r : Pointers). Represents r (write w n xs)) (sym settled.0) done.1;
      replies = settled.1;
    }
after_leave-IsLeft k w n a xs (err e, q) done = absurd (ground (arith, done.0))

pub pop_ipc_queue-IsLeft :
    (k : Kernel) (w : Waiters) (n p : ℕ) (xs : List ℕ)
    → Represents (pointers k) w
    → w n ≡ p ∷ xs
    → IsLeft k w n p xs (pop_ipc_queue n k)
unfolding pop_ipc_queue
pop_ipc_queue-IsLeft k w n p xs old waiting = rw (pop_ipc-pop (pointers k) w n old) (
    after_leave-IsLeft k w n p xs (pop (pointers k) n)
      (pop-Represents (pointers k) w n p xs old waiting))

pub pop_ipc_queue-none :
    (k : Kernel) (w : Waiters) (n : ℕ)
    → Represents (pointers k) w
    → w n ≡ []
    → pop_ipc_queue n k ≡ (err no_such_address, k)
unfolding pop_ipc_queue
pop_ipc_queue-none k w n old empty =
    let head = (old.queues n).head ∙ ap (λ (l : List ℕ). front l none) empty in
    rw (pop_ipc-pop (pointers k) w n old) (
      ap (λ (out : Result ℕ KernelError × Pointers). after_leave n out k)
        (pop-empty (pointers k) n head))

pub remove_ipc_queue-IsLeft :
    (k : Kernel) (w : Waiters) (n p : ℕ)
    → Represents (pointers k) w
    → k.procs.current_ipc_port p ≡ some n
    → IsLeft k w n tt (erase p (w n)) (remove_ipc_queue n p k)
unfolding remove_ipc_queue
remove_ipc_queue-IsLeft k w n p old waiting =
    after_leave-IsLeft k w n tt (erase p (w n)) (remove (pointers k) n p)
      (remove-Represents (pointers k) w n p old waiting)
