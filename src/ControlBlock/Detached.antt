-- ===== src/ControlBlock/Detached.antt =====
-- `detach_from_wait_queues` of kernel/capability/process_control_block.cpp: a process that leaves its queues.
use a9n.Base.{ℕ, ◌≡◌, refl, sym, ap, subst, ◌∙◌, Option, none, some, write, erase, arith}
use a9n.Base.Result.{Result, ok, err, KernelError}
use a9n.CapabilityTypes.{CapabilityError}
use a9n.ControlBlock.{leave, detach_from_wait_queues}
use a9n.IpcPort.Linked.{InOrder, Linked, Idle, fewer-Linked}
use a9n.IpcPort.Quiet.{Relation, relation}
use a9n.IpcQueue.{remove_ipc_queue}
use a9n.IpcQueue.Leave.{remove_ipc_queue-without_ipc, remove_ipc_queue-port, remove_ipc_queue-free}
use a9n.IpcQueue.Pop.{remove_ipc_queue-IsLeft}
use a9n.Kernel.{Kernel, bind, convert_kernel}
use a9n.Manager.Frame.{outside}
use a9n.Notification.{remove_notification_queue, after_leave, pointers, put_pointers, settle}
use a9n.Notification.Waiting.{
  IsOrdered, IsRunning, remove_ipc-IsOrdered, remove_notification-IsOrdered,
  remove_notification_queue-eq,
}
use a9n.Process.{SourceReplyState, DestinationReplyState, FaultType}
use a9n.WaitQueue.{Pointers, remove}
use a9n.WaitQueue.Leave.{remove-free}

-- The queues of both kinds of port and the reply relation are in order.
pub record AreOrdered (k : Kernel) : Type 0 where
  pub ipc : InOrder k
  pub notification : IsOrdered k

-- A process that waits for nothing, in a state in order.
pub record IsIdle (p : ℕ) (k : Kernel) : Type 0 where
  pub ipc : Idle p (relation k)
  pub notification : IsOrdered k
  pub running : IsRunning k p

pub record IsCancelled (p : ℕ) (out : Result (Unit {0}) CapabilityError × Kernel) : Type 0 where
  pub result : out.0 ≡ ok tt
  pub idle : IsIdle p out.1

pub record IsResumed (p : ℕ) (k : Kernel) : Type 0 where
  pub idle : IsIdle p k
  pub fault : k.procs.fault_reason p ≡ FaultType.none

-- The state without replies, faults and what scheduling changes.
abbrev pub without_replies : Kernel → Kernel
without_replies k = outside (record k {
  procs = record (k.procs) {
    source_reply_state = λ _. SourceReplyState.none;
    source_reply_target = λ _. none;
    destination_reply_state = λ _. DestinationReplyState.none;
    destination_reply_target = λ _. none;
    fault_reason = λ _. FaultType.none;
    fault_code = λ _. 0;
    arch_fault_code = λ _. 0;
    fault_address = λ _. 0;
  };
})

pub without_replies-IsOrdered :
    {k k' : Kernel} → without_replies k' ≡ without_replies k → IsOrdered k → IsOrdered k'
without_replies-IsOrdered {k} {k'} e old =
    let out : IsOrdered (without_replies k) = record {
      waiters = old.waiters;
      waiting = record { represents = old.waiting.represents; state = old.waiting.state };
      exclusive = old.exclusive;
    } in
    let done = subst IsOrdered (sym e) out in
    record {
      waiters = done.waiters;
      waiting = record { represents = done.waiting.represents; state = done.waiting.state };
      exclusive = done.exclusive;
    }

-- The queues of the notification ports are apart from those of the IPC ports.
settled-same :
    (k : Kernel) (n : ℕ) (o : Option ℕ) (q : Pointers)
    → (relation (settle n o (put_pointers q k)) ≡ relation k)
      × ((settle n o (put_pointers q k)).procs.current_notification_port ≡ q.port)
settled-same k n none q = (refl, refl)
settled-same k n (some h) q = (refl, refl)

pub after_leave-same :
    {A : Type 0} (k : Kernel) (n : ℕ) (out : Result A KernelError × Pointers)
    → (relation (after_leave n out k).1 ≡ relation k)
      × ((after_leave n out k).1.procs.current_notification_port ≡ out.1.port)
after_leave-same k n (ok _, q) = settled-same k n (q.queue n).head q
after_leave-same k n (err e, q) = (refl, refl)

module _ (p : ℕ) where
  -- The process has left the IPC ports, or both kinds of port.
  record IsOut (out : Result (Unit {0}) CapabilityError × Kernel) : Type 0 where
    result : out.0 ≡ ok tt
    ordered : AreOrdered out.1
    port : out.1.procs.current_ipc_port p ≡ none

  converted-IsOut :
      (out : Result (Unit {0}) KernelError × Kernel)
      → out.0 ≡ ok tt
      → AreOrdered out.1
      → out.1.procs.current_ipc_port p ≡ none
      → IsOut (convert_kernel (λ _. out) out.1)
  converted-IsOut (ok _, k) e ordered port = record {
    result = refl;
    ordered = ordered;
    port = port;
  }
  converted-IsOut (err x, k) e ordered port = absurd (ground (arith, e))

  pub removed-AreOrdered :
      (k : Kernel) (n : ℕ)
      → AreOrdered k
      → k.procs.current_ipc_port p ≡ some n
      → AreOrdered (remove_ipc_queue n p k).1
  removed-AreOrdered k n old waits =
      let same = remove_ipc_queue-without_ipc n p k in
      let left = remove_ipc_queue-IsLeft k old.ipc.waiters n p old.ipc.represents waits in
      record {
        ipc =
            fewer-Linked (relation k) (relation (remove_ipc_queue n p k).1)
              (write old.ipc.waiters n (erase p (old.ipc.waiters n))) old.ipc left.represents
              (ap (λ (a : Kernel). a.procs.source_reply_target) same)
              (ap (λ (a : Kernel). a.procs.destination_reply_target) same)
              (remove_ipc_queue-port n p k);
        notification = (remove_ipc-IsOrdered n p).hold k old.notification;
      }

  leave_ipc-IsOut :
      (k : Kernel) (o : Option ℕ)
      → AreOrdered k
      → k.procs.current_ipc_port p ≡ o
      → IsOut (leave (λ port. remove_ipc_queue port p) o k)
  leave_ipc-IsOut k none old e = record { result = refl; ordered = old; port = e }
  leave_ipc-IsOut k (some n) old e =
      converted-IsOut (remove_ipc_queue n p k)
        (remove_ipc_queue-IsLeft k old.ipc.waiters n p old.ipc.represents e).result
        (removed-AreOrdered k n old e) (remove_ipc_queue-free n p k e)

  left-same :
      (k : Kernel) (n x : ℕ)
      → (relation (remove_notification_queue n x k).1 ≡ relation k)
        × ((remove_notification_queue n x k).1.procs.current_notification_port
            ≡ (remove (pointers k) n x).1.port)
  left-same k n x =
      rw (remove_notification_queue-eq n x k) (after_leave-same k n (remove (pointers k) n x))

  -- The process waits at no port, and the state is in order.
  pub record IsDetached (out : Result (Unit {0}) CapabilityError × Kernel) : Type 0 where
    pub result : out.0 ≡ ok tt
    pub ordered : AreOrdered out.1
    pub running : IsRunning out.1 p

  converted-IsDetached :
      (out : Result (Unit {0}) KernelError × Kernel)
      → out.0 ≡ ok tt
      → AreOrdered out.1
      → IsRunning out.1 p
      → IsDetached (convert_kernel (λ _. out) out.1)
  converted-IsDetached (ok _, k) e ordered running = record {
    result = refl;
    ordered = ordered;
    running = running;
  }
  converted-IsDetached (err x, k) e ordered running = absurd (ground (arith, e))

  leave_notification-IsDetached :
      (k : Kernel) (o : Option ℕ)
      → AreOrdered k
      → k.procs.current_ipc_port p ≡ none
      → k.procs.current_notification_port p ≡ o
      → IsDetached (leave (λ port. remove_notification_queue port p) o k)
  leave_notification-IsDetached k none old free e = record {
    result = refl;
    ordered = old;
    running = record { no_ipc_port = free; no_notification_port = e };
  }
  leave_notification-IsDetached k (some n) old free e =
      let done = remove_notification-IsOrdered n p k e old.notification in
      let same = left-same k n p in
      converted-IsDetached (remove_notification_queue n p k) done.0
        (record { ipc = subst Linked (sym same.0) old.ipc; notification = done.1 })
        (record {
          no_ipc_port = ap (λ (v : Relation). v.queues.port p) same.0 ∙ free;
          no_notification_port =
              ap (λ (f : ℕ → Option ℕ). f p) same.1 ∙ remove-free (pointers k) n p e;
        })

  pub detach_from_wait_queues-IsDetached :
      (k : Kernel) → AreOrdered k → IsDetached (detach_from_wait_queues p k)
  unfolding detach_from_wait_queues
  detach_from_wait_queues-IsDetached k old =
      bound (leave (λ port. remove_ipc_queue port p) (k.procs.current_ipc_port p) k)
        (leave_ipc-IsOut k (k.procs.current_ipc_port p) old refl)
    where
      bound :
          (out : Result (Unit {0}) CapabilityError × Kernel)
          → IsOut out
          → IsDetached (
              bind out (λ _ k'.
                leave
                  (λ port. remove_notification_queue port p)
                  (k'.procs.current_notification_port p)
                  k'))
      bound (ok _, k') is_out =
          leave_notification-IsDetached k' (k'.procs.current_notification_port p) is_out.ordered
            is_out.port refl
      bound (err x, k') is_out = absurd (ground (arith, is_out.result))
