-- ===== src/Notification/Waiting.antt =====
-- The invariant of the notification ports, through every operation.
use a9n.Base.{
  ℕ, ◌≡◌, ◌≢◌, ◌⊎◌, refl, sym, ap, subst, ◌∙◌, Option, none, some, write, erase, inl, inr, fun_ext,
  List-cases, write-ne, write-eq,
}
use native.Mathlib.Decide.{ℕ_discrete}
use a9n.Base.Result.{Result, ok, err, KernelError}
use a9n.Hal.{HalError, Registers}
use a9n.IpcQueue.{remove_ipc_queue}
use a9n.IpcQueue.Leave.{remove_ipc_queue-without_ipc, remove_ipc_queue-port}
use a9n.Notification.Operations.{resumed}
use a9n.Kernel.{Kernel, NotificationPortState, M, store_registers, set_status}
use a9n.Kernel.Preserve.{Preserves}
use a9n.Manager.Frame.{outside, Keeps}
use a9n.Notification.{
  pointers, put_pointers, settle, after_leave, set_state, pop_notification_queue,
  remove_notification_queue,
}
use a9n.Notification.Queue.{
  Waiting, outside-Waiting, pushed-Waiting, pop-Waiting, remove-Waiting, pop-none,
}
use a9n.Process.{Processes, ProcessStatus}
use a9n.WaitQueue.{Pointers, push, pop, remove}
use a9n.WaitQueue.Leave.{pop-Leaves, remove-Leaves}
use a9n.WaitQueue.Push.{enqueue, push-port}
use a9n.WaitQueue.Queues.{Waiters, Represents}

-- The ports are in order: their queues are, and no process waits at both kinds of port.
pub record IsOrdered (k : Kernel) : Type 0 where
  pub waiters : Waiters
  pub waiting : Waiting k waiters
  pub exclusive :
      (p : ℕ) → k.procs.current_ipc_port p ≢ none → k.procs.current_notification_port p ≡ none

pub outside-IsOrdered : {k k' : Kernel} → outside k' ≡ outside k → IsOrdered k → IsOrdered k'
outside-IsOrdered {k} {k'} e old = record {
  waiters = old.waiters;
  waiting = outside-Waiting e old.waiting;
  exclusive = λ p h.
      ap (λ (a : Kernel). a.procs.current_notification_port p) e
      ∙ old.exclusive p (λ n. h (ap (λ (a : Kernel). a.procs.current_ipc_port p) e ∙ n));
}

pub Keeps-IsOrdered : {E A : Type 0} {m : M E A} → Keeps m → Preserves IsOrdered m
Keeps-IsOrdered km = record { hold = λ k old. outside-IsOrdered ((km.keep k).same) old }

-- A write of registers.
pub stored-outside :
    {A : Type 0} (out : Result A HalError × Registers) (k : Kernel)
    → outside (store_registers out k).1 ≡ outside k
stored-outside (r, registers) k = refl

settle-procs : (n : ℕ) (o : Option ℕ) (k : Kernel) → (settle n o k).procs ≡ k.procs
settle-procs n none k = refl
settle-procs n (some h) k = refl

-- One process leaves a notification port.
left-exclusive :
    (k : Kernel) (q : Pointers) (n : ℕ) (o : Option ℕ)
    → ((x : ℕ) → (q.port x ≡ k.procs.current_notification_port x) ⊎ (q.port x ≡ none))
    → IsOrdered k
    → (p : ℕ) → (settle n o (put_pointers q k)).procs.current_ipc_port p ≢ none
    → (settle n o (put_pointers q k)).procs.current_notification_port p ≡ none
left-exclusive k q n o leaves old p =
    subst (λ (m : Processes). m.current_ipc_port p ≢ none → m.current_notification_port p ≡ none)
      (sym (settle-procs n o (put_pointers q k)))
      (λ h. elim (leaves p) [ inl e ↦ e ∙ old.exclusive p h | inr e ↦ e ])

after_leave-exclusive :
    {A : Type 0} (k : Kernel) (n : ℕ) (out : Result A KernelError × Pointers)
    → ((x : ℕ) → (out.1.port x ≡ k.procs.current_notification_port x) ⊎ (out.1.port x ≡ none))
    → IsOrdered k
    → (p : ℕ) → (after_leave n out k).1.procs.current_ipc_port p ≢ none
    → (after_leave n out k).1.procs.current_notification_port p ≡ none
after_leave-exclusive k n (err e, q) leaves old p h = elim (leaves p) [
  | inl e' ↦ e' ∙ old.exclusive p h
  | inr e' ↦ e'
]
after_leave-exclusive k n (ok a, q) leaves old p h =
    left-exclusive k q n (q.queue n).head leaves old p h

pub pop-IsOrdered : (n : ℕ) → Preserves IsOrdered (pop_notification_queue n)
unfolding pop_notification_queue
pop-IsOrdered n = record {
  hold = λ k old. elim (List-cases (old.waiters n)) [
    | inl empty ↦
        subst (λ (out : Result ℕ KernelError × Kernel). IsOrdered out.1)
          (sym (pop-none k old.waiters n old.waiting empty)) old
    | inr (p, xs, waiting) ↦
        let done = pop-Waiting k old.waiters n old.waiting p xs waiting in
        record {
          waiters = write old.waiters n xs;
          waiting = done.1;
          exclusive =
              after_leave-exclusive k n (pop (pointers k) n) (pop-Leaves (pointers k) n) old;
        }
  ];
}

pub remove_notification_queue-eq :
    (n p : ℕ) (k : Kernel)
    → remove_notification_queue n p k ≡ after_leave n (remove (pointers k) n p) k
unfolding remove_notification_queue
remove_notification_queue-eq n p k = refl

-- A process that waits can leave.
pub remove_notification-IsOrdered :
    (n p : ℕ) (k : Kernel)
    → k.procs.current_notification_port p ≡ some n
    → IsOrdered k
    → ((remove_notification_queue n p k).0 ≡ ok tt) × IsOrdered (remove_notification_queue n p k).1
unfolding remove_notification_queue
remove_notification-IsOrdered n p k waits old =
    let done = remove-Waiting k old.waiters n old.waiting p waits in
    (
      done.0,
      record {
        waiters = write old.waiters n (erase p (old.waiters n));
        waiting = done.1;
        exclusive =
            after_leave-exclusive k n (remove (pointers k) n p) (remove-Leaves (pointers k) n p)
              old;
      },
    )

-- A process that waits at neither kind of port.
pub record IsRunning (k : Kernel) (p : ℕ) : Type 0 where
  pub no_ipc_port : k.procs.current_ipc_port p ≡ none
  pub no_notification_port : k.procs.current_notification_port p ≡ none

push-port_other : (q : Pointers) (n p x : ℕ) → p ≢ x → (push q n p).port x ≡ q.port x
push-port_other q n p x ne = push-port q n p x ∙ write-ne q.port p (some n) ne

-- The block of a running process.
pub pushed-IsOrdered :
    (k : Kernel) (n p : ℕ)
    → IsOrdered k
    → IsRunning k p
    → IsOrdered (
        put_pointers (push (pointers k) n p) (
          set_status p ProcessStatus.blocked_wait
            (set_state n NotificationPortState.ready_to_wake k)))
pushed-IsOrdered k n p old free =
    let done = pushed-Waiting k old.waiters n old.waiting p free.no_notification_port in
    record {
      waiters = enqueue old.waiters n p;
      waiting = record { represents = done.represents; state = done.state };
      exclusive = λ x h. elim (ℕ_discrete p x) [
        | yes e ↦ absurd (h (ap (k.procs.current_ipc_port) (sym e) ∙ free.no_ipc_port))
        | no ne ↦ push-port_other (pointers k) n p x ne ∙ old.exclusive x h
      ];
    }

-- The removal of a process from the queue of an IPC port.
pub remove_ipc-IsOrdered : (n p : ℕ) → Preserves IsOrdered (remove_ipc_queue n p)
remove_ipc-IsOrdered n p = record {
  hold = λ k old.
      let e = remove_ipc_queue-without_ipc n p k in
      record {
        waiters = old.waiters;
        waiting = record {
          represents =
              subst (λ (q : Pointers). Represents q old.waiters)
                (sym (ap (λ (a : Kernel). pointers a) e)) old.waiting.represents;
          state = λ m. ap (λ (a : Kernel). a.notification_ports.state m) e ∙ old.waiting.state m;
        };
        exclusive = λ x h.
            ap (λ (a : Kernel). a.procs.current_notification_port x) e
            ∙ elim (remove_ipc_queue-port n p k x) [
              | inl same ↦ old.exclusive x (λ e'. h (same ∙ e'))
              | inr gone ↦ absurd (h gone)
            ];
      };
}

pub write_same : (f : ℕ → Option ℕ) (p : ℕ) → f p ≡ none → write f p none ≡ f
write_same f p e = fun_ext (λ x. elim (ℕ_discrete p x) [
  | yes same ↦ write-eq f p none same ∙ sym e ∙ ap f same
  | no ne ↦ write-ne f p none ne
])

-- The return of a process that waits at no notification port.
pub resumed-IsOrdered :
    (p : ℕ) (k : Kernel)
    → IsOrdered k
    → k.procs.current_notification_port p ≡ none
    → IsOrdered (resumed p k)
resumed-IsOrdered p k old clear =
    let same = write_same (k.procs.current_notification_port) p clear in
    record {
      waiters = old.waiters;
      waiting = record {
        represents =
            subst (λ (f : ℕ → Option ℕ). Represents (record (pointers k) { port = f }) old.waiters)
              (sym same) old.waiting.represents;
        state = old.waiting.state;
      };
      exclusive = λ x h. elim (ℕ_discrete p x) [
        | yes e ↦ write-eq (k.procs.current_notification_port) p none e
        | no ne ↦
            write-ne (k.procs.current_notification_port) p none ne
            ∙ old.exclusive x (λ e'. h (write-ne (k.procs.current_ipc_port) p none ne ∙ e'))
      ];
    }
