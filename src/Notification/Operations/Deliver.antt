-- ===== src/Notification/Operations/Deliver.antt =====
-- Notifications to a port where someone waits.
use a9n.Base.{
  ℕ, ◌≡◌, refl, ap, ◌∙◌, Bool, true, false, Option, none, some, List, ◌∷◌, write, write_self,
  bit_or, arith,
}
use a9n.Base.Result.{Result, ok, err, KernelError}
use a9n.CapabilityTypes.{CapabilityError, fatal}
use a9n.Dll.{front}
use a9n.Hal.{Hal, HalError, Registers}
use a9n.Kernel.{
  Kernel, M, bind, fail, or_else_result, store_registers, set_registers, NotificationPortState,
}
use a9n.Notification.{
  has_notification, notify, consumed, set_ports, has_right, write_right, pointers, put_pointers,
  settle, after_leave, pop_notification_queue,
}
use a9n.Notification.Operations.{
  operation_notify, notified, notify_state, wake_waiter, deliver, wake, is_bound_receiving,
}
use a9n.Notification.Queue.{Waiting, state_of, pop-Waiting}
use a9n.WaitQueue.{Pointers, pop}
use a9n.WaitQueue.Queues.{Waiters}

settle-rest :
    (n : ℕ) (o : Option ℕ) (q : Pointers) (k : Kernel)
    → ((settle n o (put_pointers q k)).procs.registers ≡ k.procs.registers)
      × ((settle n o (put_pointers q k)).notification_ports.flag ≡ k.notification_ports.flag)
settle-rest n none q k = (refl, refl)
settle-rest n (some h) q k = (refl, refl)

after_leave-rest :
    {A : Type 0} (n : ℕ) (out : Result A KernelError × Pointers) (k : Kernel)
    → ((after_leave n out k).1.procs.registers ≡ k.procs.registers)
      × ((after_leave n out k).1.notification_ports.flag ≡ k.notification_ports.flag)
after_leave-rest n (ok a, q) k = settle-rest n (q.queue n).head q k
after_leave-rest n (err e, q) k = (refl, refl)

pop-rest :
    (n : ℕ) (k : Kernel)
    → ((pop_notification_queue n k).1.procs.registers ≡ k.procs.registers)
      × ((pop_notification_queue n k).1.notification_ports.flag ≡ k.notification_ports.flag)
unfolding pop_notification_queue
pop-rest n k = after_leave-rest n (pop (pointers k) n) k

-- An operation that succeeds, and what is bound behind it.
ok_inj : {E A : Type 0} {a b : A} → Path (Result A E) (ok a) (ok b) → a ≡ b
ok_inj e = cc

bind-ok :
    {E F A B : Type 0} (out : Result A E × Kernel) (a : A) (h : E → M F A) (f : A → M F B)
    → out.0 ≡ ok a
    → bind (or_else_result out h) f ≡ f a out.1
bind-ok (ok b, k) a h f e = ap (λ c. f c k) (ok_inj e)
bind-ok (err x, k) a h f e = absurd (ground arith)

abbrev stored :
    Result (Unit {0}) HalError × Registers → Kernel → Result (Unit {0}) CapabilityError × Kernel
stored out k = or_else_result (store_registers out k) (λ e. fail fatal)

stored-ok :
    (out : Result (Unit {0}) HalError × Registers) (r : Registers) (k : Kernel)
    → out ≡ (ok tt, r)
    → stored out k ≡ (ok tt, set_registers r k)
stored-ok out r k e = ap (λ (o : Result (Unit {0}) HalError × Registers). stored o k) e

module _ (smp : Bool) (hal : Hal) (this owner : ℕ) where
  abbrev emptied : Kernel → Kernel
  emptied k = set_ports (consumed this (k.notification_ports)) k

  deliver-ok :
      (p : ℕ) (k : Kernel) (r : Registers)
      → hal.configure_message_register p 2 (k.notification_ports.flag this) (k.procs.registers)
        ≡ (ok tt, r)
      → deliver smp hal this owner p k ≡ wake smp hal owner p (set_registers r (emptied k))
  unfolding deliver
  deliver-ok p k r written =
      ap
        (λ (out : Result (Unit {0}) CapabilityError × Kernel). bind out (λ _. wake smp hal owner p))
        (stored-ok
          (hal.configure_message_register p 2 (k.notification_ports.flag this) (k.procs.registers))
          r (emptied k) written)

  wake_waiter-first :
      (k : Kernel) (p : ℕ) (r : Registers)
      → (k.notification_ports.queue this).head ≡ some p
      → (pop_notification_queue this k).0 ≡ ok p
      → hal.configure_message_register p 2 (k.notification_ports.flag this) (k.procs.registers)
        ≡ (ok tt, r)
      → wake_waiter smp hal this owner k
        ≡ wake smp hal owner p (set_registers r (emptied (pop_notification_queue this k).1))
  unfolding wake_waiter
  wake_waiter-first k p r head popped written =
      let rest = pop-rest this k in
      rw head (
        bind-ok (pop_notification_queue this k) p (λ e. fail fatal) (deliver smp hal this owner)
          popped
        ∙ deliver-ok p (pop_notification_queue this k).1 r (rw (rest.0, rest.1) written))

module _ (smp : Bool) (hal : Hal) (this owner self : ℕ) (k : Kernel) where
  abbrev flags : ℕ
  flags = bit_or (k.notification_ports.flag this) (k.slots.local self).word_0

  -- What a notification to `p` leaves before `p` is scheduled.
  pub record IsDelivered (w : Waiters) (p : ℕ) (xs : List ℕ) (r : Registers)
      (out : Result (Unit {0}) CapabilityError × Kernel) : Type 0 where
    pub after : Kernel
    pub scheduled : out ≡ wake smp hal owner p after
    pub waiting : Waiting after (write w this xs)
    pub registers : after.procs.registers ≡ r
    pub empty : has_notification (after.notification_ports) this ≡ false

  abbrev marked : Kernel
  marked = set_ports (notify this (k.slots.local self).word_0 (k.notification_ports)) k

  marked-Waiting : (w : Waiters) → Waiting k w → Waiting marked w
  unfolding notify
  marked-Waiting w old = record { represents = old.represents; state = old.state }

  marked-flag : marked.notification_ports.flag this ≡ flags
  unfolding notify
  marked-flag = write_self (k.notification_ports.flag) this _

  consumed-Waiting :
      (k' : Kernel) (w : Waiters) (r : Registers)
      → Waiting k' w
      → Waiting (set_registers r (set_ports (consumed this (k'.notification_ports)) k')) w
        × (has_notification (consumed this (k'.notification_ports)) this ≡ false)
  unfolding consumed has_notification
  consumed-Waiting k' w r old =
      (record { represents = old.represents; state = old.state }, ground arith)

  notified-waiter :
      k.notification_ports.state this ≡ NotificationPortState.ready_to_wake
      → is_bound_receiving smp hal k (k.notification_ports.binded_process this) ≡ false
      → notified smp hal this owner marked ≡ wake_waiter smp hal this owner marked
  unfolding notified notify_state notify
  notified-waiter ready bound = rw (bound, ready) refl

  -- With the wait queues in order, where processes wait at the port, the notification has the WRITE right, no process bound to the port
  -- waits in BLOCKED_RECEIVE, and the hardware layer writes the FLAG_WORD: the process that has waited
  -- longest takes all the flags that are pending, the new one among them, in its FLAG_WORD, and leaves
  -- the queue to be scheduled; the port has no flag then.
  pub operation_notify-IsDelivered :
      (w : Waiters) (p : ℕ) (xs : List ℕ) (r : Registers)
      → Waiting k w
      → w this ≡ p ∷ xs
      → has_right k self write_right ≡ true
      → is_bound_receiving smp hal k (k.notification_ports.binded_process this) ≡ false
      → hal.configure_message_register p 2 flags (k.procs.registers) ≡ (ok tt, r)
      → IsDelivered w p xs r (operation_notify smp hal this owner self k)
  unfolding operation_notify
  operation_notify-IsDelivered w p xs r old waiting right bound written =
      let old1 = marked-Waiting w old in
      let popped = pop-Waiting marked w this old1 p xs waiting in
      let k2 = (pop_notification_queue this marked).1 in
      let done = consumed-Waiting k2 (write w this xs) r popped.1 in
      let head = (old1.represents.queues this).head ∙ ap (λ (l : List ℕ). front l none) waiting in
      record {
        after = set_registers r (set_ports (consumed this (k2.notification_ports)) k2);
        scheduled = rw right (
            notified-waiter (old.state this ∙ ap state_of waiting) bound
            ∙ wake_waiter-first smp hal this owner marked p r head popped.0
                (rw marked-flag written));
        waiting = done.0;
        registers = refl;
        empty = done.1;
      }
