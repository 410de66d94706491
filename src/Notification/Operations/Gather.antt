-- ===== src/Notification/Operations/Gather.antt =====
-- Notifications to a port where nobody waits, and the poll that collects them.
use a9n.Base.{
  ℕ, ◌≡◌, refl, ap, subst, ◌∙◌, Bool, true, false, not, List, [], ◌∷◌, ◌==◌, write_self, bit_or,
  Bool-cases, inl, inr, arith, ==_iff,
}
use a9n.Base.Result.{Result, ok, err}
use a9n.CapabilityTypes.{CapabilityError, fatal}
use a9n.Hal.{Hal, HalError, Registers}
use a9n.Kernel.{
  Kernel, NotificationState, NotificationPorts, NotificationPortState, M, bind, ◌>>◌, fail,
  or_else_result, store_registers,
}
use a9n.Notification.{
  has_notification, notify, consumed, set_ports, has_right, read_right, write_right,
  is_bound_elsewhere,
}
use a9n.Notification.Operations.{
  operation_notify, notified, notify_state, operation_poll, is_bound_receiving,
}
use a9n.Slot.{Slots}

-- The flags that notifications through the slots add to `flag`.
abbrev pub gathered : Slots → List ℕ → ℕ → ℕ
gathered s [] flag = flag
gathered s (self ∷ rest) flag = gathered s rest (bit_or flag (s.local self).word_0)

-- Nobody is to be woken.
pub record IsQuiet (smp : Bool) (hal : Hal) (k : Kernel) (this : ℕ) : Type 0 where
  pub bound : is_bound_receiving smp hal k (k.notification_ports.binded_process this) ≡ false
  pub state : k.notification_ports.state this ≡ NotificationPortState.wait

abbrev pub MayNotify : Kernel → List ℕ → Type 0
MayNotify k [] = Unit {0}
MayNotify k (self ∷ rest) = (has_right k self write_right ≡ true) × MayNotify k rest

pub record MayPoll (k : Kernel) (this poller self : ℕ) : Type 0 where
  pub right : has_right k self read_right ≡ true
  pub bound : is_bound_elsewhere (k.notification_ports.binded_process this) poller ≡ false

abbrev stored :
    Result (Unit {0}) HalError × Registers → Kernel → Result (Unit {0}) CapabilityError × Kernel
stored out k = or_else_result (store_registers out k) (λ e. fail fatal)

-- A failed write is FATAL.
abbrev pub answer_of : Result (Unit {0}) HalError → Result (Unit {0}) CapabilityError
answer_of (ok _) = ok tt
answer_of (err e) = err fatal

stored-registers :
    (out : Result (Unit {0}) HalError × Registers) (k : Kernel)
    → ((stored out k).1.procs.registers ≡ out.1)
      × ((stored out k).1.notification_ports ≡ k.notification_ports)
      × ((stored out k).0 ≡ answer_of out.0)
stored-registers (ok _, r) k = (refl, refl, refl)
stored-registers (err e, r) k = (refl, refl, refl)

consumed-has_notification :
    (k : Kernel) (this : ℕ) → has_notification (consumed this (k.notification_ports)) this ≡ false
unfolding has_notification consumed
consumed-has_notification k this = ground arith

not-false : (b : Bool) → not b ≡ false → b ≡ true
not-false true e = refl
not-false false e = absurd (ground arith)

idle_flag :
    (n : NotificationPorts) (this : ℕ)
    → n.current_state this ≡ NotificationState.has_flag
    → has_notification n this ≡ false
    → n.flag this ≡ 0
unfolding has_notification
idle_flag n this has idle = (==_iff (n.flag this) 0).0 (
    not-false (n.flag this == 0) (
      subst
        (λ (c : NotificationState).
          elim c [
            | NotificationState.has_flag ↦ not (n.flag this == 0)
            | NotificationState.none ↦ false
          ]
          ≡ false)
        has idle))

module _ (smp : Bool) (hal : Hal) (this owner : ℕ) where
  -- One notification after another.
  abbrev pub notify_each : List ℕ → M CapabilityError (Unit {0})
  notify_each [] k = (ok tt, k)
  notify_each (self ∷ rest) k =
      bind (operation_notify smp hal this owner self k) (λ _. notify_each rest)

  abbrev after_notify : ℕ → Kernel → Kernel
  after_notify self k = set_ports (notify this (k.slots.local self).word_0 (k.notification_ports)) k

  operation_notify-quiet :
      (k : Kernel) (self : ℕ)
      → IsQuiet smp hal k this
      → has_right k self write_right ≡ true
      → operation_notify smp hal this owner self k ≡ (ok tt, after_notify self k)
  unfolding operation_notify notified notify_state notify
  operation_notify-quiet k self quiet right = rw (right, quiet.bound, quiet.state) refl

  notify-flag :
      (k : Kernel) (self : ℕ)
      → ((after_notify self k).notification_ports.flag this
          ≡ bit_or (k.notification_ports.flag this) (k.slots.local self).word_0)
        × ((after_notify self k).notification_ports.current_state this ≡ NotificationState.has_flag)
  unfolding notify
  notify-flag k self = (
    write_self (k.notification_ports.flag) this _,
    write_self (k.notification_ports.current_state) this _,
  )

  -- What a poll leaves: the answer and the registers are those of the write of the flags, also where
  -- the write fails.
  pub record IsPolled (poller flag : ℕ) (k : Kernel)
      (out : Result (Unit {0}) CapabilityError × Kernel) : Type 0 where
    pub result :
        out.0 ≡ answer_of (hal.configure_message_register poller 2 flag (k.procs.registers)).0
    pub registers :
        out.1.procs.registers ≡ (hal.configure_message_register poller 2 flag (k.procs.registers)).1
    pub empty : has_notification (out.1.notification_ports) this ≡ false

  poll-IsPolled :
      (poller self : ℕ) (k : Kernel)
      → MayPoll k this poller self
      → k.notification_ports.current_state this ≡ NotificationState.has_flag
      → IsPolled poller
          (k.notification_ports.flag this)
          k
          (operation_poll smp hal this poller self k)
  unfolding operation_poll
  poll-IsPolled poller self k may has =
      elim (Bool-cases (has_notification (k.notification_ports) this)) [
        | inl pending ↦
            let done =
              stored-registers
                (hal.configure_message_register poller 2 (k.notification_ports.flag this)
                  (k.procs.registers))
                (set_ports (consumed this (k.notification_ports)) k) in
            rw (may.right, may.bound, pending)
              (record {
                result = done.2;
                registers = done.0;
                empty = rw done.1 (consumed-has_notification k this);
              })
        | inr idle ↦
            let done =
              stored-registers (hal.configure_message_register poller 2 0 (k.procs.registers)) k in
            let zero' : k.notification_ports.flag this ≡ 0 =
              idle_flag (k.notification_ports) this has idle in
            rw (may.right, may.bound, idle)
              (record {
                result = rw zero' done.2;
                registers = rw zero' done.0;
                empty = rw done.1 idle;
              })
      ]

  IsQuiet-after :
      (k : Kernel) (self : ℕ) → IsQuiet smp hal k this → IsQuiet smp hal (after_notify self k) this
  unfolding notify
  IsQuiet-after k self quiet = record { bound = quiet.bound; state = quiet.state }

  MayNotify-after :
      (k : Kernel) (self : ℕ) (rest : List ℕ)
      → MayNotify k rest
      → MayNotify (after_notify self k) rest
  MayNotify-after k self [] may = tt
  MayNotify-after k self (next ∷ rest) may = (may.0, MayNotify-after k self rest may.1)

  MayPoll-after :
      (k : Kernel) (notifier poller self : ℕ)
      → MayPoll k this poller self
      → MayPoll (after_notify notifier k) this poller self
  unfolding notify
  MayPoll-after k notifier poller self may = record { right = may.right; bound = may.bound }

  abbrev both : List ℕ → ℕ → ℕ → Kernel → Result (Unit {0}) CapabilityError × Kernel
  both rest poller self k = (notify_each rest >> operation_poll smp hal this poller self) k

  notify_each-poll_step :
      (first : ℕ) (rest : List ℕ) (poller self : ℕ) (k : Kernel)
      → IsQuiet smp hal k this
      → MayNotify k (first ∷ rest)
      → MayPoll k this poller self
      → IsPolled poller
          (gathered (k.slots) rest ((after_notify first k).notification_ports.flag this))
          (after_notify first k)
          (both rest poller self (after_notify first k))
      → IsPolled poller
          (gathered (k.slots) (first ∷ rest) (k.notification_ports.flag this))
          k
          (both (first ∷ rest) poller self k)
  notify_each-poll_step first rest poller self k quiet may poll further =
      let step =
        ap
          (λ (f : ℕ).
            hal.configure_message_register poller 2 (gathered (k.slots) rest f) (k.procs.registers))
          (notify-flag k first).0 in
      rw (operation_notify-quiet k first quiet may.0) (record {
        result =
            further.result
            ∙ ap (λ (out : Result (Unit {0}) HalError × Registers). answer_of out.0) step;
        registers =
            further.registers ∙ ap (λ (out : Result (Unit {0}) HalError × Registers). out.1) step;
        empty = further.empty;
      })

  poll_pending :
      (rest : List ℕ) (poller self : ℕ) (k : Kernel)
      → IsQuiet smp hal k this
      → MayNotify k rest
      → MayPoll k this poller self
      → k.notification_ports.current_state this ≡ NotificationState.has_flag
      → IsPolled poller
          (gathered (k.slots) rest (k.notification_ports.flag this))
          k
          ((notify_each rest >> operation_poll smp hal this poller self) k)
  poll_pending [] poller self k quiet may poll has = poll-IsPolled poller self k poll has
  poll_pending (first ∷ rest) poller self k quiet may poll has =
      notify_each-poll_step first rest poller self k quiet may poll (
        poll_pending rest poller self (after_notify first k) (IsQuiet-after k first quiet)
          (MayNotify-after k first rest may.1) (MayPoll-after k first poller self poll)
          (notify-flag k first).1)

  -- Where nobody waits at a port, no process bound to it is receiving, all notifications have the WRITE
  -- right and the poll the READ right, and no other process is bound, the notifications are gathered.
  -- The next poll writes the flags of all of them, with those pending before, to the poller's
  -- FLAG_WORD and leaves none. It succeeds where the hardware layer's write does; where that fails, the
  -- flags are gone and the answer is FATAL.
  pub notify_each-poll :
      (first : ℕ) (rest : List ℕ) (poller self : ℕ) (k : Kernel)
      → IsQuiet smp hal k this
      → MayNotify k (first ∷ rest)
      → MayPoll k this poller self
      → IsPolled poller
          (gathered (k.slots) (first ∷ rest) (k.notification_ports.flag this))
          k
          ((notify_each (first ∷ rest) >> operation_poll smp hal this poller self) k)
  notify_each-poll first rest poller self k quiet may poll =
      notify_each-poll_step first rest poller self k quiet may poll (
        poll_pending rest poller self (after_notify first k) (IsQuiet-after k first quiet)
          (MayNotify-after k first rest may.1) (MayPoll-after k first poller self poll)
          (notify-flag k first).1)
