-- ===== src/ControlBlock/Examples.antt =====
-- Process 1 waits at the IPC port 5, and process 0 operates on it.
use a9n.Base.{ℕ, ◌^◌, ◌+◌, refl, false, some, [], write, arith}
use a9n.Base.Result.{Result, ok, KernelError}
use a9n.CapabilityTypes.{CapabilityType, LookupError}
use a9n.ControlBlock.{cancel_own_wait, operation_resume, operation_write_register}
use a9n.ControlBlock.Cancelled.{cancel_own_wait-IsCancelled, operation_resume-IsResumed}
use a9n.ControlBlock.Detached.{AreOrdered, IsCancelled, IsResumed}
use a9n.ControlBlock.Configure.{operation_configure}
use a9n.ControlBlock.Configure.Bounds.{IsBounded, operation_configure-IsBounded}
use a9n.ControlBlock.Written.{IsWritten, operation_write_register-IsWritten}
use a9n.Fixture.{plain_hal, kernel}
use a9n.IpcPort.Linked.{Linked, enter-Linked}
use a9n.IpcPort.Quiet.{relation}
use a9n.IpcQueue.{pointers, put_pointers}
use a9n.Kernel.{Kernel, M}
use a9n.Slot.{init}
use a9n.WaitQueue.{push}
use a9n.WaitQueue.Queues.{Waiters, no_waiters-Represents}

abbrev nobody : Waiters
nobody = λ _. []

abbrev waiting : Kernel
waiting = put_pointers (push (pointers kernel) 5 1) kernel

quiet : Linked (relation kernel)
quiet = record {
  waiters = nobody;
  represents = no_waiters-Represents;
  answers = λ s c e. absurd (ground (arith, e));
  waits = λ p h. refl;
}

ordered : AreOrdered waiting
ordered = record {
  ipc = enter-Linked (relation kernel) quiet 5 1 (record { server = refl; port = refl });
  notification = record {
    waiters = nobody;
    waiting = record { represents = no_waiters-Represents; state = λ n. refl };
    exclusive = λ p h. refl;
  };
}

cancel_own_wait_example : IsCancelled 1 (cancel_own_wait false plain_hal 1 waiting)
cancel_own_wait_example = cancel_own_wait-IsCancelled 1 false plain_hal waiting ordered

operation_resume_example : IsResumed 1 (operation_resume false plain_hal 1 0 waiting).1
operation_resume_example = operation_resume-IsResumed 1 false plain_hal 0 waiting refl ordered

-- The caller asks for the priority 7 and for core 0, and sends two registers.
abbrev asking : Kernel
asking = record kernel {
  procs = record (kernel.procs) {
    registers = write (λ p index. 0) 0 (write (write (λ index. 2) 11 7) 12 0);
  };
}

-- The caller asks for a new root node, which the slot 20 holds, for the priority 7 and for core 0.
abbrev configuring : Kernel
configuring = record kernel {
  procs = record (kernel.procs) {
    registers = write (λ p index. 0) 0 (write (write (λ index. 2 ^ 1 + 2 ^ 8 + 2 ^ 9) 11 7) 12 0);
  };
  slots = record (kernel.slots) {
    type = write (kernel.slots.type) 20 CapabilityType.node;
    component = write (kernel.slots.component) 20 (some 100);
  };
}

abbrev lookup : Kernel → ℕ → ℕ → Result ℕ LookupError
lookup k p descriptor = ok 20

abbrev take_out : ℕ → M KernelError (Unit {0})
take_out n k = (ok tt, record k { slots = init (k.slots) n })

operation_configure_example :
    IsBounded plain_hal 1 configuring
      (operation_configure plain_hal lookup take_out 1 0 configuring).1
operation_configure_example =
    operation_configure-IsBounded plain_hal lookup take_out 1 0 4 configuring
      (λ n k. record { priority = refl; affinity = refl }) (omega arith) refl (omega arith)

operation_write_register_example :
    IsWritten 1 0 2
      (λ j. asking.procs.registers 0 (j + 3))
      asking
      (operation_write_register plain_hal 1 0 asking)
operation_write_register_example =
    operation_write_register-IsWritten plain_hal 1 0 2 (λ j. asking.procs.registers 0 (j + 3))
      asking refl (omega arith) (record { apart = λ r i j v. refl; values = λ j h. refl })
