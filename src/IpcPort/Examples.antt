-- ===== src/IpcPort/Examples.antt =====
-- Port 5, where process 2 waits to be answered, or nobody.
use a9n.Base.{ℕ, refl, false, [], ◌∷◌, write, arith}
use a9n.Base.Result.{Result, ok, err}
use a9n.Fixture.{plain_hal, kernel}
use a9n.CapabilityTypes.{zero_data, LookupError, terminal}
use a9n.IpcPort.Linked.{Linked}
use a9n.IpcPort.Quiet.{relation}
use a9n.IpcPort.Operations.{revoke, execute}
use a9n.IpcPort.Transfer.{move_capabilities}
use a9n.IpcPort.Transfer.Keep.{execute-InOrder}
use a9n.IpcPort.Operations.Emptied.{IsEmptied, revoke-IsEmptied}
use a9n.Kernel.{Kernel, IpcPortState, return}
use a9n.Process.{ProcessStatus, SourceReplyState}
use a9n.WaitQueue.{Pointers, push}
use a9n.WaitQueue.Push.{enqueue, push-Represents}
use a9n.WaitQueue.Queues.{Waiters, no_waiters, no_waiters-Represents}

abbrev nobody : Waiters
nobody = λ _. []

abbrev pushed : Pointers
pushed = push no_waiters 5 2

abbrev waiting_kernel : Kernel
waiting_kernel = record kernel {
  procs = record (kernel.procs) {
    next_ipc_queue = pushed.next;
    preview_ipc_queue = pushed.preview;
    current_ipc_port = pushed.port;
    status = write (kernel.procs.status) 2 ProcessStatus.blocked_reply;
    source_reply_state = write (kernel.procs.source_reply_state) 2 SourceReplyState.wait;
  };
  ipc_ports = record {
    queue = pushed.queue;
    state = write (kernel.ipc_ports.state) 5 IpcPortState.ready_to_send;
  };
}

revoke-IsEmptied_example :
    IsEmptied false plain_hal
      (λ a b n. return tt)
      5
      waiting_kernel
      (2 ∷ [])
      (revoke false plain_hal (λ a b n. return tt) 2 5 (ok tt, waiting_kernel))
revoke-IsEmptied_example =
    revoke-IsEmptied false plain_hal (λ a b n. return tt) 5 2 waiting_kernel (enqueue nobody 5 2)
      (push-Represents no_waiters nobody 5 2 no_waiters-Represents refl) (omega arith)

-- Process 1 calls port 5, where nobody waits: the operation 3, with a message_info that blocks.
abbrev calling : Kernel
calling = record kernel { procs = record (kernel.procs) { registers = λ p index. 3 } }

abbrev lookup : Kernel → ℕ → ℕ → Result ℕ LookupError
lookup k p descriptor = err terminal

execute-InOrder_example :
    Linked (relation (execute false plain_hal (move_capabilities lookup) zero_data 5 1 7 calling).1)
execute-InOrder_example = execute-InOrder lookup false plain_hal zero_data 5 1 7 calling (record {
  linked = record {
    waiters = nobody;
    represents = no_waiters-Represents;
    answers = λ s c e. absurd (ground (arith, e));
    waits = λ p h. refl;
  };
  free = record { server = refl; port = refl };
})
