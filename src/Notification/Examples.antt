-- ===== src/Notification/Examples.antt =====
-- Port 5, with nobody waiting or with process 2.
use a9n.Base.{refl, some, false, [], ◌∷◌, write, arith}
use a9n.Base.Result.{ok}
use a9n.CapabilityTypes.{zero_data}
use a9n.ControlBlock.Detached.{AreOrdered}
use a9n.Fixture.{plain_hal, kernel}
use a9n.IpcPort.Linked.{Linked, enter-Linked}
use a9n.IpcPort.Quiet.{relation}
use a9n.IpcQueue as IpcQueue
use a9n.Process.{ProcessStatus}
use a9n.Kernel.{Kernel, ◌>>◌}
use a9n.Notification.Operations.{operation_notify, operation_poll, execute}
use a9n.Notification.Operations.Deliver.{IsDelivered, operation_notify-IsDelivered}
use a9n.Notification.Operations.Gather.{notify_each, IsPolled, notify_each-poll}
use a9n.Notification.Operations.Ports.{execute-AreOrdered}
use a9n.Notification.Queue.{Waiting, state_of}
use a9n.Notification.Revocation.{revoke_waiters}
use a9n.Notification.Revocation.Emptied.{IsEmptied, revoke_waiters-IsEmptied}
use a9n.WaitQueue.{Pointers, push}
use a9n.WaitQueue.Push.{enqueue, push-port, push-Represents}
use a9n.WaitQueue.Queues.{Waiters, no_waiters, no_waiters-Represents}

abbrev nobody : Waiters
nobody = λ _. []

-- Process 1 asks to NOTIFY, the operation 1, the port 5. The process 2 is bound to it and waits to receive at
-- the IPC port 6.
abbrev receiving : Kernel
receiving =
    let entered = IpcQueue.put_pointers (push (IpcQueue.pointers kernel) 6 2) kernel in
    record entered {
      procs = record (entered.procs) {
        registers = λ p index. 1;
        status = write (entered.procs.status) 2 ProcessStatus.blocked_receive;
      };
      notification_ports = record (entered.notification_ports) {
        binded_process = write (entered.notification_ports.binded_process) 5 (some 2);
      };
    }

unlinked : Linked (relation kernel)
unlinked = record {
  waiters = nobody;
  represents = no_waiters-Represents;
  answers = λ s c e. absurd (ground (arith, e));
  waits = λ p h. refl;
}

ordered : AreOrdered receiving
ordered = record {
  ipc = enter-Linked (relation kernel) unlinked 6 2 (record { server = refl; port = refl });
  notification = record {
    waiters = nobody;
    waiting = record { represents = no_waiters-Represents; state = λ n. refl };
    exclusive = λ p h. refl;
  };
}

execute-AreOrdered_example : AreOrdered (execute false plain_hal zero_data 5 1 7 receiving).1
execute-AreOrdered_example =
    execute-AreOrdered false plain_hal 5 1 7 zero_data receiving ordered (record {
      no_ipc_port = push-port (IpcQueue.pointers kernel) 6 2 1;
      no_notification_port = refl;
    })

-- Notifications through the slots 4 and 8, and a poll of process 2.
notify_each-poll_example :
    IsPolled false plain_hal 5 1 2 12 kernel (
      (notify_each false plain_hal 5 1 (4 ∷ 8 ∷ []) >> operation_poll false plain_hal 5 2 9) kernel)
notify_each-poll_example =
    notify_each-poll false plain_hal 5 1 4 (8 ∷ []) 2 9 kernel
      (record { bound = refl; state = refl }) (refl, (refl, tt))
      (record { right = refl; bound = refl })

abbrev pushed : Pointers
pushed = push no_waiters 5 2

abbrev waiting_kernel : Kernel
waiting_kernel = record kernel {
  procs = record (kernel.procs) {
    next_notification_queue = pushed.next;
    preview_notification_queue = pushed.preview;
    current_notification_port = pushed.port;
  };
  notification_ports = record (kernel.notification_ports) {
    queue = pushed.queue;
    state = λ n. state_of (enqueue nobody 5 2 n);
  };
}

one-Waiting : Waiting waiting_kernel (enqueue nobody 5 2)
one-Waiting = record {
  represents = push-Represents no_waiters nobody 5 2 no_waiters-Represents refl;
  state = λ n. refl;
}

operation_notify-IsDelivered_example :
    IsDelivered false plain_hal 5 1 7 waiting_kernel
      (enqueue nobody 5 2)
      2
      []
      (write (λ p index. 0) 2 (write (λ index. 0) 2 7))
      (operation_notify false plain_hal 5 1 7 waiting_kernel)
operation_notify-IsDelivered_example =
    operation_notify-IsDelivered false plain_hal 5 1 7 waiting_kernel (enqueue nobody 5 2) 2 []
      (write (λ p index. 0) 2 (write (λ index. 0) 2 7)) one-Waiting refl refl refl refl

revoke_waiters-IsEmptied_example :
    IsEmptied false plain_hal 5 (revoke_waiters false plain_hal 2 5 (ok tt, waiting_kernel))
revoke_waiters-IsEmptied_example =
    revoke_waiters-IsEmptied false plain_hal 5 2 waiting_kernel (enqueue nobody 5 2) one-Waiting
      (omega arith)
