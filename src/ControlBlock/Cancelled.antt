-- ===== src/ControlBlock/Cancelled.antt =====
-- `cancel_own_wait` and `operation_resume` of kernel/capability/process_control_block.cpp: a process that leaves
-- whatever it waits for.
use a9n.Base.{
  ℕ, ◌≡◌, refl, sym, ap, subst, ◌∙◌, Bool, true, false, Option, none, some, write_self, points_to,
  if◌then◌else◌, arith,
}
use a9n.Base.Result.{Result, ok, err}
use a9n.CapabilityTypes.{CapabilityError, fatal}
use a9n.ControlBlock.{
  detach_from_wait_queues, cancel_own_wait, operation_resume, is_running_on_assigned_core,
  clear_fault,
}
use a9n.Hal.{Hal}
use a9n.IpcPort.Linked.{Idle}
use a9n.IpcPort.Quiet.{Relation, relation}
use a9n.IpcPort.{set_destination_reply}
use a9n.IpcPort.Reply.{detached, detach_server, cancel_reply}
use a9n.IpcPort.Reply.Keep.{cancel_reply-detached, detached-Linked, detach_server-kept}
use a9n.Kernel.{Kernel, bind, modify, convert_kernel, set_status}
use a9n.Manager.Frame.{outside, or_else-Keeps, fail-Keeps}
use a9n.Manager.Route.{route_mark_scheduled}
use a9n.Manager.Route.Keep.{route_mark_scheduled-Keeps}
use a9n.Notification.Waiting.{IsRunning, outside-IsOrdered}
use a9n.Process.{ProcessStatus, DestinationReplyState, FaultType}
use a9n.WaitQueue.{Pointers}
use a9n.ControlBlock.Detached.{
  AreOrdered, IsIdle, IsCancelled, IsResumed, without_replies, without_replies-IsOrdered,
  IsDetached, detach_from_wait_queues-IsDetached,
}

module _ (p : ℕ) where
  detach_if-same :
      (k : Kernel) (s : ℕ) (b : Bool)
      → without_replies (if b then set_destination_reply s DestinationReplyState.none none k else k)
        ≡ without_replies k
  detach_if-same k s true = refl
  detach_if-same k s false = refl

  detach_server-same :
      (k : Kernel) (o : Option ℕ) → without_replies (detach_server p o k) ≡ without_replies k
  detach_server-same k none = refl
  detach_server-same k (some s) =
      detach_if-same k s (points_to (k.procs.destination_reply_target s) p)

  detached-IsIdle : (k : Kernel) → AreOrdered k → IsRunning k p → IsIdle p (detached p k)
  detached-IsIdle k old running =
      let kept = detach_server-kept p (k.procs.source_reply_target p) k in
      let same = detach_server-same k (k.procs.source_reply_target p) in
      record {
        ipc = record {
          linked = detached-Linked p k (k.procs.source_reply_target p) old.ipc refl;
          free = record {
            server =
                write_self
                  (detach_server p (k.procs.source_reply_target p) k).procs.source_reply_target p
                  none;
            port = ap (λ (q : Pointers). q.port p) kept.1 ∙ running.no_ipc_port;
          };
        };
        notification = without_replies-IsOrdered same old.notification;
        running = record {
          no_ipc_port = ap (λ (q : Pointers). q.port p) kept.1 ∙ running.no_ipc_port;
          no_notification_port =
              ap (λ (a : Kernel). a.procs.current_notification_port p) same
              ∙ running.no_notification_port;
        };
      }

  module _ (smp : Bool) (hal : Hal) where
    -- In an ordered state the process leaves its queue, and its server forgets it, without an error.
    pub cancel_own_wait-IsCancelled :
        (k : Kernel) → AreOrdered k → IsCancelled p (cancel_own_wait smp hal p k)
    unfolding cancel_own_wait
    cancel_own_wait-IsCancelled k old =
        cancelled (detach_from_wait_queues p k) (detach_from_wait_queues-IsDetached p k old)
      where
        cancelled :
            (out : Result (Unit {0}) CapabilityError × Kernel)
            → IsDetached p out
            → IsCancelled p (bind out (λ _. cancel_reply smp hal p false))
        cancelled (ok _, k') detached_out = rw (cancel_reply-detached smp hal p k') (record {
          result = refl;
          idle = detached-IsIdle k' detached_out.ordered detached_out.running;
        })
        cancelled (err e, k') detached_out = absurd (ground (arith, detached_out.result))

    cleared-IsIdle :
        (k : Kernel) → IsIdle p k → IsIdle p (set_status p ProcessStatus.ready (clear_fault p k))
    cleared-IsIdle k old = record {
      ipc = old.ipc;
      notification = without_replies-IsOrdered refl old.notification;
      running = record {
        no_ipc_port = old.running.no_ipc_port;
        no_notification_port = old.running.no_notification_port;
      };
    }

    outside-IsIdle : (k k' : Kernel) → outside k' ≡ outside k → IsIdle p k → IsIdle p k'
    outside-IsIdle k k' e old =
        let same : relation k' ≡ relation k = ap (λ (a : Kernel). relation a) e in
        record {
          ipc = subst (Idle p) (sym same) old.ipc;
          notification = outside-IsOrdered e old.notification;
          running = record {
            no_ipc_port = ap (λ (v : Relation). v.queues.port p) same ∙ old.running.no_ipc_port;
            no_notification_port =
                ap (λ (a : Kernel). a.procs.current_notification_port p) e
                ∙ old.running.no_notification_port;
          };
        }

    -- Also where the scheduling of the process fails.
    pub operation_resume-IsResumed :
        (owner : ℕ) (k : Kernel)
        → is_running_on_assigned_core p k ≡ false
        → AreOrdered k
        → IsResumed p (operation_resume smp hal p owner k).1
    unfolding operation_resume
    operation_resume-IsResumed owner k rests old =
        rw rests (resumed (cancel_own_wait smp hal p k) (cancel_own_wait-IsCancelled k old))
      where
        routed :
            (k' : Kernel)
            → IsIdle p k'
            → IsResumed p
                (convert_kernel
                  (route_mark_scheduled smp hal false owner p)
                  (set_status p ProcessStatus.ready (clear_fault p k'))).1
        routed k' idle =
            let start = set_status p ProcessStatus.ready (clear_fault p k') in
            let kept =
              or_else-Keeps (route_mark_scheduled-Keeps smp hal false owner p)
                (λ e. fail-Keeps fatal) in
            let same = (kept.keep start).same in
            record {
              idle =
                  outside-IsIdle start
                    (convert_kernel (route_mark_scheduled smp hal false owner p) start).1 same
                    (cleared-IsIdle k' idle);
              fault =
                  ap (λ (a : Kernel). a.procs.fault_reason p) same
                  ∙ write_self k'.procs.fault_reason p FaultType.none;
            }

        resumed :
            (out : Result (Unit {0}) CapabilityError × Kernel)
            → IsCancelled p out
            → IsResumed p
                (bind
                  (bind out (λ _. modify (λ a. set_status p ProcessStatus.ready (clear_fault p a))))
                  (λ _. convert_kernel (route_mark_scheduled smp hal false owner p))).1
        resumed (ok _, k') done = routed k' done.idle
        resumed (err e, k') done = absurd (ground (arith, done.result))
