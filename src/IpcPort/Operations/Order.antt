-- ===== src/IpcPort/Operations/Order.antt =====
-- kernel/capability/ipc_port.cpp: the reply relation under every operation of a port.
use a9n.Base.{ℕ, refl, Bool, true, false, not, Option, none, some, ◌==◌, if◌then◌else◌, ◌&&◌}
use a9n.CapabilityTypes.{CapabilityError, SlotData}
use a9n.Hal.{Hal}
use a9n.IpcPort.Linked.{InOrder, Linked, Idle, Leads, Quiet-Leads, >>=-Leads, >>-Leads}
use a9n.IpcPort.Operations.{
  remember, operation_send, receive_state, operation_receive, operation_call, operation_reply,
  may_reply_directly, return_to, reply_directly, operation_reply_receive, operation_identify,
  perform, execute, operation_fault_call,
}
use a9n.IpcPort.Quiet.{
  relation, Quiet, return-Quiet, fail-Quiet, Keeps-Quiet, reading-Quiet, or_else-Quiet, read-Quiet,
  get_message_info-Quiet,
}
use a9n.IpcPort.Reply.{has_reply}
use a9n.IpcPort.Reply.Keep.{complete_reply-Leads}
use a9n.Kernel.{Kernel, M}
use a9n.Kernel.Preserve.{if_hold}
use a9n.Manager.{direct_and_switch}
use a9n.Manager.Frame.{direct_and_switch-Keeps}
use a9n.MessageInfo.{is_normal}
use a9n.Notification.{has_right, read_right, write_right, modify_right}
use a9n.Notification.Operations.{identify_with, or_zero}
use a9n.IpcPort.Operations.Keep.{
  blocked_receiving, call_state-Leads, converted-Leads, discard_reply-Leads, fault_state-Leads,
  if_lead, push-Leads, receive_state-Leads, reply_client_hold, send_state-Leads, unseen, weakly,
}

module _ (smp : Bool) (hal : Hal) (move_capabilities : ℕ → ℕ → ℕ → M CapabilityError (Unit {0}))
    (moved : (d s n : ℕ) → Quiet (move_capabilities d s n)) where
  module _ (this owner self : ℕ) where
    -- The server blocks, and its client goes on.
    return_to-Quiet : (client : Option ℕ) → Quiet (return_to smp hal move_capabilities owner client)
    unfolding return_to
    return_to-Quiet none = return-Quiet tt
    return_to-Quiet (some client) =
        reading-Quiet
          (λ k.
            direct_and_switch hal (if smp then k.procs.core_affinity owner else 0) client
              (if smp then k.procs.core_affinity owner else 0))
          (λ k. Keeps-Quiet (
            direct_and_switch-Keeps hal (if smp then k.procs.core_affinity owner else 0) client
              (if smp then k.procs.core_affinity owner else 0)))

    reply_directly-Leads :
        (info : ℕ) (client : Option ℕ)
        → Leads
            (Idle owner)
            Linked
            (reply_directly smp hal move_capabilities this owner info client)
    unfolding reply_directly
    reply_directly-Leads info client =
        >>-Leads
          (>>-Leads (complete_reply-Leads smp hal move_capabilities moved false owner info)
            (λ v h. h)
            (unseen smp hal move_capabilities moved {P = Idle owner}
              (blocked_receiving smp hal move_capabilities moved this owner) (λ k. refl)))
          (λ v h. h.linked)
          (converted-Leads smp hal move_capabilities moved (
            >>-Leads (push-Leads smp hal move_capabilities moved this owner) (λ v h. h)
              (Quiet-Leads (return_to-Quiet client))))

    receive_now-Leads :
        (info : ℕ)
        → Leads (Idle owner) Linked (λ k.
          receive_state smp hal move_capabilities this owner info (k.ipc_ports.state this) k)
    receive_now-Leads info = record {
      lead = λ k old.
          (receive_state-Leads smp hal move_capabilities moved this owner self info
              (k.ipc_ports.state this)).lead
            k old;
    }

    operation_send_hold :
        (info : ℕ) (k : Kernel)
        → Idle owner (relation k)
        → InOrder (operation_send smp hal move_capabilities this owner self info k).1
    unfolding operation_send
    operation_send_hold info k old =
        if_hold InOrder (has_right k self write_right) _ _
          ((send_state-Leads smp hal move_capabilities moved this owner self info
              (k.ipc_ports.state this)).lead
            k old)
          old.linked

    operation_receive_hold :
        (info : ℕ) (k : Kernel)
        → Idle owner (relation k)
        → InOrder (operation_receive smp hal move_capabilities this owner self info k).1
    unfolding operation_receive
    operation_receive_hold info k old =
        if_hold InOrder (has_right k self read_right) _ _
          ((>>-Leads (discard_reply-Leads smp hal move_capabilities moved this owner self)
              (λ v h. h.linked) (receive_now-Leads info)).lead
            k old)
          old.linked

    operation_call_hold :
        (info : ℕ) (k : Kernel)
        → Idle owner (relation k)
        → InOrder (operation_call smp hal move_capabilities this owner self info k).1
    unfolding operation_call
    operation_call_hold info k old =
        if_hold InOrder (has_right k self write_right) _ _
          ((call_state-Leads smp hal move_capabilities moved this owner self info
              (k.ipc_ports.state this)).lead
            k old)
          old.linked

    operation_reply_hold :
        (info : ℕ) (k : Kernel)
        → Idle owner (relation k)
        → InOrder (operation_reply smp hal move_capabilities owner info k).1
    unfolding operation_reply
    operation_reply_hold info k old =
        if_hold InOrder (has_reply (k.procs.destination_reply_state owner)) _ _
          (reply_client_hold smp hal move_capabilities moved this owner self info
            (k.procs.destination_reply_target owner) k old refl)
          old.linked

    operation_reply_receive_hold :
        (info : ℕ) (k : Kernel)
        → Idle owner (relation k)
        → InOrder (operation_reply_receive smp hal move_capabilities this owner self info k).1
    unfolding operation_reply_receive
    operation_reply_receive_hold info k old =
        if_hold InOrder (not (has_right k self read_right)) _ _ old.linked (
          if_hold InOrder (may_reply_directly smp hal move_capabilities this owner info k) _ _
            ((reply_directly-Leads info (k.procs.destination_reply_target owner)).lead k old)
            ((>>-Leads (complete_reply-Leads smp hal move_capabilities moved true owner info)
                (λ v h. h.linked) (receive_now-Leads info)).lead
              k old))

    -- A fault of a process that waits for nothing keeps the reply relation in order.
    pub operation_fault_call-Linked :
        (k : Kernel)
        → Idle owner (relation k)
        → Linked (relation (operation_fault_call smp hal move_capabilities this owner self k).1)
    unfolding operation_fault_call
    operation_fault_call-Linked k old =
        if_hold InOrder (has_right k self write_right && has_right k self read_right) _ _
          ((fault_state-Leads smp hal move_capabilities moved this owner self
              (k.ipc_ports.state this)).lead
            (remember smp hal move_capabilities owner self k)
            (record {
              linked = old.linked;
              free = record { server = old.free.server; port = old.free.port };
            }))
          old.linked

    operation_identify_hold :
        (unset : SlotData) (k : Kernel)
        → InOrder k
        → InOrder (operation_identify smp hal move_capabilities unset owner self k).1
    unfolding operation_identify
    operation_identify_hold unset k old =
        if_hold InOrder (has_right k self modify_right) _ _
          ((>>=-Leads {P = Linked}
              (Quiet-Leads (or_else-Quiet (read-Quiet hal owner 2) (λ e. fail-Quiet _))) (λ v h. h)
              (λ v.
                unseen smp hal move_capabilities moved (identify_with smp hal unset self v)
                  (λ k'. refl))).lead
            k old)
          old

    led :
        {m : M CapabilityError (Unit {0})}
        → ((k : Kernel) → Idle owner (relation k) → InOrder (m k).1)
        → Leads (Idle owner) Linked m
    led step = record { lead = step }

    perform-Leads :
        (unset : SlotData) (info operation : ℕ)
        → Leads
            (Idle owner)
            Linked
            (perform smp hal move_capabilities unset this owner self info operation)
    unfolding perform
    perform-Leads unset info operation =
        if_lead smp hal move_capabilities moved (operation == 1) (led (operation_send_hold info)) (
          if_lead smp hal move_capabilities moved (operation == 2)
            (led (operation_receive_hold info))
            (if_lead smp hal move_capabilities moved (operation == 3)
              (led (operation_call_hold info))
              (if_lead smp hal move_capabilities moved (operation == 4)
                (led (operation_reply_hold info))
                (if_lead smp hal move_capabilities moved (operation == 5)
                  (led (operation_reply_receive_hold info))
                  (if_lead smp hal move_capabilities moved (operation == 6)
                    (led (λ k old. operation_identify_hold unset k old.linked))
                    (weakly smp hal move_capabilities moved (fail-Quiet _)))))))

    -- Every operation of a running process on a port, with whatever result, leaves the wait queues of
    -- all ports intact and the reply relation in order: the process that a server owes a reply waits
    -- for that server, and a process that waits at a port has no server yet.
    pub execute-Linked :
        (unset : SlotData) (k : Kernel)
        → Idle owner (relation k)
        → Linked (relation (execute smp hal move_capabilities unset this owner self k).1)
    unfolding execute
    execute-Linked unset k old =
        (>>=-Leads {P = Idle owner} (Quiet-Leads (get_message_info-Quiet hal owner))
            (λ v h. h.linked)
            (λ info. record {
              lead = λ k' old'.
                  if_hold InOrder (is_normal info) _ _
                    ((perform-Leads unset info (
                        or_zero smp hal
                          (hal.get_message_register owner 1 (k'.procs.registers)))).lead
                      k' old')
                    old'.linked;
            })).lead
          k old
