-- ===== src/IpcPort/Operations/Keep.antt =====
-- kernel/capability/ipc_port.cpp: the reply relation under the branches of a port's operations.
use a9n.Base.{ℕ, ◌≡◌, refl, ap, sym, subst, Bool, true, false, Option, none, some, if◌then◌else◌}
use a9n.Base.Result.{Result, ok, err, KernelError}
use a9n.CapabilityTypes.{CapabilityError}
use a9n.Hal.{Hal}
use a9n.IpcPort.{is_faulted, set_source_reply}
use a9n.IpcPort.Faults.{transfer_fault_message-Quiet}
use a9n.IpcPort.Linked.{
  InOrder, Linked, Idle, Leads, link-Linked, forget-Linked, enter-Linked, Quiet-Leads, >>=-Leads,
  >>-Leads, modify-Leads,
}
use a9n.IpcPort.Operations.{
  remember, enter_queue, send_blocked, send_to, send_state, receive_blocked, unless_delivered,
  receive_waiting, receive_state, cancel_client, discard_reply, call_blocked, call_accepted,
  switch_to_server, call_to, call_state, continue_server, reply_client, fault_blocked, fault_to,
  fault_state,
}
use a9n.IpcPort.Quiet.{
  Relation, relation, Quiet, modify-Quiet, return-Quiet, fail-Quiet, Keeps-Quiet, >>-Quiet,
  or_else-Quiet, transfer_message-Quiet, transfer_direct_message-Quiet,
}
use a9n.IpcPort.Reply.{has_reply, try_deliver_pending_binded_notification}
use a9n.IpcPort.Reply.Keep.{
  Serving, scheduled-Quiet, cancel_reply-Leads, replied-Leads, reply_fault-Leads, try_deliver-Quiet,
  try_receive-Leads,
}
use a9n.IpcPort.Taken.{called-Leads}
use a9n.IpcQueue.{set_state, push_ipc_queue}
use a9n.IpcQueue.Leave.{push_ipc_queue-eq}
use a9n.Kernel.{
  Kernel, IpcPortState, M, ◌>>=◌, ◌>>◌, return, modify, convert_kernel, or_else_result, fail,
  set_status,
}
use a9n.Kernel.Preserve.{if_hold}
use a9n.Manager.Route.Keep.{try_schedule_and_switch-Keeps, try_direct_schedule_and_switch-Keeps}
use a9n.MessageInfo.{is_block}
use a9n.Process.{ProcessStatus, SourceReplyState}
use a9n.WaitQueue.Equal.{write_same}

module _ (smp : Bool) (hal : Hal) (move_capabilities : ℕ → ℕ → ℕ → M CapabilityError (Unit {0}))
    (moved : (d s n : ℕ) → Quiet (move_capabilities d s n)) where
  -- A change that the relation does not see.
  pub unseen :
      {P : Relation → Type 0} (g : Kernel → Kernel)
      → ((k : Kernel) → relation (g k) ≡ relation k)
      → Leads P P {E = CapabilityError} (modify g)
  unseen {P} g same = modify-Leads g (λ k h. subst P (sym (same k)) h)

  pub if_lead :
      (b : Bool) {P Q : Relation → Type 0} {m n : M CapabilityError (Unit {0})}
      → Leads P Q m
      → Leads P Q n
      → Leads P Q (if b then m else n)
  if_lead true km kn = km
  if_lead false km kn = kn

  pub weakly :
      {owner : ℕ} {m : M CapabilityError (Unit {0})} → Quiet m → Leads (Idle owner) Linked m
  weakly km = record { lead = λ k old. (Quiet-Leads {P = Linked} km).lead k old.linked }

  pub push-Leads : (this owner : ℕ) → Leads (Idle owner) Linked (push_ipc_queue this owner)
  push-Leads this owner = record {
    lead = λ k old.
        subst (λ (out : Result (Unit {0}) KernelError × Kernel). Linked (relation out.1))
          (sym (push_ipc_queue-eq this owner k))
          (enter-Linked (relation k) old.linked this owner old.free);
  }

  or_else_lead :
      (out : Result (Unit {0}) KernelError × Kernel) (f : KernelError → CapabilityError)
      → InOrder out.1
      → InOrder (or_else_result out (λ e. fail {A = Unit {0}} (f e))).1
  or_else_lead (ok a, k) f h = h
  or_else_lead (err e, k) f h = h

  pub converted-Leads :
      {owner : ℕ} {m : M KernelError (Unit {0})}
      → Leads (Idle owner) Linked m
      → Leads (Idle owner) Linked (convert_kernel m)
  converted-Leads {owner} {m} km = record { lead = λ k h. or_else_lead (m k) _ (km.lead k h) }

  abbrev pub blocked_receiving : ℕ → ℕ → Kernel → Kernel
  blocked_receiving this owner k =
      set_status owner ProcessStatus.blocked_receive
        (set_state this IpcPortState.ready_to_receive k)

  module _ (this owner self : ℕ) where
    enter_queue-Leads : Leads (Idle owner) Linked (enter_queue smp hal move_capabilities this owner)
    enter_queue-Leads = converted-Leads (
        >>-Leads (push-Leads this owner) (λ v h. h)
          (Quiet-Leads (Keeps-Quiet (try_schedule_and_switch-Keeps smp hal owner))))

    send_blocked-Leads :
        Leads (Idle owner) Linked (send_blocked smp hal move_capabilities this owner self)
    unfolding send_blocked
    send_blocked-Leads =
        >>-Leads (unseen {P = Idle owner} _ (λ k. refl)) (λ v h. h.linked) enter_queue-Leads

    send_to-Leads :
        (info target : ℕ)
        → Leads (Idle owner) Linked (send_to smp hal move_capabilities this owner self info target)
    unfolding send_to
    send_to-Leads info target =
        >>-Leads
          (>>-Leads
            (unseen {P = Idle owner}
              (λ k.
                remember smp hal move_capabilities owner self
                  (set_status target ProcessStatus.ready k))
              (λ k. refl))
            (λ v h. h.linked)
            (weakly (transfer_message-Quiet hal move_capabilities moved this target owner info)))
          (λ v h. h) (Quiet-Leads (scheduled-Quiet smp hal owner target))

    pub send_state-Leads :
        (info : ℕ) (s : IpcPortState)
        → Leads (Idle owner) Linked (send_state smp hal move_capabilities this owner self info s)
    unfolding send_state
    send_state-Leads info IpcPortState.ready_to_receive =
        called-Leads (send_to smp hal move_capabilities this owner self info) this owner
          (send_to-Leads info)
    send_state-Leads info IpcPortState.wait =
        if_lead (is_block info) send_blocked-Leads (weakly (return-Quiet tt))
    send_state-Leads info IpcPortState.ready_to_send =
        if_lead (is_block info) send_blocked-Leads (weakly (return-Quiet tt))

    receive_blocked-Leads :
        Leads (Idle owner) Linked (receive_blocked smp hal move_capabilities this owner)
    unfolding receive_blocked
    receive_blocked-Leads =
        >>-Leads (unseen {P = Idle owner} _ (λ k. refl)) (λ v h. h.linked) enter_queue-Leads

    unless_delivered-Leads :
        {m : M CapabilityError (Unit {0})} (b : Bool)
        → Leads (Idle owner) Linked m
        → Leads (Idle owner) Linked (unless_delivered smp hal move_capabilities m b)
    unless_delivered-Leads true km = weakly (return-Quiet tt)
    unless_delivered-Leads false km = km

    receive_waiting-Leads :
        (info : ℕ)
        → Leads (Idle owner) Linked (receive_waiting smp hal move_capabilities this owner info)
    unfolding receive_waiting
    receive_waiting-Leads info =
        >>=-Leads (Quiet-Leads (try_deliver-Quiet smp hal owner)) (λ v h. h.linked)
          (λ b.
            unless_delivered-Leads b
              (if_lead (is_block info) receive_blocked-Leads (weakly (return-Quiet tt))))

    pub receive_state-Leads :
        (info : ℕ) (s : IpcPortState)
        → Leads (Idle owner) Linked (receive_state smp hal move_capabilities this owner info s)
    unfolding receive_state
    receive_state-Leads info IpcPortState.ready_to_send = record {
      lead =
          λ k old. (try_receive-Leads smp hal move_capabilities moved this owner).lead k old.linked;
    }
    receive_state-Leads info IpcPortState.wait = receive_waiting-Leads info
    receive_state-Leads info IpcPortState.ready_to_receive = receive_waiting-Leads info

    -- A caller that keeps the server that it has.
    waiting-relation :
        (k : Kernel)
        → relation
            (set_source_reply owner SourceReplyState.wait (k.procs.source_reply_target owner) k)
          ≡ relation k
    waiting-relation k =
        ap (λ (f : ℕ → Option ℕ). record (relation k) { server = f })
          (write_same (k.procs.source_reply_target) owner (k.procs.source_reply_target owner) refl)

    call_blocked-Leads :
        Leads (Idle owner) Linked (call_blocked smp hal move_capabilities this owner self)
    unfolding call_blocked
    call_blocked-Leads =
        >>-Leads (unseen {P = Idle owner} _ (λ k. waiting-relation k)) (λ v h. h.linked)
          enter_queue-Leads

    fault_blocked-Leads :
        Leads (Idle owner) Linked (fault_blocked smp hal move_capabilities this owner)
    unfolding fault_blocked
    fault_blocked-Leads =
        >>-Leads (unseen {P = Idle owner} _ (λ k. waiting-relation k)) (λ v h. h.linked)
          enter_queue-Leads

    switch-Quiet : (target : ℕ) → Quiet (switch_to_server smp hal move_capabilities owner target)
    switch-Quiet target =
        >>-Quiet (modify-Quiet (set_status target ProcessStatus.ready) (λ k. refl)) (
          or_else-Quiet (Keeps-Quiet (try_direct_schedule_and_switch-Keeps smp hal owner target))
            (λ e. fail-Quiet _))

    -- A call that `target` accepts, with its message.
    call_hold :
        (m : M CapabilityError (Unit {0})) (s : ProcessStatus) (target : ℕ) (k : Kernel)
        → Quiet m
        → Idle owner (relation k)
        → InOrder (m (call_accepted smp hal move_capabilities s owner target k)).1
    call_hold m s target k km old =
        (Quiet-Leads {P = Linked} km).lead
          (call_accepted smp hal move_capabilities s owner target k)
          (link-Linked (relation k) old.linked target owner old.free)

    call_to-Leads :
        (info target : ℕ)
        → Leads (Idle owner) Linked (call_to smp hal move_capabilities this owner self info target)
    unfolding call_to
    call_to-Leads info target = record {
      lead = λ k old.
          if_hold InOrder (has_reply (k.procs.destination_reply_state target)) _ _ old.linked (
            call_hold _ ProcessStatus.blocked_reply target
              (remember smp hal move_capabilities owner self k)
              (>>-Quiet (transfer_message-Quiet hal move_capabilities moved this target owner info)
                (switch-Quiet target))
              old);
    }

    fault_to-Leads :
        (target : ℕ)
        → Leads (Idle owner) Linked (fault_to smp hal move_capabilities this owner target)
    unfolding fault_to
    fault_to-Leads target = record {
      lead = λ k old.
          if_hold InOrder (has_reply (k.procs.destination_reply_state target)) _ _
            (fault_blocked-Leads.lead k old)
            (call_hold _ ProcessStatus.blocked_fault target k
              (>>-Quiet (transfer_fault_message-Quiet hal this target owner) (switch-Quiet target))
              old);
    }

    call_waiting-Leads :
        (info : ℕ)
        → Leads (Idle owner) Linked (
            if is_block info
            then try_deliver_pending_binded_notification smp hal owner
              >>= unless_delivered smp hal move_capabilities
                  (call_blocked smp hal move_capabilities this owner self)
            else return tt)
    call_waiting-Leads info =
        if_lead (is_block info)
          (>>=-Leads (Quiet-Leads (try_deliver-Quiet smp hal owner)) (λ v h. h.linked)
            (λ b. unless_delivered-Leads b call_blocked-Leads))
          (weakly (return-Quiet tt))

    pub call_state-Leads :
        (info : ℕ) (s : IpcPortState)
        → Leads (Idle owner) Linked (call_state smp hal move_capabilities this owner self info s)
    unfolding call_state
    call_state-Leads info IpcPortState.ready_to_receive =
        called-Leads (call_to smp hal move_capabilities this owner self info) this owner
          (call_to-Leads info)
    call_state-Leads info IpcPortState.wait = call_waiting-Leads info
    call_state-Leads info IpcPortState.ready_to_send = call_waiting-Leads info

    fault_waiting-Leads : Leads (Idle owner) Linked (
        modify (set_state this IpcPortState.ready_to_send)
        >> fault_blocked smp hal move_capabilities this owner)
    fault_waiting-Leads =
        >>-Leads (unseen {P = Idle owner} (set_state this IpcPortState.ready_to_send) (λ k. refl))
          (λ v h. h.linked) fault_blocked-Leads

    pub fault_state-Leads :
        (s : IpcPortState)
        → Leads (Idle owner) Linked (fault_state smp hal move_capabilities this owner s)
    unfolding fault_state
    fault_state-Leads IpcPortState.ready_to_receive =
        called-Leads (fault_to smp hal move_capabilities this owner) this owner fault_to-Leads
    fault_state-Leads IpcPortState.wait = fault_waiting-Leads
    fault_state-Leads IpcPortState.ready_to_send = fault_waiting-Leads

    continue-Quiet : Quiet (continue_server smp hal move_capabilities owner)
    continue-Quiet = >>-Quiet (modify-Quiet (set_status owner ProcessStatus.ready) (λ k. refl)) (
        or_else-Quiet (Keeps-Quiet (try_direct_schedule_and_switch-Keeps smp hal owner owner))
          (λ e. fail-Quiet _))

    pub reply_client_hold :
        (info : ℕ) (o : Option ℕ) (k : Kernel)
        → Idle owner (relation k)
        → k.procs.destination_reply_target owner ≡ o
        → InOrder (reply_client smp hal move_capabilities owner info o k).1
    unfolding reply_client
    reply_client_hold info none k old e = old.linked
    reply_client_hold info (some client) k old e =
        let serving : Serving owner client (relation k) = record { idle = old; held = e } in
        if_hold InOrder (is_faulted (k.procs.fault_reason client)) _ _
          ((>>-Leads (reply_fault-Leads smp hal owner client info) (λ v h. h.linked)
              (weakly continue-Quiet)).lead
            k serving)
          ((>>-Leads
              (>>-Leads
                (>>-Leads
                  (Quiet-Leads
                    (transfer_direct_message-Quiet hal move_capabilities moved client owner info))
                  (λ v h. h.idle) (replied-Leads smp hal owner client))
                (λ v h. h) (Quiet-Leads (scheduled-Quiet smp hal owner client)))
              (λ v h. h.linked) (weakly continue-Quiet)).lead
            k serving)

    cancel_client-Leads :
        (o : Option ℕ) → Leads (Idle owner) (Idle owner) (cancel_client smp hal move_capabilities o)
    cancel_client-Leads none = Quiet-Leads (return-Quiet tt)
    cancel_client-Leads (some client) = cancel_reply-Leads smp hal owner client true

    pub discard_reply-Leads :
        Leads (Idle owner) (Idle owner) (discard_reply smp hal move_capabilities owner)
    unfolding discard_reply
    discard_reply-Leads = record {
      lead = λ k old.
          if_hold (λ (k' : Kernel). Idle owner (relation k'))
            (has_reply (k.procs.destination_reply_state owner)) _ _
            ((>>-Leads (cancel_client-Leads (k.procs.destination_reply_target owner)) (λ v h. h)
                (modify-Leads _ (λ k' old'. record {
                  linked = forget-Linked (relation k') old'.linked owner;
                  free = record { server = old'.free.server; port = old'.free.port };
                }))).lead
              k old)
            old;
    }
