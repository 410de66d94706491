-- ===== src/IpcPort/Reply/Keep.antt =====
-- kernel/capability/ipc_port.cpp: the reply relation under replies, receptions and cancellations.
use a9n.Base.{
  ℕ, zero, suc, ◌+◌, ◌≡◌, refl, sym, ap, ◌∙◌, Bool, true, false, not, Option, none, some, ltb, ◌==◌,
  points_to, write, write-eq, write-ne, if◌then◌else◌, arith, ==_iff,
}
use native.Mathlib.Decide.{ℕ_discrete}
use a9n.Base.Result.{ok}
use a9n.CapabilityTypes.{CapabilityError}
use a9n.Hal.{Hal}
use a9n.IpcPort.{is_faulted, set_source_reply, set_destination_reply, fault_code_of}
use a9n.IpcPort.Faults.{transfer_fault_message-Quiet}
use a9n.IpcPort.Linked.{
  Linked, Free, Idle, Leads, link-Linked, forget-Linked, unserved-Linked, cut-Linked, Quiet-Leads,
  >>=-Leads, >>-Leads, modify-Leads,
}
use a9n.IpcPort.Quiet.{
  Relation, relation, Quiet, change-Quiet, return-Quiet, fail-Quiet, Keeps-Quiet, if-Quiet,
  >>=-Quiet, >>-Quiet, or_else-Quiet, read-Quiet, converted-Quiet, get_message_info-Quiet,
  transfer_message-Quiet, transfer_direct_message-Quiet,
}
use a9n.IpcPort.Reply.{
  detach_server, detached, cancel_reply, accept_call, replied, is_call, has_reply,
  complete_fault_reply_without_message_transfer, apply_registers, enqueue_caller,
  apply_invalid_kernel_call_reply_context, reply_fault, reply_to, complete_reply, accept_faulted,
  finish_send, accept_message, receive_from, is_sending, try_receive_from_ready_sender,
  deliver_from, try_deliver_pending_binded_notification, bound_port, pending_port,
}
use a9n.IpcPort.Taken.{taken-Leads}
use a9n.Kernel.{Kernel, M, convert_kernel, modify}
use a9n.Kernel.Preserve.{if_hold}
use a9n.Manager.Route.{route_mark_scheduled}
use a9n.Manager.Route.Keep.{route_mark_scheduled-Keeps}
use a9n.MessageInfo.{message_length, message_info}
use a9n.Notification.{consumed, set_ports}
use a9n.Process.{SourceReplyState, DestinationReplyState}
use a9n.RevokedWait.Keep.{complete_revoked_wait-Keeps}

-- The owner's caller is `client`.
pub record Serving (owner client : ℕ) (v : Relation) : Type 0 where
  pub idle : Idle owner v
  pub held : v.client owner ≡ some client

cleared-none : (f : ℕ → Option ℕ) (c p : ℕ) → f p ≡ none → write f c none p ≡ none
cleared-none f c p e = elim (ℕ_discrete c p) [
  | yes same ↦ write-eq f c none same
  | no ne ↦ write-ne f c none ne ∙ e
]

cleared-Free :
    (v : Relation) (c p : ℕ) → Free v p → Free (record v { server = write v.server c none }) p
cleared-Free v c p free = record {
  server = cleared-none v.server c p free.server;
  port = free.port;
}

points_to-some : (o : Option ℕ) (c : ℕ) → points_to o c ≡ true → o ≡ some c
points_to-some none c e = absurd (ground arith)
points_to-some (some x) c e = ap some ((==_iff x c).0 e)

points_to_self : (o : Option ℕ) (c : ℕ) → o ≡ some c → points_to o c ≡ true
points_to_self none c e = absurd (ground arith)
points_to_self (some x) c e = ground arith

detached_or_not :
    (s c : ℕ) (k : Kernel) (b : Bool)
    → Linked (relation k)
    → k.procs.source_reply_target c ≡ some s
    → points_to (k.procs.destination_reply_target s) c ≡ b
    → Linked (relation (set_source_reply c SourceReplyState.none none (detach_server c (some s) k)))
detached_or_not s c k true old e held =
    rw held
      (cut-Linked (relation k) s c old (points_to-some (k.procs.destination_reply_target s) c held))
detached_or_not s c k false old e other = rw other (
    unserved-Linked (relation k) old c (λ s' h.
      let there = sym e ∙ old.answers s' c h in
      let same : s ≡ s' = ground (arith, there) in
      let held =
        points_to_self (k.procs.destination_reply_target s) c
          (ap (k.procs.destination_reply_target) same ∙ h) in
      absurd (ground (arith, held, other))))

pub detached-Linked :
    (c : ℕ) (k : Kernel) (o : Option ℕ)
    → Linked (relation k)
    → k.procs.source_reply_target c ≡ o
    → Linked (relation (set_source_reply c SourceReplyState.none none (detach_server c o k)))
detached-Linked c k none old e =
    unserved-Linked (relation k) old c
      (λ s h. let there = sym e ∙ old.answers s c h in absurd (ground (arith, there)))
detached-Linked c k (some s) old e =
    detached_or_not s c k (points_to (k.procs.destination_reply_target s) c) old e refl

detach_if : ℕ → Kernel → Bool → Kernel
detach_if s k b = if b then set_destination_reply s DestinationReplyState.none none k else k

detach_if-kept :
    (s : ℕ) (k : Kernel) (b : Bool)
    → ((relation (detach_if s k b)).server ≡ (relation k).server)
      × ((relation (detach_if s k b)).queues ≡ (relation k).queues)
unfolding detach_if
detach_if-kept s k true = (refl, refl)
detach_if-kept s k false = (refl, refl)

pub detach_server-kept :
    (c : ℕ) (o : Option ℕ) (k : Kernel)
    → ((relation (detach_server c o k)).server ≡ (relation k).server)
      × ((relation (detach_server c o k)).queues ≡ (relation k).queues)
unfolding detach_if
detach_server-kept c none k = (refl, refl)
detach_server-kept c (some s) k =
    detach_if-kept s k (points_to (k.procs.destination_reply_target s) c)

pub detached-Idle :
    (owner c : ℕ) (k : Kernel) → Idle owner (relation k) → Idle owner (relation (detached c k))
detached-Idle owner c k old =
    let kept = detach_server-kept c (k.procs.source_reply_target c) k in
    record {
      linked = detached-Linked c k (k.procs.source_reply_target c) old.linked refl;
      free = record {
        server =
            ap (λ (f : ℕ → Option ℕ). write f c none owner) kept.0
            ∙ cleared-none (k.procs.source_reply_target) c owner old.free.server;
        port = ap (λ (q : _). q.port owner) kept.1 ∙ old.free.port;
      };
    }

replied-Idle :
    (owner client : ℕ) (k : Kernel)
    → Serving owner client (relation k)
    → Idle owner (relation (replied owner client k))
replied-Idle owner client k old = record {
  linked = cut-Linked (relation k) owner client old.idle.linked old.held;
  free = record {
    server = cleared-none (k.procs.source_reply_target) client owner old.idle.free.server;
    port = old.idle.free.port;
  };
}

module _ (smp : Bool) (hal : Hal) where
  pub scheduled-Quiet :
      (current target : ℕ)
      → Quiet (convert_kernel (route_mark_scheduled smp hal false current target))
  scheduled-Quiet current target =
      or_else-Quiet (Keeps-Quiet (route_mark_scheduled-Keeps smp hal false current target))
        (λ e. fail-Quiet _)

  pub cancel_reply-detached :
      (client : ℕ) (k : Kernel) → cancel_reply smp hal client false k ≡ (ok tt, detached client k)
  unfolding cancel_reply
  cancel_reply-detached client k = refl

  pub cancel_reply-Leads :
      (owner client : ℕ) (resume : Bool)
      → Leads (Idle owner) (Idle owner) (cancel_reply smp hal client resume)
  unfolding cancel_reply
  cancel_reply-Leads owner client resume =
      >>-Leads (modify-Leads (detached client) (λ k old. detached-Idle owner client k old))
        (λ v h. h)
        (Quiet-Leads (
          if-Quiet resume (Keeps-Quiet (complete_revoked_wait-Keeps smp hal client))
            (return-Quiet tt)))

  apply_registers-Quiet : (n i owner client : ℕ) → Quiet (apply_registers smp hal n i owner client)
  unfolding apply_registers
  apply_registers-Quiet zero i owner client = return-Quiet tt
  apply_registers-Quiet (suc n) i owner client =
      >>-Quiet
        (>>=-Quiet (or_else-Quiet (read-Quiet hal owner (4 + i)) (λ e. fail-Quiet _))
          (λ v. change-Quiet _ (λ k. refl)))
        (apply_registers-Quiet n (suc i) owner client)

  context-Quiet :
      (owner client info : ℕ)
      → Quiet (apply_invalid_kernel_call_reply_context smp hal owner client info)
  unfolding apply_invalid_kernel_call_reply_context
  context-Quiet owner client info = record {
    keep = λ v. record {
      hold = λ k e.
          let kept = λ (k' : Kernel). relation k' ≡ v in
          if_hold kept (not (fault_code_of (k.procs.fault_reason client) == 5)) _ _ e (
            if_hold kept (ltb (hal.hardware_context_size) (message_length info)) _ _ e
              (((apply_registers-Quiet (message_length info) 0 owner client).keep v).hold k e));
    };
  }

  pub replied-Leads :
      (owner client : ℕ)
      → Leads
          (Serving owner client)
          (Idle owner)
          {E = CapabilityError}
          (modify (replied owner client))
  replied-Leads owner client =
      modify-Leads (replied owner client) (λ k old. replied-Idle owner client k old)

  complete_fault-Leads :
      (owner client : ℕ)
      → Leads
          (Serving owner client)
          (Idle owner)
          (complete_fault_reply_without_message_transfer smp hal owner client)
  unfolding complete_fault_reply_without_message_transfer
  complete_fault-Leads owner client =
      >>-Leads (replied-Leads owner client) (λ v h. h) (Quiet-Leads (scheduled-Quiet owner client))

  pub reply_fault-Leads :
      (owner client info : ℕ)
      → Leads (Serving owner client) (Idle owner) (reply_fault smp hal owner client info)
  unfolding reply_fault
  reply_fault-Leads owner client info =
      >>-Leads (Quiet-Leads (context-Quiet owner client info)) (λ v h. h.idle)
        (complete_fault-Leads owner client)

  deliver_from-Quiet : (owner : ℕ) (o : Option ℕ) → Quiet (deliver_from smp hal owner o)
  unfolding deliver_from
  deliver_from-Quiet owner none = change-Quiet _ (λ k. refl)
  deliver_from-Quiet owner (some port) = record {
    keep = λ v. record {
      hold = λ k e.
          ((>>-Quiet
                (>>-Quiet (converted-Quiet hal owner 2 (message_info false 0 0 2))
                  (converted-Quiet hal owner 3 (k.notification_ports.flag port)))
                (return-Quiet true)).keep
              v).hold
            (set_ports (consumed port (k.notification_ports)) k) e;
    };
  }

  pub try_deliver-Quiet :
      (owner : ℕ) → Quiet (try_deliver_pending_binded_notification smp hal owner)
  unfolding try_deliver_pending_binded_notification
  try_deliver-Quiet owner = record {
    keep = λ v. record {
      hold = λ k e.
          ((deliver_from-Quiet owner (pending_port smp hal k (bound_port smp hal k owner))).keep
              v).hold
            k e;
    };
  }

  module _ (move_capabilities : ℕ → ℕ → ℕ → M CapabilityError (Unit {0}))
      (moved : (d s n : ℕ) → Quiet (move_capabilities d s n)) where
    enqueue_caller-Quiet :
        (b : Bool) (owner client : ℕ)
        → Quiet (enqueue_caller smp hal move_capabilities b owner client)
    enqueue_caller-Quiet true owner client = scheduled-Quiet owner client
    enqueue_caller-Quiet false owner client = return-Quiet tt

    reply_to_hold :
        (enqueue : Bool) (owner info : ℕ) (o : Option ℕ) (k : Kernel)
        → Idle owner (relation k)
        → k.procs.destination_reply_target owner ≡ o
        → Idle owner (relation (reply_to smp hal move_capabilities enqueue owner info o k).1)
    unfolding reply_to
    reply_to_hold enqueue owner info none k old e = old
    reply_to_hold enqueue owner info (some client) k old e =
        let serving : Serving owner client (relation k) = record { idle = old; held = e } in
        if_hold (λ (k' : Kernel). Idle owner (relation k'))
          (is_faulted (k.procs.fault_reason client)) _ _
          ((reply_fault-Leads owner client info).lead k serving)
          ((>>-Leads
              (>>-Leads
                (Quiet-Leads
                  (transfer_direct_message-Quiet hal move_capabilities moved client owner info))
                (λ v h. h.idle) (replied-Leads owner client))
              (λ v h. h) (Quiet-Leads (enqueue_caller-Quiet enqueue owner client))).lead
            k serving)

    pub complete_reply-Leads :
        (enqueue : Bool) (owner info : ℕ)
        → Leads
            (Idle owner)
            (Idle owner)
            (complete_reply smp hal move_capabilities enqueue owner info)
    unfolding complete_reply
    complete_reply-Leads enqueue owner info = record {
      lead = λ k old.
          if_hold (λ (k' : Kernel). Idle owner (relation k'))
            (has_reply (k.procs.destination_reply_state owner)) _ _
            (reply_to_hold enqueue owner info (k.procs.destination_reply_target owner) k old refl)
            old;
    }

    accepted-Leads :
        (receiver sender : ℕ)
        → Leads (Idle sender) Linked {E = CapabilityError} (modify (accept_call receiver sender))
    accepted-Leads receiver sender =
        modify-Leads (accept_call receiver sender)
          (λ k old. link-Linked (relation k) old.linked receiver sender old.free)

    finish_send-Leads :
        (receiver sender : ℕ)
        → Leads (Idle sender) Linked (finish_send smp hal move_capabilities receiver sender)
    unfolding finish_send
    finish_send-Leads receiver sender =
        >>-Leads {R = Linked}
          (modify-Leads _ (λ k old. forget-Linked (relation k) old.linked receiver)) (λ v h. h)
          (Quiet-Leads (scheduled-Quiet receiver sender))

    if-Leads :
        (b : Bool) (P Q : Relation → Type 0) {m n : M CapabilityError (Unit {0})}
        → Leads P Q m
        → Leads P Q n
        → Leads P Q (if b then m else n)
    if-Leads true P Q km kn = km
    if-Leads false P Q km kn = kn

    accept_message-Leads :
        (this receiver sender info : ℕ)
        → Leads
            (Idle sender)
            Linked
            (accept_message smp hal move_capabilities this receiver sender info)
    unfolding accept_message
    accept_message-Leads this receiver sender info = record {
      lead = λ k old.
          (>>-Leads
              (Quiet-Leads
                (transfer_message-Quiet hal move_capabilities moved this receiver sender info))
              (λ v h. h.linked)
              (if-Leads (is_call (k.procs.source_reply_state sender)) (Idle sender) Linked
                (accepted-Leads receiver sender) (finish_send-Leads receiver sender))).lead
            k old;
    }

    accept_faulted-Leads :
        (this receiver sender : ℕ)
        → Leads (Idle sender) Linked (accept_faulted smp hal move_capabilities this receiver sender)
    unfolding accept_faulted
    accept_faulted-Leads this receiver sender =
        >>-Leads (Quiet-Leads (transfer_fault_message-Quiet hal this receiver sender))
          (λ v h. h.linked) (accepted-Leads receiver sender)

    receive_from-Leads :
        (this receiver sender : ℕ)
        → Leads (Idle sender) Linked (receive_from smp hal move_capabilities this receiver sender)
    unfolding receive_from
    receive_from-Leads this receiver sender =
        >>=-Leads (Quiet-Leads (get_message_info-Quiet hal sender)) (λ v h. h.linked)
          (λ info. record {
            lead = λ k old.
                let in_order = λ (k' : Kernel). Linked (relation k') in
                if_hold in_order (has_reply (k.procs.destination_reply_state receiver)) _ _
                  old.linked
                  (if_hold in_order (is_faulted (k.procs.fault_reason sender)) _ _
                    ((accept_faulted-Leads this receiver sender).lead k old)
                    ((accept_message-Leads this receiver sender info).lead k old));
          })

    pub try_receive-Leads :
        (this receiver : ℕ)
        → Leads Linked Linked
            (try_receive_from_ready_sender smp hal move_capabilities this receiver)
    unfolding try_receive_from_ready_sender
    try_receive-Leads this receiver = record {
      lead = λ k old.
          if_hold (λ (k' : Kernel). Linked (relation k'))
            (is_sending smp hal move_capabilities (k.ipc_ports.state this)) _ _
            ((taken-Leads (receive_from smp hal move_capabilities this receiver) this
                (receive_from-Leads this receiver)).lead
              k old)
            old;
    }
