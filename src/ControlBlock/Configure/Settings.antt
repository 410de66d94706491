-- ===== src/ControlBlock/Configure/Settings.antt =====
-- What scheduling knows of a process, and the bindings of CONFIGURE.
use a9n.Base.{ℕ, bit_or, ◌≡◌, ◌<◌, refl, ap, ◌∙◌, Option, none, some, ◌==◌, if◌then◌else◌}
use a9n.Base.Int.{pos}
use a9n.Base.Result.{Result, ok, err, KernelError}
use a9n.CapabilityTypes.{CapabilityError, LookupError, type_code, invalid_descriptor, fatal}
use a9n.ControlBlock.{bound_notification_port, unbind}
use a9n.ControlBlock.Configure.{
  pointer, set_buffer, copy_error, no_descriptor, rebind_to, find, empty_own, copy_own, replace,
  configure_address_space, configure_root_node, configure_frame_ipc_buffer, rebind,
  configure_notification_port, configure_ipc_port_resolver,
}
use a9n.Hal.{Hal, HalError, Registers}
use a9n.IpcPort.Transfer.{put_slots}
use a9n.Kernel.{Kernel, M, ◌>>◌, fail, modify, store_registers}
use a9n.Kernel.Preserve.{
  Preserves, bind_hold, or_else_hold, >>=-Preserves, >>-Preserves, fail-Preserves, return-Preserves,
  modify-Preserves, convert_kernel-Preserves, if_hold,
}
use a9n.Notification.Bind.{without_ports, bind_process-same, unbind_process-same}
use a9n.Notification.{bind_process}
use a9n.Scheduler.{priority_max}
use a9n.Slot.{Slots, try_copy_capability_slot}

-- The priority and the core of the process `p` are the same.
pub record IsUntouched (p : ℕ) (k k' : Kernel) : Type 0 where
  pub priority : k'.procs.priority p ≡ k.procs.priority p
  pub affinity : k'.procs.core_affinity p ≡ k.procs.core_affinity p

-- The priority and the core of the process are in range, and the core is that of the state `start`.
pub record IsHome (hal : Hal) (p : ℕ) (start k : Kernel) : Type 0 where
  pub level : ℕ
  pub in_range : level < priority_max
  pub priority : k.procs.priority p ≡ pos level
  pub affinity : k.procs.core_affinity p < hal.core_count
  pub home : k.procs.core_affinity p ≡ start.procs.core_affinity p

module _ (hal : Hal) (p : ℕ) (start : Kernel) where
  abbrev pub Home : Kernel → Type 0
  Home = IsHome hal p start

  pub untouched-IsHome : (k k' : Kernel) → IsUntouched p k k' → Home k → Home k'
  untouched-IsHome k k' same old = record {
    level = old.level;
    in_range = old.in_range;
    priority = same.priority ∙ old.priority;
    affinity = rw (same.affinity) (old.affinity);
    home = same.affinity ∙ old.home;
  }

  untouched-Preserves :
      {E A : Type 0} (m : M E A) → ((k : Kernel) → IsUntouched p k (m k).1) → Preserves Home m
  untouched-Preserves m same = record { hold = λ k old. untouched-IsHome k (m k).1 (same k) old }

  slots-IsUntouched :
      (k : Kernel) (out : Result (Unit {0}) KernelError × Slots)
      → IsUntouched p k (put_slots out k).1
  slots-IsUntouched k (r, s) = record { priority = refl; affinity = refl }

  pub registers-IsUntouched :
      (k : Kernel) (out : Result (Unit {0}) HalError × Registers)
      → IsUntouched p k (store_registers out k).1
  registers-IsUntouched k (r, s) = record { priority = refl; affinity = refl }

  ports-IsUntouched : (k k' : Kernel) → without_ports k' ≡ without_ports k → IsUntouched p k k'
  ports-IsUntouched k k' e = record {
    priority = ap (λ (a : Kernel). a.procs.priority p) e;
    affinity = ap (λ (a : Kernel). a.procs.core_affinity p) e;
  }

  unbind-IsHome : (o : Option ℕ) (k : Kernel) → Home k → Home (unbind p o k)
  unbind-IsHome none k old = old
  unbind-IsHome (some n) k old =
      untouched-IsHome k (unbind p (some n) k)
        (ports-IsUntouched k (unbind p (some n) k) (unbind_process-same n p k)) old

  bind_process-Preserves : (n : ℕ) → Preserves Home (bind_process n p)
  bind_process-Preserves n =
      untouched-Preserves (bind_process n p)
        (λ k. ports-IsUntouched k (bind_process n p k).1 (bind_process-same n p k))

  no_descriptor-Preserves :
      {A : Type 0} (r : Result A LookupError) → Preserves Home (no_descriptor r)
  no_descriptor-Preserves (ok a) = return-Preserves a
  no_descriptor-Preserves (err e) = fail-Preserves _

  module _ (lookup : Kernel → ℕ → ℕ → Result ℕ LookupError)
      (remove_slot : ℕ → M KernelError (Unit {0}))
      (removes : (n : ℕ) (k : Kernel) → IsUntouched p k (remove_slot n k).1) where
    typed-IsHome :
        (code slot : ℕ) (k : Kernel)
        → Home k
        → Home
            (if◌then◌else◌ {A = Result ℕ CapabilityError × Kernel}
              (type_code (k.slots.type slot) == code)
              (ok slot, k)
              (err invalid_descriptor, k)).1
    typed-IsHome code slot k old =
        if_hold Home (type_code (k.slots.type slot) == code) (ok slot, k)
          (err invalid_descriptor, k) old old

    find-Preserves :
        (code owner descriptor : ℕ)
        → Preserves Home (find hal lookup remove_slot p code owner descriptor)
    unfolding find
    find-Preserves code owner descriptor = record {
      hold = λ k old.
          bind_hold {P = Home} (no_descriptor (lookup k owner descriptor) k) _
            ((no_descriptor-Preserves (lookup k owner descriptor)).hold k old)
            (λ slot. record { hold = typed-IsHome code slot });
    }

    empty_own-Preserves :
        (own : Kernel → ℕ) → Preserves Home (empty_own hal lookup remove_slot p own)
    unfolding empty_own
    empty_own-Preserves own = record {
      hold = λ k old.
          or_else_hold {P = Home} (remove_slot (own k) k) (λ e. fail fatal)
            (untouched-IsHome k (remove_slot (own k) k).1 (removes (own k) k) old)
            (λ e. fail-Preserves fatal);
    }

    copy_own-Preserves :
        (own : Kernel → ℕ) (slot : ℕ) (error : KernelError → CapabilityError)
        → Preserves Home (copy_own hal lookup remove_slot p own slot error)
    unfolding copy_own
    copy_own-Preserves own slot error = record {
      hold = λ k old.
          let out = try_copy_capability_slot k.slots (own k) slot in
          or_else_hold {P = Home} (put_slots out k) (λ e. fail (error e))
            (untouched-IsHome k (put_slots out k).1 (slots-IsUntouched k out) old)
            (λ e. fail-Preserves (error e));
    }

    replace-Preserves :
        (own : Kernel → ℕ) (slot : ℕ) (error : KernelError → CapabilityError)
        → Preserves Home (replace hal lookup remove_slot p own error slot)
    unfolding replace
    replace-Preserves own slot error =
        >>-Preserves (empty_own-Preserves own) (copy_own-Preserves own slot error)

    pub configure_address_space-Preserves :
        (owner descriptor : ℕ)
        → Preserves Home (configure_address_space hal lookup remove_slot p owner descriptor)
    unfolding configure_address_space
    configure_address_space-Preserves owner descriptor =
        >>=-Preserves (find-Preserves 4 owner descriptor)
          (λ slot. replace-Preserves (λ k. k.procs.root_address_space p) slot copy_error)

    pub configure_root_node-Preserves :
        (owner descriptor : ℕ)
        → Preserves Home (configure_root_node hal lookup remove_slot p owner descriptor)
    unfolding configure_root_node
    configure_root_node-Preserves owner descriptor =
        >>=-Preserves (find-Preserves 2 owner descriptor)
          (λ slot. replace-Preserves (λ k. k.procs.root_slot p) slot (λ e. fatal))

    pub configure_ipc_port_resolver-Preserves :
        (owner descriptor : ℕ)
        → Preserves Home (configure_ipc_port_resolver hal lookup remove_slot p owner descriptor)
    unfolding configure_ipc_port_resolver
    configure_ipc_port_resolver-Preserves owner descriptor =
        >>=-Preserves (find-Preserves 8 owner descriptor)
          (λ slot. replace-Preserves (λ k. k.procs.resolver_port p) slot (λ e. fatal))

    framed-Preserves :
        (slot : ℕ) (k : Kernel)
        → Preserves Home (
            copy_own hal lookup remove_slot p (λ k'. k'.procs.buffer_frame p) slot (λ e. fatal)
            >> modify (
                set_buffer p
                  (pointer (bit_or (k.slots.local slot).word_0 hal.kernel_virtual_base))))
    framed-Preserves slot k =
        >>-Preserves (copy_own-Preserves (λ k'. k'.procs.buffer_frame p) slot (λ e. fatal))
          (untouched-Preserves _ (λ k'. record { priority = refl; affinity = refl }))

    pub configure_frame_ipc_buffer-Preserves :
        (owner descriptor : ℕ)
        → Preserves Home (configure_frame_ipc_buffer hal lookup remove_slot p owner descriptor)
    unfolding configure_frame_ipc_buffer
    configure_frame_ipc_buffer-Preserves owner descriptor =
        >>=-Preserves (find-Preserves 6 owner descriptor) (λ slot.
          >>-Preserves (empty_own-Preserves (λ k. k.procs.buffer_frame p))
            (record { hold = λ k old. (framed-Preserves slot k).hold k old }))

    rebind-Preserves : (slot port : ℕ) → Preserves Home (rebind hal lookup remove_slot p slot port)
    unfolding rebind
    rebind-Preserves slot port =
        >>-Preserves
          (modify-Preserves (λ k. unbind p (bound_notification_port p k) k)
            (λ k old. unbind-IsHome (bound_notification_port p k) k old))
          (>>-Preserves (empty_own-Preserves (λ k. k.procs.binded_notification_port p)) (
            >>-Preserves (convert_kernel-Preserves (bind_process-Preserves port))
              (copy_own-Preserves (λ k. k.procs.binded_notification_port p) slot (λ e. fatal))))

    rebind_to-Preserves :
        (slot : ℕ) (o : Option ℕ) → Preserves Home (rebind_to hal lookup remove_slot p slot o)
    unfolding rebind_to
    rebind_to-Preserves slot none = fail-Preserves _
    rebind_to-Preserves slot (some port) = rebind-Preserves slot port

    pub configure_notification_port-Preserves :
        (owner descriptor : ℕ)
        → Preserves Home (configure_notification_port hal lookup remove_slot p owner descriptor)
    unfolding configure_notification_port
    configure_notification_port-Preserves owner descriptor =
        >>=-Preserves (find-Preserves 9 owner descriptor) (λ slot. record {
          hold = λ k old. (rebind_to-Preserves slot (k.slots.component slot)).hold k old;
        })
