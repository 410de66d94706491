-- ===== src/Notification/Revocation.antt =====
-- kernel/capability/notification_port.cpp: the revocation of a port.
pub mod Emptied
use a9n.Base.{ℕ, zero, suc, Bool, not, ◌&&◌, Option, none, some, ◌==◌, if◌then◌else◌, points_to}
use a9n.Base.Result.{Result, ok, err, KernelError}
use a9n.CapabilityTypes.{CapabilityError, fatal}
use a9n.Hal.{Hal}
use a9n.Kernel.{Kernel, NotificationPortState, M, ◌>>=◌, ◌>>◌, fail, modify, or_else}
use a9n.Notification.{consumed, set_ports, set_state, pop_notification_queue, unbind_process}
use a9n.RevokedWait.{complete_revoked_wait}

module _ (smp : Bool) (hal : Hal) where
  -- `revoke`, on fuel for its loop: `none` is an end of fuel. `remove_slot` is
  -- `try_remove_and_init` of a slot.
  abbrev fatal_if_failed : {A E : Type 0} → M E A → M CapabilityError A
  fatal_if_failed m = or_else m (λ e. fail fatal)

  abbrev pub release_waiter : ℕ → M CapabilityError (Unit {0})
  release_waiter this =
      fatal_if_failed (pop_notification_queue this) >>= complete_revoked_wait smp hal

  pub revoke_waiters :
      ℕ
      → ℕ
      → Result (Unit {0}) CapabilityError × Kernel
      → Option (Result (Unit {0}) CapabilityError × Kernel)
  revoke_waiters zero this out = none
  revoke_waiters (suc fuel) this (err e, k) = some (err e, k)
  revoke_waiters (suc fuel) this (ok _, k) =
      let further = revoke_waiters fuel this (release_waiter this k) in
      elim (k.notification_ports.queue this).head [ none ↦ some (ok tt, k) | some _ ↦ further ]

  module _ (remove_slot : ℕ → M KernelError (Unit {0})) where
    -- `&target.binded_notification_port != &self && …component == this`.
    abbrev pub has_alias : ℕ → ℕ → ℕ → Kernel → Bool
    has_alias this self target k =
        let slot = k.procs.binded_notification_port target in
        not (slot == self) && points_to (k.slots.component slot) this

    remove_alias : ℕ → ℕ → ℕ → M CapabilityError (Unit {0})
    remove_alias this self target k =
        if has_alias this self target k
        then fatal_if_failed (remove_slot (k.procs.binded_notification_port target)) k
        else (ok tt, k)

    revoke_binding : ℕ → ℕ → Option ℕ → M CapabilityError (Unit {0})
    unfolding remove_alias
    revoke_binding this self none k = (ok tt, k)
    revoke_binding this self (some target) k =
        (fatal_if_failed (unbind_process this target) >> remove_alias this self target) k

    abbrev pub reset : ℕ → Kernel → Kernel
    reset this k =
        set_state this NotificationPortState.wait
          (set_ports (consumed this (k.notification_ports)) k)

    revoke_rest :
        ℕ
        → ℕ
        → Result (Unit {0}) CapabilityError × Kernel
        → Result (Unit {0}) CapabilityError × Kernel
    unfolding revoke_binding
    revoke_rest this self (err e, k) = (err e, k)
    revoke_rest this self (ok _, k) =
        (revoke_binding this self (k.notification_ports.binded_process this) >> modify (reset this))
          k

    pub revoke : ℕ → ℕ → ℕ → Kernel → Option (Result (Unit {0}) CapabilityError × Kernel)
    unfolding revoke_rest revoke_waiters
    revoke fuel this self k = elim (revoke_waiters fuel this (ok tt, k)) [
      | none ↦ none
      | some out ↦ some (revoke_rest this self out)
    ]
