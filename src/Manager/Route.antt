-- ===== src/Manager/Route.antt =====
-- kernel/process/process_manager.cpp: the choice of the core that an operation on a process reaches.
-- `smp` is the configuration's SMP_ENABLED, and BSP_ID is 0.
pub mod Keep
use a9n.Base.{ℕ, Bool, true, false, not, ◌&&◌, Option, none, some, ◌==◌, if◌then◌else◌}
use a9n.Base.Result.{ok, KernelError, unexpected}
use a9n.Hal.{Hal}
use a9n.Kernel.{Kernel, M, ◌>>◌, return, fail, modify, convert_hal, lift, set_cpu}
use a9n.Manager.{
  mark_scheduled, schedule_and_switch, schedule_and_switch_here, direct_and_switch,
  direct_and_switch_here, schedule_if_preempted_by,
}

abbrev pub first_target : ℕ → Option ℕ → Option ℕ
first_target target none = some target
first_target target (some p) = some p

-- `if (!target_local.pending_reschedule_target) …`.
abbrev pub leave_target : ℕ → Kernel → Kernel
leave_target target k =
    let c = k.procs.core_affinity target in
    set_cpu c
      (record (k.cpus c) {
        pending_reschedule_target = first_target target (k.cpus c).pending_reschedule_target;
      })
      k

module _ (smp : Bool) (hal : Hal) where
  pub reschedule_core : ℕ → M KernelError (Unit {0})
  reschedule_core core_number =
      if smp then convert_hal (lift (hal.send_ipi core_number)) else fail unexpected

  -- The core of `cpu_local_variables` that a process belongs to.
  abbrev pub home : ℕ → Kernel → ℕ
  home p k = if smp then k.procs.core_affinity p else 0

  abbrev pub is_remote : ℕ → ℕ → Kernel → Bool
  is_remote current target k =
      smp && not (k.procs.core_affinity target == k.procs.core_affinity current)

  -- The notice to the core of `target`.
  abbrev pub notify_core : ℕ → M KernelError (Unit {0})
  notify_core target k = reschedule_core (k.procs.core_affinity target) (leave_target target k)

  abbrev pub after_mark : Bool → ℕ → ℕ → ℕ → M KernelError (Unit {0})
  after_mark preempt c current target k =
      if is_remote current target k
      then notify_core target k
      else if preempt
      then schedule_if_preempted_by hal c target k
      else (ok tt, k)

  -- `route_mark_scheduled<preempt>`: `mark_scheduled` and `mark_scheduled_with_preemption`.
  pub route_mark_scheduled : Bool → ℕ → ℕ → M KernelError (Unit {0})
  unfolding reschedule_core
  route_mark_scheduled preempt current target k =
      let c = home target k in
      if not smp && not preempt
      then mark_scheduled 0 target k
      else (mark_scheduled c target >> after_mark preempt c current target) k

  pub try_schedule_and_switch : ℕ → M KernelError (Unit {0})
  try_schedule_and_switch current k =
      let c = k.procs.core_affinity current in
      if smp then schedule_and_switch hal c c k else schedule_and_switch_here hal 0 k

  pub try_direct_schedule_and_switch : ℕ → ℕ → M KernelError (Unit {0})
  unfolding reschedule_core
  try_direct_schedule_and_switch current target k =
      let c = k.procs.core_affinity current in
      if not smp
      then direct_and_switch_here hal 0 target k
      else if k.procs.core_affinity target == c
      then direct_and_switch hal c target c k
      else (mark_scheduled (k.procs.core_affinity target) target
            >> notify_core target
            >> schedule_and_switch hal c c)
          k
