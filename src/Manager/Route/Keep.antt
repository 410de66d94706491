-- ===== src/Manager/Route/Keep.antt =====
-- What the routed operations leave alone.
use a9n.Base.{ℕ, Bool, refl, ◌==◌, not, ◌&&◌}
use a9n.Base.Result.{unexpected}
use a9n.Hal.{Hal}
use a9n.Manager.Route.{
  reschedule_core, notify_core, after_mark, route_mark_scheduled, try_schedule_and_switch,
  try_direct_schedule_and_switch, home, leave_target, is_remote,
}
use a9n.Manager.Frame.{
  Keeps, >>-Keeps, if-Keeps, if_operation-Keeps, reading-Keeps, after-Keeps, convert_hal-Keeps,
  lift-Keeps, fail-Keeps, return-Keeps, mark_scheduled-Keeps, schedule_if_preempted_by-Keeps,
  schedule_and_switch-Keeps, schedule_and_switch_here-Keeps, direct_and_switch-Keeps,
  direct_and_switch_here-Keeps,
}

module _ (smp : Bool) (hal : Hal) where
  reschedule_core-Keeps : (c : ℕ) → Keeps (reschedule_core smp hal c)
  unfolding reschedule_core
  reschedule_core-Keeps c =
      if_operation-Keeps smp (convert_hal-Keeps (lift-Keeps (hal.send_ipi c)))
        (fail-Keeps unexpected)

  notify_core-Keeps : (target : ℕ) → Keeps (notify_core smp hal target)
  notify_core-Keeps target = reading-Keeps _ (λ k.
      after-Keeps (leave_target target) (reschedule_core smp hal (k.procs.core_affinity target))
        (λ k'. refl) (reschedule_core-Keeps (k.procs.core_affinity target)))

  after_mark-Keeps :
      (preempt : Bool) (c current target : ℕ) → Keeps (after_mark smp hal preempt c current target)
  after_mark-Keeps preempt c current target = reading-Keeps _ (λ k.
      if-Keeps (is_remote smp hal current target k) (notify_core-Keeps target)
        (if-Keeps preempt (schedule_if_preempted_by-Keeps hal c target) (return-Keeps tt)))

  pub route_mark_scheduled-Keeps :
      (preempt : Bool) (current target : ℕ)
      → Keeps (route_mark_scheduled smp hal preempt current target)
  unfolding route_mark_scheduled
  route_mark_scheduled-Keeps preempt current target = reading-Keeps _ (λ k.
      if-Keeps (not smp && not preempt) (mark_scheduled-Keeps 0 target) (
        >>-Keeps (mark_scheduled-Keeps (home smp hal target k) target)
          (after_mark-Keeps preempt (home smp hal target k) current target)))

  pub try_schedule_and_switch-Keeps :
      (current : ℕ) → Keeps (try_schedule_and_switch smp hal current)
  unfolding try_schedule_and_switch
  try_schedule_and_switch-Keeps current = reading-Keeps _ (λ k.
      if-Keeps smp
        (schedule_and_switch-Keeps hal (k.procs.core_affinity current)
          (k.procs.core_affinity current))
        (schedule_and_switch_here-Keeps hal 0))

  pub try_direct_schedule_and_switch-Keeps :
      (current target : ℕ) → Keeps (try_direct_schedule_and_switch smp hal current target)
  unfolding try_direct_schedule_and_switch
  try_direct_schedule_and_switch-Keeps current target = reading-Keeps _ (λ k.
      let c = k.procs.core_affinity current in
      if-Keeps (not smp) (direct_and_switch_here-Keeps hal 0 target) (
        if-Keeps (k.procs.core_affinity target == c) (direct_and_switch-Keeps hal c target c) (
          >>-Keeps
            (>>-Keeps (mark_scheduled-Keeps (k.procs.core_affinity target) target)
              (notify_core-Keeps target))
            (schedule_and_switch-Keeps hal c c))))
