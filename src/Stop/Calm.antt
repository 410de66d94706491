-- ===== src/Stop/Calm.antt =====
-- The steps of kernel/process/reclamation.cpp that leave the ready queues alone.
use a9n.Base.{
  ℕ, ◌≡◌, refl, sym, ap, subst, ◌∙◌, Bool, true, false, not, ◌&&◌, Option, none, some, inl, inr,
  Bool-cases, points_to, write_self, if◌then◌else◌,
}
use a9n.Base.Result.{Result, ok, KernelError}
use a9n.Kernel.{Kernel, Cpu, set_cpu}
use a9n.Manager.{view}
use a9n.Manager.Idle.{unregistered}
use a9n.Manager.Suspend.{IsAway}
use a9n.Process.{Processes}
use a9n.Scheduler.{Scheduler}
use a9n.Scheduler.Changes.{changes-Represents}
use a9n.Scheduler.Queues.{Represents}
use a9n.Stop.{runs_on, forget_target}

-- An answer to the request for process `p` of core `c`.
pub record IsStopped (c p : ℕ) (k : Kernel) (out : Result (Unit {0}) KernelError × Kernel)
    : Type 0 where
  pub away : IsAway c p out.1
  pub unwanted : points_to (out.1.cpus c).pending_reschedule_target p ≡ false
  pub quiet : out.0 ≡ ok tt → runs_on c p out.1 ≡ false
  pub settles : runs_on c p k ≡ false → out.0 ≡ ok tt

-- Such an answer in the end.
pub record Stops (c p : ℕ) (k : Kernel) (o : Option (Result (Unit {0}) KernelError × Kernel))
    : Type 0 where
  pub out : Result (Unit {0}) KernelError × Kernel
  pub ends : o ≡ some out
  pub stopped : IsStopped c p k out

-- What a step may change: registers, the current process and the pending target.
pub record IsCalm (c : ℕ) (k k' : Kernel) : Type 0 where
  pub procs : unregistered (k'.procs) ≡ unregistered (k.procs)
  pub scheduler : (k'.cpus c).scheduler ≡ (k.cpus c).scheduler

module _ (c p : ℕ) where
  pub carry : (k k' : Kernel) → IsCalm c k k' → IsAway c p k → IsAway c p k'
  carry k k' calm old = record {
    status = ap (λ (m : Processes). m.status p) calm.procs ∙ old.status;
    unqueued = ap (λ (m : Processes). m.is_in_ready_queue p) calm.procs ∙ old.unqueued;
    ready = old.ready;
    represents =
        subst
          (λ (core : Scheduler). Represents (record { procs = k'.procs; core = core }) old.ready)
          (sym calm.scheduler)
          (changes-Represents (view k c) (k'.procs) old.ready
            (ap (λ (m : Processes). m.next) calm.procs)
            (ap (λ (m : Processes). m.preview) calm.procs)
            (ap (λ (m : Processes). m.is_in_ready_queue) calm.procs)
            (λ q flagged. (
              ap (λ (m : Processes). m.priority q) calm.procs,
              ap (λ (m : Processes). m.status q) calm.procs,
            ))
            old.represents);
  }

  pub record IsForgotten (k k' : Kernel) : Type 0 where
    pub calm : IsCalm c k k'
    pub unwanted : points_to (k'.cpus c).pending_reschedule_target p ≡ false
    pub running : runs_on c p k' ≡ runs_on c p k

  if-IsForgotten :
      (b : Bool) (k : Kernel)
      → points_to (k.cpus c).pending_reschedule_target p ≡ b
      → IsForgotten k
          (if b then set_cpu c (record (k.cpus c) { pending_reschedule_target = none }) k else k)
  if-IsForgotten true k e =
      let written =
        write_self (k.cpus) c (record (k.cpus c) { pending_reschedule_target = none }) in
      record {
        calm = record { procs = refl; scheduler = ap (λ (v : Cpu). v.scheduler) written };
        unwanted = ap (λ (v : Cpu). points_to v.pending_reschedule_target p) written;
        running = ap (λ (v : Cpu). points_to v.current_process p && not v.is_idle) written;
      }
  if-IsForgotten false k e = record {
    calm = record { procs = refl; scheduler = refl };
    unwanted = e;
    running = refl;
  }

  pub forget_target-IsForgotten : (k : Kernel) → IsForgotten k (forget_target c p k)
  forget_target-IsForgotten k =
      if-IsForgotten (points_to (k.cpus c).pending_reschedule_target p) k refl

  pub idle-stops : (k : Kernel) → (k.cpus c).is_idle ≡ true → runs_on c p k ≡ false
  idle-stops k e = rw e (elim (Bool-cases (points_to (k.cpus c).current_process p)) [
    | inl at ↦ rw at refl
    | inr away ↦ rw away refl
  ])

  -- The process runs on the core, and is out of scheduling already.
  pub record IsRunning (k : Kernel) : Type 0 where
    pub away : IsAway c p k
    pub unwanted : points_to (k.cpus c).pending_reschedule_target p ≡ false
    pub runs : runs_on c p k ≡ true
