-- ===== src/Manager/Mark.antt =====
-- `process_manager::mark_scheduled` against the scheduler's lists.
use a9n.Base.{ℕ, ◌≡◌, ◌≢◌, ◌<◌, refl, ap, ◌∙◌, false, some, ==_false, write_self, write-ne, arith}
use a9n.Base.Int.{pos}
use a9n.Base.Result.{Result, ok}
use a9n.Kernel.{Kernel, Cpu, set_status}
use a9n.Kernel.Succeed.{or_else-ok}
use a9n.Manager.{view, put_view, put_outcome, set_quantum, mark_scheduled, accept_waiting}
use a9n.Process.{ProcessStatus, quantum_max}
use a9n.Scheduler.{State, SchedulerError, Scheduler, add_process, priority_max}
use a9n.Scheduler.Add.{enqueue, IsAddable, unflagged-IsAddable, add_process-Represents}
use a9n.Scheduler.Changes.{changes-Represents}
use a9n.Scheduler.Frame.{unlinked, add_process-Apart}
use a9n.Scheduler.Queues.{Ready, Represents}

-- The scheduler's part of what an operation of core `c` leaves.
put_view-scheduler : (s : State) (c : ℕ) (k : Kernel) → ((put_view s c k).cpus c).scheduler ≡ s.core
put_view-scheduler s c k = ap (λ (a : Cpu). a.scheduler) (write_self (k.cpus) c _)

pub put_view-view : (s : State) (c : ℕ) (k : Kernel) → view (put_view s c k) c ≡ s
put_view-view s c k =
    ap (λ (core : Scheduler). record { procs = s.procs; core = core }) (put_view-scheduler s c k)

-- A call that succeeds on the scheduler of core `c`.
pub put_outcome-view :
    {A : Type 0} (out : Result A SchedulerError × State) (c : ℕ) (k : Kernel)
    → ((put_outcome out c k).0 ≡ out.0)
      × (view (put_outcome out c k).1 c ≡ out.1)
      × ((put_outcome out c k).1.procs ≡ out.1.procs)
      × ((put_outcome out c k).1 ≡ put_view out.1 c k)
put_outcome-view (r, s) c k = (refl, put_view-view s c k, refl, refl)

-- A process that is not IDLE has become ready, with a full quantum, and waits last at its priority.
pub record IsMarked (c i p : ℕ) (r : Ready) (k : Kernel) : Type 0 where
  pub represents : Represents (view k c) (enqueue r i p)
  pub status : k.procs.status p ≡ ProcessStatus.ready
  pub quantum : k.procs.quantum p ≡ pos quantum_max

-- The process before it enters a queue, and the scheduler's answer.
abbrev pub readied : ℕ → Kernel → Kernel
readied p k = set_status p ProcessStatus.ready (set_quantum p (pos quantum_max) k)

abbrev pub added : ℕ → ℕ → Kernel → Result (Unit {0}) SchedulerError × State
added c p k = add_process (view (readied p k) c) (some p)

module _ (c i p : ℕ) (r : Ready) (k : Kernel) (old : Represents (view k c) r)
    (range : i < priority_max) (apart : p ≢ (k.cpus c).idle_process)
    (priority : k.procs.priority p ≡ pos i) (unflagged : k.procs.is_in_ready_queue p ≡ false) where
  readied-Represents : Represents (view (readied p k) c) r
  readied-Represents =
      changes-Represents (view k c) ((readied p k).procs) r refl refl refl
        (λ q flagged. (
          refl,
          write-ne (k.procs.status) p ProcessStatus.ready
              (λ e. absurd (ground (arith, flagged, unflagged, ap (k.procs.is_in_ready_queue) e))),
        ))
        old

  readied-IsAddable : IsAddable ((readied p k).procs) i p
  readied-IsAddable =
      unflagged-IsAddable readied-Represents (write_self (k.procs.status) p ProcessStatus.ready)
        priority unflagged

  pub added-ok : ((added c p k).0 ≡ ok tt) × Represents (added c p k).1 (enqueue r i p)
  added-ok =
      add_process-Represents (view (readied p k) c) r i p readied-Represents range readied-IsAddable

  pub mark_scheduled-eq : mark_scheduled c p k ≡ (ok tt, put_view (added c p k).1 c (readied p k))
  unfolding mark_scheduled
  mark_scheduled-eq =
      let put = put_outcome-view (added c p k) c (readied p k) in
      rw (==_false p (k.cpus c).idle_process apart) (
        or_else-ok (put_outcome (added c p k) c (readied p k)) tt accept_waiting
          (put.0 ∙ added-ok.0)
        ∙ ap (λ (k' : Kernel). (ok tt, k')) put.3)

  pub added-kept : unlinked ((added c p k).1.procs) ≡ unlinked ((readied p k).procs)
  added-kept = add_process-Apart (view (readied p k) c) p
