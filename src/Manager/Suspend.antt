-- ===== src/Manager/Suspend.antt =====
-- `process_manager::mark_suspended` against the scheduler's lists.
use a9n.Base.{
  ℕ, ◌≡◌, ◌<◌, ◌≤◌, refl, sym, ap, subst, false, Option, none, some, inl, inr, Bool-cases, elem,
  erase, length, write, write_self, write-ne, arith,
}
use a9n.Base.Int.{pos_part}
use a9n.Base.Result.{Result, ok, KernelError}
use a9n.Kernel.{Kernel, Cpu, set_status}
use a9n.Manager.{view, put_view, accept_absent, mark_suspended}
use a9n.Manager.Mark.{put_view-view}
use a9n.Process.{ProcessStatus}
use a9n.Scheduler.{State, SchedulerError, priority_max}
use a9n.Scheduler.Changes.{changes-Represents}
use a9n.Scheduler.Queues.{Ready, Represents}
use a9n.Scheduler.Remove.{Removed, removes, misses, remove_process-Removed}

-- The process is out of scheduling on core `c`, whose queues stay in order.
pub record IsAway (c p : ℕ) (k : Kernel) : Type 0 where
  pub status : k.procs.status p ≡ ProcessStatus.blocked_suspend
  pub unqueued : k.procs.is_in_ready_queue p ≡ false
  pub ready : Ready
  pub represents : Represents (view k c) ready

-- Such an answer to `mark_suspended`, which leaves what the core runs.
pub record IsSuspended (c p : ℕ) (k : Kernel) (o : Option (Result (Unit {0}) KernelError × Kernel))
    : Type 0 where
  pub next : Kernel
  pub ends : o ≡ some (ok tt, next)
  pub away : IsAway c p next
  pub current : (next.cpus c).current_process ≡ (k.cpus c).current_process
  pub idle : (next.cpus c).is_idle ≡ (k.cpus c).is_idle

-- A process that is in no list is not flagged.
missing-unflagged :
    (s : State) (r : Ready) (p : ℕ)
    → Represents s r
    → ((i : ℕ) → i < priority_max → elem p (r i) ≡ false)
    → s.is_in_ready_queue p ≡ false
missing-unflagged s r p held out = elim (Bool-cases (s.is_in_ready_queue p)) [
  | inl flagged ↦
      let listed = (held.placed p).listed flagged in
      let not_there = out (pos_part (s.priority p)) listed.0 in
      absurd (ground (arith, listed.1, not_there))
  | inr unflagged ↦ unflagged
]

module _ (c p : ℕ) (k : Kernel) where
  abbrev suspended : State → Kernel
  suspended s = set_status p ProcessStatus.blocked_suspend (put_view s c k)

  suspended-IsAway :
      (s : State) (r : Ready)
      → Represents s r
      → s.is_in_ready_queue p ≡ false
      → IsAway c p (suspended s)
  suspended-IsAway s r held unflagged = record {
    status = write_self (s.status) p ProcessStatus.blocked_suspend;
    unqueued = unflagged;
    ready = r;
    represents =
        changes-Represents (view (put_view s c k) c) ((suspended s).procs) r refl refl refl
          (λ q flagged. (
            refl,
            write-ne (s.status) p ProcessStatus.blocked_suspend
                (λ e. absurd (ground (arith, flagged, unflagged, ap (s.is_in_ready_queue) e))),
          ))
          (subst (λ (s' : State). Represents s' r) (sym (put_view-view s c k)) held);
  }

  suspended-IsSuspended :
      (s : State) (r : Ready)
      → Represents s r
      → s.is_in_ready_queue p ≡ false
      → IsSuspended c p k (some (ok tt, suspended s))
  suspended-IsSuspended s r held unflagged =
      let written = write_self (k.cpus) c (record (k.cpus c) { scheduler = s.core }) in
      record {
        next = suspended s;
        ends = refl;
        away = suspended-IsAway s r held unflagged;
        current = ap (λ (v : Cpu). v.current_process) written;
        idle = ap (λ (v : Cpu). v.is_idle) written;
      }

  -- What `mark_suspended` makes of the scheduler's answer.
  abbrev put_away :
      Option (Result (Unit {0}) SchedulerError × State)
      → Option (Result (Unit {0}) KernelError × Kernel)
  put_away o = elim o [ none ↦ none | some out ↦ some (accept_absent c p out k) ]

  put_away-IsSuspended :
      (r : Ready) {o : Option (Result (Unit {0}) SchedulerError × State)}
      → Represents (view k c) r
      → Removed (view k c) r p o
      → IsSuspended c p k (put_away o)
  put_away-IsSuspended r old (removes i {s'} range m held unflagged) =
      suspended-IsSuspended s' (write r i (erase p (r i))) held unflagged
  put_away-IsSuspended r old (misses out) =
      suspended-IsSuspended (view k c) r old (missing-unflagged (view k c) r p old out)

  -- With fuel for the longest queue the process leaves its queue and is suspended, also where no
  -- queue had it.
  pub mark_suspended-IsSuspended :
      (fuel : ℕ) (r : Ready)
      → Represents (view k c) r
      → ((i : ℕ) → i < priority_max → length (r i) ≤ fuel)
      → IsSuspended c p k (mark_suspended fuel c p k)
  unfolding mark_suspended
  mark_suspended-IsSuspended fuel r old enough =
      put_away-IsSuspended r old (remove_process-Removed fuel (view k c) r p old enough)
