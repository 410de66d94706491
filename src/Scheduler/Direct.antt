-- ===== src/Scheduler/Direct.antt =====
-- `scheduler::try_direct_schedule`: a direct switch to a process, unless one of a higher priority
-- waits.
use a9n.Base.{
  ℕ, ◌<◌, ◌≡◌, ◌≢◌, refl, sym, ap, ◌∙◌, true, false, none, some, List, [], arith, elem, Bool-cases,
  inl, inr, subst, is_some, ltb, ltb→lt, Option, ◌⊎◌, if◌then◌else◌,
}
use a9n.Base.Int.{ℤ, pos, negsuc, ltb_ℤ, pos_part}
use a9n.Base.Result.{Result, ok, err}
use a9n.Dll.{front}
use a9n.Process.{Processes, ProcessStatus}
use a9n.Scheduler.{
  State, SchedulerError, priority_max, Outcome, try_direct_schedule, enqueue_and_schedule, direct,
  lower_highest, lower_to, lowered, choose, add_process, schedule, after_add, is_ready, queue_index,
  process_already_exists_in_queue, invalid_process, invalid_priority,
}
use a9n.Scheduler.Queues.{Ready, Represents}
use a9n.Scheduler.Highest.{lower-Bound, lower_highest-stop}
use a9n.Scheduler.Add.{
  IsAddable, unflagged-IsAddable, enqueue, add_process-Represents, add_process-queued,
  queue_index_of_lt,
}
use a9n.Scheduler.Schedule.{Scheduled, schedule-Scheduled}

-- A process of a priority above `i` waits.
abbrev pub Outranked : Ready → ℕ → Type 0
Outranked r i = (j : ℕ) × (i < j) × (j < priority_max) × (r j ≢ [])

-- What a direct schedule of `p`, of the valid priority `i`, may do: switch to it, queue it and schedule another
-- process, or refuse and leave the processes as they are.
pub data Ranked (procs : Processes) (r : Ready) (i p : ℕ) : Outcome ℕ → Type 0 where
  switches :
      {s' : State}
      → ((j : ℕ) → i < j → j < priority_max → r j ≡ [])
      → procs.is_in_ready_queue p ≡ false
      → s'.procs ≡ procs
      → Represents s' r
      → Ranked procs r i p (ok p, s')
  yields :
      {s' : State} {out : Outcome ℕ}
      → Outranked r i
      → IsAddable procs i p
      → Represents s' (enqueue r i p)
      → Scheduled s' (enqueue r i p) out
      → Ranked procs r i p out
  queued :
      {s' : State}
      → procs.is_in_ready_queue p ≡ true
      → s'.procs ≡ procs
      → Represents s' r
      → Ranked procs r i p (err process_already_exists_in_queue, s')
  blocked :
      {s' : State}
      → Outranked r i
      → procs.status p ≢ ProcessStatus.ready
      → s'.procs ≡ procs
      → Represents s' r
      → Ranked procs r i p (err invalid_process, s')

pub ready_of_is_ready : (t : ProcessStatus) → is_ready t ≡ true → t ≡ ProcessStatus.ready
ready_of_is_ready t h = ground arith

module _ (s : State) (p : ℕ) where
  enqueue_and_schedule-blocked :
      is_ready (s.status p) ≡ false → enqueue_and_schedule s p ≡ (err invalid_process, s)
  unfolding enqueue_and_schedule
  enqueue_and_schedule-blocked e = rw e

  enqueue_and_schedule-failed :
      (e : SchedulerError)
      → is_ready (s.status p) ≡ true
      → add_process s (some p) ≡ (err e, s)
      → enqueue_and_schedule s p ≡ (err e, s)
  unfolding enqueue_and_schedule
  enqueue_and_schedule-failed e executable failed =
      rw executable (ap (λ (out : Outcome (Unit {0})). after_add out) failed)

  enqueue_and_schedule-added :
      is_ready (s.status p) ≡ true
      → (add_process s (some p)).0 ≡ ok tt
      → enqueue_and_schedule s p ≡ schedule (add_process s (some p)).1
  unfolding enqueue_and_schedule
  enqueue_and_schedule-added executable added = rw executable (
      ap (λ (out : Result (Unit {0}) SchedulerError). after_add (out, (add_process s (some p)).1))
        added)

module _ (s : State) (r : Ready) (i p : ℕ) (range : i < priority_max) (prio : s.priority p ≡ pos i)
    (rep : Represents s r) where
  direct-Ranked :
      ((j : ℕ) → i < j → j < priority_max → r j ≡ []) → Ranked s.procs r i p (direct s p)
  unfolding direct
  direct-Ranked top = elim (Bool-cases (s.is_in_ready_queue p)) [
    | inl f ↦ rw f (queued f refl rep)
    | inr f ↦ rw f (switches top f refl rep)
  ]

  ready-Ranked :
      Outranked r i
      → s.status p ≡ ProcessStatus.ready
      → Ranked s.procs r i p (enqueue_and_schedule s p)
  ready-Ranked higher executable = elim (Bool-cases (s.is_in_ready_queue p)) [
    | inl f ↦
        let placed = (rep.placed p).listed f in
        let m : elem p (r i) ≡ true =
          ap (λ (k : ℤ). elem p (r (pos_part k))) (sym prio) ∙ placed.1 in
        subst (Ranked s.procs r i p)
          (sym (
            enqueue_and_schedule-failed s p process_already_exists_in_queue (ap is_ready executable)
              (add_process-queued s r i p rep range m)))
          (queued f refl rep)
    | inr f ↦
        let new = unflagged-IsAddable rep executable prio f in
        let added = add_process-Represents s r i p rep range new in
        subst (Ranked s.procs r i p)
          (sym (enqueue_and_schedule-added s p (ap is_ready executable) added.0))
          (yields higher new added.1
            (schedule-Scheduled (add_process s (some p)).1 (enqueue r i p) added.1))
  ]

  enqueue_and_schedule-Ranked : Outranked r i → Ranked s.procs r i p (enqueue_and_schedule s p)
  enqueue_and_schedule-Ranked higher = elim (Bool-cases (is_ready (s.status p))) [
    | inl e ↦ ready-Ranked higher (ready_of_is_ready (s.status p) e)
    | inr e ↦
        subst (Ranked s.procs r i p) (sym (enqueue_and_schedule-blocked s p e))
          (blocked higher (λ h. let e' = ap is_ready h in ground arith) refl rep)
  ]

lowered-Represents : (s : State) (r : Ready) (i : ℕ) → Represents s r → Represents (lowered s i) r
lowered-Represents s r i rep = record {
  queues = rep.queues;
  placed = rep.placed;
  top = lower_highest s.queue i rep.top;
  bound =
      lower-Bound (lowered s i) r i rep.top rep.queues (ap (lower_to s.queue i) rep.bound.highest)
        rep.bound.in_range rep.bound.above;
}

-- A bound that is still above `i` is the priority of a process that waits.
lowered-Outranked :
    (s : State) (r : Ready) (i : ℕ) (rep : Represents s r)
    → i < lower_highest s.queue i rep.top
    → Outranked r i
unfolding lowered-Represents
lowered-Outranked s r i rep above =
    let h = lower_highest s.queue i rep.top in
    let range = (lowered-Represents s r i rep).bound.in_range in
    elim (lower_highest-stop s.queue i rep.top) [
      | inl le ↦ absurd (omega arith)
      | inr used ↦ (
        h,
        above,
        range,
        λ e.
            let head = (rep.queues h range).head ∙ ap (λ (l : List ℕ). front l none) e in
            let u = ap is_some head in absurd (ground arith),
      )
    ]

choose-Ranked :
    (s : State) (r : Ready) (i p : ℕ)
    → Represents s r
    → i < priority_max
    → s.priority p ≡ pos i
    → Ranked s.procs r i p (choose (lowered s i) i p)
unfolding choose lowered-Represents
choose-Ranked s r i p rep range prio =
    let low = lowered-Represents s r i rep in
    elim (Bool-cases (ltb_ℤ (pos i) (lowered s i).highest_priority)) [
      | inl above ↦ rw above (
          enqueue_and_schedule-Ranked (lowered s i) r i p range prio low
            (lowered-Outranked s r i rep (ltb→lt _ _ (ground (arith, above, low.bound.highest)))))
      | inr below ↦ rw below (
          direct-Ranked (lowered s i) r i p range prio low
            (λ j lt max. low.bound.above j (ground (arith, below, low.bound.highest)) max))
    ]

try_direct_schedule-eq :
    (s : State) (i p : ℕ)
    → i < priority_max
    → s.priority p ≡ pos i
    → try_direct_schedule s (some p)
      ≡ (if ltb_ℤ (pos i) s.highest_priority then choose (lowered s i) i p else direct s p)
unfolding try_direct_schedule
try_direct_schedule-eq s i p range prio =
    rw (ap queue_index prio ∙ queue_index_of_lt i range, try_direct_schedule)

-- Of a process of priority `i`.
pub ranked-Ranked :
    (s : State) (r : Ready) (i p : ℕ)
    → Represents s r
    → i < priority_max
    → s.priority p ≡ pos i
    → Ranked s.procs r i p (try_direct_schedule s (some p))
ranked-Ranked s r i p rep range prio =
    rw (try_direct_schedule-eq s i p range prio)
      (elim (Bool-cases (ltb_ℤ (pos i) s.highest_priority)) [
        | inl above ↦ rw above (choose-Ranked s r i p rep range prio)
        | inr below ↦ rw below (
            direct-Ranked s r i p range prio rep
              (λ j lt max. rep.bound.above j (ground (arith, below, rep.bound.highest)) max))
      ])

-- What a direct schedule may do: refuse a null pointer or a priority out of range, with nothing changed,
-- or treat the process by its priority.
pub data Directed (s : State) (r : Ready) : Option ℕ → Outcome ℕ → Type 0 where
  absent : Directed s r none (err invalid_process, s)
  unranked :
      {p : ℕ}
      → ((i : ℕ) → i < priority_max → s.priority p ≢ pos i)
      → Directed s r (some p) (err invalid_priority, s)
  ranked :
      {p : ℕ} {out : Outcome ℕ} (i : ℕ)
      → i < priority_max
      → s.priority p ≡ pos i
      → Ranked s.procs r i p out
      → Directed s r (some p) out

-- A priority is an index or is out of range.
pub queue_index_cases :
    (z : ℤ)
    → ((i : ℕ) × (i < priority_max) × (z ≡ pos i))
      ⊎ ((queue_index z ≡ none) × ((i : ℕ) → i < priority_max → z ≢ pos i))
queue_index_cases (pos n) = elim (Bool-cases (ltb n priority_max)) [
  | inl low ↦ inl (n, ltb→lt n priority_max low, refl)
  | inr high ↦ inr (
    ground arith,
    λ i range e. let same : n ≡ i = ap pos_part e in absurd (ground (arith, same, range, high)),
  )
]
queue_index_cases (negsuc n) = inr (refl, λ i range e. absurd (ground (arith, e)))

-- In a state in order, for every argument. The switch is direct where no process of a higher priority
-- waits, and then of a process that is in no queue. Otherwise the process is queued, if it is ready,
-- and another one scheduled. A null pointer, a priority out of range, a process that waits already,
-- and, where a process of a higher priority waits, one that is not ready are refused.
pub try_direct_schedule-Directed :
    (s : State) (r : Ready) (target : Option ℕ)
    → Represents s r
    → Directed s r target (try_direct_schedule s target)
unfolding try_direct_schedule
try_direct_schedule-Directed s r none rep = absent
try_direct_schedule-Directed s r (some p) rep = elim (queue_index_cases (s.priority p)) [
  | inl (i, range, prio) ↦ ranked i range prio (ranked-Ranked s r i p rep range prio)
  | inr (out, off) ↦ rw (out, try_direct_schedule) (unranked off)
]
