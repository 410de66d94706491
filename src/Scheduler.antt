-- ===== src/Scheduler.antt =====
-- kernel/process/scheduler.{hpp,cpp}: 32 ready queues, doubly linked through the processes, and a
-- cached upper bound of the priorities in use. Processes are addresses in a store that the
-- scheduler shares with the rest of the kernel.
pub mod Queues
pub mod Frame
pub mod Changes
pub mod Add
pub mod Highest
pub mod Remove
pub mod Direct
pub mod Runs
mod Examples
pub mod Schedule
use a9n.Base.{
  ℕ, zero, suc, ◌+◌, Bool, true, false, not, ◌&&◌, ◌||◌, Option, none, some, ltb, leb, ◌==◌,
  if◌then◌else◌, is_some, write,
}
use a9n.Base.Int.{ℤ, pos, negsuc, ltb_ℤ}
use a9n.Base.Result.{Result, ok, err}
use a9n.Process.{Processes, ProcessStatus}

abbrev pub priority_max : ℕ
priority_max = 32

pub data SchedulerError : Type 0 where
  no_process invalid_process invalid_priority cpu_error invalid_cpu_core : SchedulerError
  process_not_in_queue process_already_exists_in_queue can_not_schedule : SchedulerError

pub record ProcessQueue : Type 0 where
  pub head : Option ℕ
  pub tail : Option ℕ

pub record Scheduler : Type 0 where
  pub queue : ℕ → ProcessQueue
  pub highest_priority : ℤ

-- The scheduler with the processes that it links.
pub record State : Type 0 where
  pub procs : Processes
  pub open procs use {status, priority, next, preview, is_in_ready_queue}
  pub core : Scheduler
  pub open core use {queue, highest_priority}

abbrev pub Outcome : Type 0 → Type 0
Outcome A = Result A SchedulerError × State

-- A scheduler as constructed: empty queues, and the highest priority as the bound.
abbrev pub initial : Scheduler
initial = record { queue = λ _. record { head = none; tail = none }; highest_priority = pos 31 }

abbrev set_queue : State → ℕ → ProcessQueue → State
set_queue s i q = record s {
  core = record { queue = write s.queue i q; highest_priority = s.highest_priority };
}

abbrev set_highest : State → ℤ → State
set_highest s h = record s { core = record { queue = s.queue; highest_priority = h } }

-- The writes of one field of a process: `p->next = v` and so on.
abbrev set_next : State → ℕ → Option ℕ → State
set_next s p v = record s { procs = record (s.procs) { next = write s.next p v } }

abbrev set_preview : State → ℕ → Option ℕ → State
set_preview s p v = record s { procs = record (s.procs) { preview = write s.preview p v } }

abbrev set_flag : State → ℕ → Bool → State
set_flag s p v = record s {
  procs = record (s.procs) { is_in_ready_queue = write s.is_in_ready_queue p v };
}

-- Unlinks the head `p` of queue `i`.
take_head : State → ℕ → ℕ → State
take_head s i p =
    let s1 = set_queue s i (record (s.queue i) { head = s.next p }) in
    let s2 : State = elim (s.next p) [
      | some q ↦ set_preview s1 q none
      | none ↦ set_queue s1 i (record (s1.queue i) { tail = none })
    ] in
    set_flag (set_preview (set_next (set_highest s2 (s2.priority p)) p none) p none) p false

-- `for (i = …; i >= 0; i--)`.
schedule_from : ℕ → State → Outcome ℕ
unfolding take_head
schedule_from zero s = elim (s.queue 0).head [
  | some p ↦ (ok p, take_head s 0 p)
  | none ↦ (err process_not_in_queue, s)
]
schedule_from (suc i) s = elim (s.queue (suc i)).head [
  | some p ↦ (ok p, take_head s (suc i) p)
  | none ↦ schedule_from i s
]

pub schedule : State → Outcome ℕ
unfolding schedule_from
schedule s = elim s.highest_priority [
  | pos i ↦ schedule_from i s
  | negsuc _ ↦ (err process_not_in_queue, s)
]

-- The index of a valid priority.
abbrev pub queue_index : ℤ → Option ℕ
queue_index (pos i) = if leb priority_max i then none else some i
queue_index (negsuc _) = none

abbrev pub is_ready : ProcessStatus → Bool
is_ready ProcessStatus.ready = true
is_ready _ = false

-- The only process of queue `i`.
append_first : State → ℕ → ℕ → State
append_first s i p = set_flag (set_queue s i (record { head = some p; tail = some p })) p true

-- Behind the last process `t` of queue `i`.
append_behind : State → ℕ → ℕ → ℕ → State
append_behind s i t p =
    let s1 = set_preview (set_next s t (some p)) p (s.queue i).tail in
    let s2 = set_queue s1 i (record (s1.queue i) { tail = some p }) in
    set_flag (set_next s2 p none) p true

append_tail : State → ℕ → ℕ → State
unfolding append_first append_behind
append_tail s i p = elim (s.queue i).head [
  | none ↦ append_first s i p
  | some _ ↦ elim (s.queue i).tail [ none ↦ append_first s i p | some t ↦ append_behind s i t p ]
]

abbrev raise : State → ℕ → State
raise s i = if ltb_ℤ s.highest_priority (pos i) then set_highest s (pos i) else s

pub add_process : State → Option ℕ → Outcome (Unit {0})
unfolding append_tail
add_process s none = (err invalid_process, s)
add_process s (some p) =
    if is_ready (s.status p)
    then elim (queue_index (s.priority p)) [
      | none ↦ (err invalid_priority, s)
      | some i ↦
          if s.is_in_ready_queue p || is_some (s.next p) || is_some (s.preview p)
          then (err process_already_exists_in_queue, s)
          else (ok tt, append_tail (raise s i) i p)
    ]
    else (err invalid_process, s)

-- `while (target < highest && !queue[highest].head) --highest`.
pub lower_highest : (ℕ → ProcessQueue) → ℕ → ℕ → ℕ
lower_highest queue target zero = zero
lower_highest queue target (suc h) =
    let lower = lower_highest queue target h in
    if ltb target (suc h) && not (is_some (queue (suc h)).head) then lower else suc h

abbrev pub lower_to : (ℕ → ProcessQueue) → ℕ → ℤ → ℤ
lower_to queue target (pos h) = pos (lower_highest queue target h)
lower_to queue target (negsuc h) = negsuc h

-- `.and_then([&] { return schedule(); })`.
abbrev after_add : Outcome (Unit {0}) → Outcome ℕ
after_add (ok _, s) = schedule s
after_add (err e, s) = (err e, s)

-- The schedule of another process where one of a higher priority waits.
enqueue_and_schedule : State → ℕ → Outcome ℕ
enqueue_and_schedule s p =
    if is_ready (s.status p) then after_add (add_process s (some p)) else (err invalid_process, s)

direct : State → ℕ → Outcome ℕ
direct s p = if s.is_in_ready_queue p then (err process_already_exists_in_queue, s) else (ok p, s)

-- The bound lowered for a process of priority `i`.
abbrev pub lowered : State → ℕ → State
lowered s i = set_highest s (lower_to s.queue i s.highest_priority)

choose : State → ℕ → ℕ → Outcome ℕ
choose s i p = if ltb_ℤ (pos i) s.highest_priority then enqueue_and_schedule s p else direct s p

pub try_direct_schedule : State → Option ℕ → Outcome ℕ
try_direct_schedule s none = (err invalid_process, s)
try_direct_schedule s (some p) = elim (queue_index (s.priority p)) [
  | none ↦ (err invalid_priority, s)
  | some i ↦ if ltb_ℤ (pos i) s.highest_priority then choose (lowered s i) i p else direct s p
]

-- The walk along a queue for `target`, with the process before it. `out_of_fuel` stands for a walk
-- that has not ended.
pub data Walk : Type 0 where
  found : Option ℕ → Walk
  absent : Walk
  out_of_fuel : Walk

walk : ℕ → Processes → ℕ → Option ℕ → Option ℕ → Walk
walk fuel procs target previous none = absent
walk zero procs target previous (some current) = out_of_fuel
walk (suc fuel) procs target previous (some current) =
    let further = walk fuel procs target (some current) (procs.next current) in
    if current == target then found previous else further

-- Takes `p` out of queue `i`, where `previous` stands before it.
unlink : State → ℕ → Option ℕ → ℕ → State
unfolding lower_highest
unlink s i previous p =
    let next = s.next p in
    let s1 : State = elim previous [
      | some q ↦ set_next s q next
      | none ↦ set_queue s i (record (s.queue i) { head = next })
    ] in
    let s2 : State = elim next [
      | some q ↦ set_preview s1 q previous
      | none ↦ set_queue s1 i (record (s1.queue i) { tail = previous })
    ] in
    let s3 = set_flag (set_preview (set_next s2 p none) p none) p false in
    set_highest s3 (lower_to s3.queue 0 s3.highest_priority)

-- `for (priority = i; …)` over the `rounds` queues left. `none`: a walk ran out of fuel.
remove_from : ℕ → ℕ → ℕ → State → ℕ → Option (Outcome (Unit {0}))
unfolding walk unlink
remove_from fuel zero i s p = some (err process_not_in_queue, s)
remove_from fuel (suc rounds) i s p = elim (walk fuel s.procs p none (s.queue i).head) [
  | found previous ↦ some (ok tt, unlink s i previous p)
  | absent ↦ remove_from fuel rounds (suc i) s p
  | out_of_fuel ↦ none
]

pub remove_process : ℕ → State → Option ℕ → Option (Outcome (Unit {0}))
unfolding remove_from
remove_process fuel s none = some (err invalid_process, s)
remove_process fuel s (some p) = remove_from fuel priority_max 0 s p
