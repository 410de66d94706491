-- ===== src/Scheduler/Examples.antt =====
-- Runs of the scheduler on two processes, and its theorems at those states.
use a9n.Base.{ℕ, ◌≡◌, ◌<◌, ◌≤◌, refl, false, none, some, [], arith, length, ◌==◌, if◌then◌else◌}
use a9n.Base.Int.{pos}
use a9n.Base.Result.{ok, err}
use a9n.Process.{Processes, ProcessStatus, initial_processes}
use a9n.Scheduler.{
  State, priority_max, add_process, schedule, remove_process, try_direct_schedule,
  process_already_exists_in_queue,
}
use a9n.Scheduler.Queues.{Ready, Represents}
use a9n.Scheduler.Add.{IsAddable, enqueue, add_process-Represents, add_process-queued}
use a9n.Scheduler.Schedule.{Scheduled, schedule-Scheduled}
use a9n.Scheduler.Remove.{Removed, remove_process-Removed}
use a9n.Scheduler.Direct.{Directed, try_direct_schedule-Directed}
use a9n.Scheduler.Runs.{
  start, initial-Represents, here, onward, adds, schedules, directs, IsOrdered, Reach-IsOrdered,
}

-- Every process is ready, at priority 4, but process 3 at priority 9.
abbrev processes : Processes
processes = record initial_processes {
  status = λ _. ProcessStatus.ready;
  priority = λ p. if p == 3 then pos 9 else pos 4;
  quantum = λ _. pos 10;
}

abbrev empty : State
empty = start processes

empty-Represents : Represents empty (λ _. [])
empty-Represents = initial-Represents processes (λ p. (refl, refl, refl))

new_process : (p : ℕ) (i : ℕ) → processes.priority p ≡ pos i → IsAddable processes i p
new_process p i e = record {
  executable = refl;
  priority = e;
  unflagged = refl;
  next_clear = refl;
  preview_clear = refl;
}

abbrev one : State
one = (add_process empty (some 1)).1

abbrev one_ready : Ready
one_ready = enqueue (λ _. []) 4 1

add_process-Represents_example : ((add_process empty (some 1)).0 ≡ ok tt) × Represents one one_ready
add_process-Represents_example =
    add_process-Represents empty (λ _. []) 4 1 empty-Represents (omega arith) (new_process 1 4 refl)

one-Represents : Represents one one_ready
one-Represents =
    (add_process-Represents empty (λ _. []) 4 1 empty-Represents (omega arith)
      (new_process 1 4 refl)).1

one_flags : (one.is_in_ready_queue 2 ≡ false) × (one.next 2 ≡ none) × (one.preview 2 ≡ none)
unfolding add_process
one_flags = (refl, refl, refl)

schedule-Scheduled_example : Scheduled one one_ready (schedule one)
schedule-Scheduled_example = schedule-Scheduled one one_ready one-Represents

one_ready_short : (i : ℕ) → i < priority_max → length (one_ready i) ≤ 2
one_ready_short i h = ground arith

remove_process-Removed_example : Removed one one_ready 1 (remove_process 2 one (some 1))
remove_process-Removed_example =
    remove_process-Removed 2 one one_ready 1 one-Represents one_ready_short

one_priority : one.priority 3 ≡ pos 9
unfolding add_process
one_priority = refl

try_direct_schedule-Directed_example :
    Directed one one_ready (some 3) (try_direct_schedule one (some 3))
try_direct_schedule-Directed_example =
    try_direct_schedule-Directed one one_ready (some 3) one-Represents

add_process-queued_example : add_process one (some 1) ≡ (err process_already_exists_in_queue, one)
add_process-queued_example = add_process-queued one one_ready 4 1 one-Represents (omega arith) refl

Reach-IsOrdered_example : IsOrdered (try_direct_schedule (schedule one).1 (some 3)).1
Reach-IsOrdered_example =
    Reach-IsOrdered processes (λ p. (refl, refl, refl))
      (try_direct_schedule (schedule one).1 (some 3)).1
      (onward (onward (onward here (adds empty (some 1))) (schedules one))
        (directs (schedule one).1 (some 3)))

-- Process 3 outranks 1 and 2, which run in the order of their arrival.
abbrev three : State
three = (add_process (add_process one (some 2)).1 (some 3)).1

first_scheduled : (schedule three).0 ≡ ok 3
unfolding schedule add_process
first_scheduled = refl

second_scheduled : (schedule (schedule three).1).0 ≡ ok 1
unfolding schedule add_process
second_scheduled = refl

last_scheduled : (schedule (schedule (schedule three).1).1).0 ≡ ok 2
unfolding schedule add_process
last_scheduled = refl
