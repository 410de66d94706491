-- ===== src/Manager.antt =====
-- kernel/process/process_manager.{hpp,cpp}: the scheduler of a core together with what runs on it.
-- `smp` is the configuration's SMP_ENABLED; a manager is named by its core, and BSP_ID is 0.
pub mod Idle
pub mod Suspend
pub mod Route
pub mod Frame
pub mod Mark
pub mod Turns
pub mod Fair
mod Examples
use a9n.Base.{
  ℕ, ◌+◌, Bool, true, false, not, ◌&&◌, ◌||◌, Option, none, some, ◌==◌, if◌then◌else◌, is_some,
  points_to, write,
}
use a9n.Base.Int.{ℤ, pos, leb_ℤ, pred_ℤ}
use a9n.Base.Result.{Result, ok, err, KernelError, no_such_address, try_again, unexpected}
use a9n.Hal.{Hal, HalError}
use a9n.Kernel.{
  Kernel, Cpu, M, ◌>>=◌, ◌>>◌, return, fail, get, modify, or_else, convert_hal, lift, bind,
  set_status, set_cpu, switch_context, or_else_result, store_registers, set_registers,
}
use a9n.Process.{Processes, ProcessStatus, quantum_max}
use a9n.Scheduler.{
  State, SchedulerError, add_process, schedule, remove_process, try_direct_schedule,
  process_already_exists_in_queue, process_not_in_queue, is_ready,
}

-- What the scheduler of core `c` works on.
abbrev pub view : Kernel → ℕ → State
view k c = record { procs = k.procs; core = (k.cpus c).scheduler }

abbrev pub put_view : State → ℕ → Kernel → Kernel
put_view s c k = record k {
  procs = s.procs;
  cpus = write (k.cpus) c (record (k.cpus c) { scheduler = s.core });
}

abbrev pub put_outcome :
    {A : Type 0} → Result A SchedulerError × State → ℕ → Kernel → Result A SchedulerError × Kernel
put_outcome (r, s) c k = (r, put_view s c k)

-- A call of the scheduler of core `c`.
abbrev pub scheduler :
    {A : Type 0} → ℕ → (State → Result A SchedulerError × State) → M SchedulerError A
scheduler c f k = put_outcome (f (view k c)) c k

abbrev pub address : Option ℕ → ℕ
address none = 0
address (some p) = p

abbrev pub set_quantum : ℕ → ℤ → Kernel → Kernel
set_quantum p v k = record k { procs = record (k.procs) { quantum = write (k.procs.quantum) p v } }

-- `add_process`, where a process that waits already is accepted.
abbrev pub accept_waiting : SchedulerError → M KernelError (Unit {0})
accept_waiting process_already_exists_in_queue = return tt
accept_waiting _ = fail unexpected

abbrev pub enqueue_ready : ℕ → ℕ → M KernelError (Unit {0})
enqueue_ready c p = or_else (scheduler c (λ s. add_process s (some p))) accept_waiting

-- `process_manager::mark_scheduled`: IDLE is never in a queue.
pub mark_scheduled : ℕ → ℕ → M KernelError (Unit {0})
mark_scheduled c p k =
    let k1 = set_quantum p (pos quantum_max) k in
    if p == (k1.cpus c).idle_process
    then (ok tt, set_status p ProcessStatus.idle k1)
    else enqueue_ready c p (set_status p ProcessStatus.ready k1)

-- `process_manager::mark_suspended`, on the fuel of `remove_process`.
abbrev pub accept_absent :
    ℕ
    → ℕ
    → Result (Unit {0}) SchedulerError × State
    → Kernel
    → Result (Unit {0}) KernelError × Kernel
accept_absent c p (ok _, s) k = (ok tt, set_status p ProcessStatus.blocked_suspend (put_view s c k))
accept_absent c p (err process_not_in_queue, s) k =
    (ok tt, set_status p ProcessStatus.blocked_suspend (put_view s c k))
accept_absent c p (err _, s) k = (err unexpected, put_view s c k)

pub mark_suspended : ℕ → ℕ → ℕ → Kernel → Option (Result (Unit {0}) KernelError × Kernel)
mark_suspended fuel c p k = elim (remove_process fuel (view k c) (some p)) [
  | none ↦ none
  | some out ↦ some (accept_absent c p out k)
]

abbrev pub set_current : ℕ → Option ℕ → Bool → Kernel → Kernel
set_current c p idle k = set_cpu c (record (k.cpus c) { current_process = p; is_idle = idle }) k

module _ (hal : Hal) where
  abbrev pub current_cpu : M KernelError ℕ
  current_cpu = convert_hal (lift (hal.current_cpu))

  -- Where there is no current process, IDLE's storage takes the context that is left.
  abbrev pub previous_or_idle : ℕ → Option ℕ → ℕ
  previous_or_idle idle none = idle
  previous_or_idle idle (some p) = p

  -- `switch_to_idle` of core `c`'s manager, where the code runs on core `l`.
  idle_on : ℕ → ℕ → M KernelError (Unit {0})
  idle_on c l k =
      let idle = (k.cpus c).idle_process in
      if (k.cpus l).is_idle
      then (ok tt, k)
      else (do
        convert_hal (switch_context hal (previous_or_idle idle (k.cpus l).current_process) idle)
        modify (set_current l (some idle) true))
          k

  pub switch_to_idle : ℕ → M KernelError (Unit {0})
  unfolding idle_on
  switch_to_idle c = do l ← current_cpu; idle_on c l

  -- The dispatch of `next` on core `l`.
  dispatch : ℕ → ℕ → M HalError (Unit {0})
  dispatch l next k =
      let previous = address (k.cpus l).current_process in
      switch_context hal previous next (set_current l (some next) false k)

  schedule_error : SchedulerError → M HalError ℕ
  schedule_error e = fail HalError.try_again

  fall_back : ℕ → HalError → M HalError (Unit {0})
  fall_back c e = or_else (switch_to_idle c) (λ e'. fail HalError.try_again)

  -- `process_manager::try_schedule_and_switch(local_variable)`, of core `c` on the variables of `l`.
  pub schedule_and_switch : ℕ → ℕ → M KernelError (Unit {0})
  unfolding dispatch schedule_error fall_back
  schedule_and_switch c l = convert_hal (
      or_else (do next ← or_else (scheduler c schedule) schedule_error; dispatch l next)
        (fall_back c))

  -- `process_manager::try_schedule_and_switch()`.
  pub schedule_and_switch_here : ℕ → M KernelError (Unit {0})
  schedule_and_switch_here c = do l ← current_cpu; schedule_and_switch c l

  -- `process_manager::try_direct_schedule_and_switch(target, local_variable)`.
  pub direct_and_switch : ℕ → ℕ → ℕ → M KernelError (Unit {0})
  unfolding dispatch schedule_error
  direct_and_switch c target l = convert_hal (do
    next ← or_else (scheduler c (λ s. try_direct_schedule s (some target))) schedule_error
    dispatch l next)

  pub direct_and_switch_here : ℕ → ℕ → M KernelError (Unit {0})
  direct_and_switch_here c target = do l ← current_cpu; direct_and_switch c target l

  -- `current_process_on_this_core`.
  pub current_process_on_this_core : M KernelError ℕ
  current_process_on_this_core = do
    l ← current_cpu
    k ← get
    elim (k.cpus l).current_process [ none ↦ fail no_such_address | some p ↦ return p ]

  -- `process_manager::yield`.
  pub yield : ℕ → M KernelError (Unit {0})
  yield c = do
    l ← current_cpu
    k ← get
    let current = address (k.cpus l).current_process
    modify (set_quantum current (pos quantum_max))
    mark_scheduled c current
    schedule_and_switch_here c

  -- The timer's tick for the running process `current`.
  tick : ℕ → ℕ → M KernelError (Unit {0})
  tick c current k =
      let k1 = set_quantum current (pred_ℤ (k.procs.quantum current)) k in
      if leb_ℤ (k1.procs.quantum current) (pos 0)
      then or_else
          (do
            modify (set_quantum current (pos quantum_max))
            mark_scheduled c current
            schedule_and_switch_here c)
          (λ e. or_else (switch_to_idle c) (λ e'. return tt)) k1
      else (ok tt, k1)

  abbrev pub may_run : ProcessStatus → Bool
  may_run ProcessStatus.ready = true
  may_run ProcessStatus.idle = true
  may_run _ = false

  -- `process_manager::handle_timer`.
  pub handle_timer : ℕ → M KernelError (Unit {0})
  unfolding tick
  handle_timer c = do
    current ← current_process_on_this_core
    k ← get
    if may_run (k.procs.status current) then tick c current else schedule_and_switch_here c

  -- The return of a preempted process to its queue.
  requeue_current : ℕ → ℕ → M KernelError (Unit {0})
  requeue_current c current k =
      if is_ready (k.procs.status current)
      then or_else (scheduler c (λ s. add_process s (some current))) (λ e. fail unexpected) k
      else (ok tt, k)

  -- `process_manager::schedule_if_preempted_by`.
  pub schedule_if_preempted_by : ℕ → ℕ → M KernelError (Unit {0})
  unfolding requeue_current
  schedule_if_preempted_by c target = do
    current ← current_process_on_this_core
    k ← get
    if leb_ℤ (k.procs.priority target) (k.procs.priority current)
        then return tt
        else (requeue_current c current >> schedule_and_switch_here c)

  -- `process_manager::try_remote_target_and_switch`, on the fuel of `remove_process`.
  abbrev removed_and_switched :
      ℕ → ℕ → ℕ → Result (Unit {0}) SchedulerError × State → M KernelError (Unit {0})
  removed_and_switched c target l (err _, s) k = (err unexpected, put_view s c k)
  removed_and_switched c target l (ok _, s) k = convert_hal (dispatch l target) (put_view s c k)

  pub try_remote_target_and_switch :
      ℕ → ℕ → ℕ → ℕ → Kernel → Option (Result (Unit {0}) KernelError × Kernel)
  unfolding dispatch
  try_remote_target_and_switch fuel c target l k =
      if is_ready (k.procs.status target) && k.procs.is_in_ready_queue target
      then elim (remove_process fuel (view k c) (some target)) [
        | none ↦ none
        | some out ↦ some (removed_and_switched c target l out k)
      ]
      else some (err try_again, k)
