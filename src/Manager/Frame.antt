-- ===== src/Manager/Frame.antt =====
-- What the process manager leaves alone: everything but the scheduling fields of the processes and
-- the cores.
use a9n.Base.{ℕ, ◌≡◌, refl, ap, ◌∙◌, ◌==◌, Bool, true, false, Option, none, some, if◌then◌else◌}
use a9n.Base.Int.{pos, leb_ℤ}
use a9n.Base.Result.{Result, ok, err, KernelError, no_such_address}
use a9n.Process.{Processes, ProcessStatus, quantum_max}
use a9n.Hal.{Hal, HalError, Registers}
use a9n.Kernel.{
  Kernel, Cpu, M, bind, ◌>>=◌, ◌>>◌, or_else, or_else_result, switch_context, store_registers,
  convert_hal, fail, return, lift, modify, set_status,
}
use a9n.Scheduler.{
  SchedulerError, State, initial, schedule, is_ready, add_process, try_direct_schedule,
  process_already_exists_in_queue,
}
use a9n.Scheduler.Frame.{
  unlinked, Apart, schedule-Apart, add_process-Apart, try_direct_schedule-Apart,
}
use a9n.Manager.{
  view, put_outcome, scheduler, accept_waiting, enqueue_ready, mark_scheduled, idle_on, current_cpu,
  switch_to_idle, dispatch, schedule_and_switch, set_current, address, set_quantum, schedule_error,
  fall_back, schedule_and_switch_here, direct_and_switch, direct_and_switch_here,
  current_process_on_this_core, requeue_current, schedule_if_preempted_by,
}

abbrev pub no_cpu : Cpu
no_cpu = record {
  scheduler = initial;
  idle_process = 0;
  current_process = none;
  is_idle = false;
  pending_reschedule_target = none;
}

-- The state without what scheduling changes.
abbrev pub outside : Kernel → Kernel
outside k = record k {
  procs = record (unlinked (k.procs)) {
    registers = λ _ _. 0;
    status = λ _. ProcessStatus.unused;
    quantum = λ _. pos 0;
  };
  cpus = λ _. no_cpu;
}

-- Of one outcome, and of an operation.
pub record Kept {E A : Type 0} (k : Kernel) (out : Result A E × Kernel) : Type 0 where
  pub same : outside out.1 ≡ outside k

pub record Keeps {E A : Type 0} (m : M E A) : Type 0 where
  pub keep : (k : Kernel) → Kept k (m k)

-- A change of the scheduling fields alone.
pub change-Keeps :
    {E A : Type 0} (m : M E A) → ((k : Kernel) → outside (m k).1 ≡ outside k) → Keeps m
change-Keeps m e = record { keep = λ k. record { same = e k } }

module _ {E A B : Type 0} where
  bind-Kept :
      (k : Kernel) (out : Result A E × Kernel) (f : A → M E B)
      → Kept k out
      → ((a : A) → Keeps (f a))
      → outside (bind out f).1 ≡ outside k
  bind-Kept k (ok a, k') f e kept = ((kept a).keep k').same ∙ e.same
  bind-Kept k (err x, k') f e kept = e.same

  pub >>=-Keeps : {m : M E A} {f : A → M E B} → Keeps m → ((a : A) → Keeps (f a)) → Keeps (m >>= f)
  >>=-Keeps {m} {f} km kf = change-Keeps _ (λ k. bind-Kept k (m k) f (km.keep k) kf)

  pub >>-Keeps : {m : M E A} {n : M E B} → Keeps m → Keeps n → Keeps (m >> n)
  >>-Keeps {m} {n} km kn = change-Keeps _ (λ k. bind-Kept k (m k) (λ _. n) (km.keep k) (λ _. kn))

module _ {E F A : Type 0} where
  or_else_result-Kept :
      (k : Kernel) (out : Result A E × Kernel) (f : E → M F A)
      → Kept k out
      → ((e : E) → Keeps (f e))
      → outside (or_else_result out f).1 ≡ outside k
  or_else_result-Kept k (ok a, k') f e kept = e.same
  or_else_result-Kept k (err x, k') f e kept = ((kept x).keep k').same ∙ e.same

  pub or_else-Keeps :
      {m : M E A} {f : E → M F A} → Keeps m → ((e : E) → Keeps (f e)) → Keeps (or_else m f)
  or_else-Keeps {m} {f} km kf = change-Keeps _ (λ k. or_else_result-Kept k (m k) f (km.keep k) kf)

pub fail-Keeps : {E A : Type 0} (e : E) → Keeps {E = E} {A = A} (fail e)
fail-Keeps e = change-Keeps _ (λ k. refl)

pub return-Keeps : {E A : Type 0} (a : A) → Keeps {E = E} (return a)
return-Keeps a = change-Keeps _ (λ k. refl)

pub lift-Keeps : {E A : Type 0} (r : Result A E) → Keeps (lift r)
lift-Keeps r = change-Keeps _ (λ k. refl)

-- An operation that begins by a change, or by a read of the state.
pub after-Keeps :
    {E A : Type 0} (g : Kernel → Kernel) (m : M E A)
    → ((k : Kernel) → outside (g k) ≡ outside k)
    → Keeps m
    → Keeps (λ k. m (g k))
after-Keeps g m e km = change-Keeps _ (λ k. (km.keep (g k)).same ∙ e k)

pub reading-Keeps :
    {E A : Type 0} (m : Kernel → M E A) → ((k : Kernel) → Keeps (m k)) → Keeps (λ k. m k k)
reading-Keeps m km = change-Keeps _ (λ k. ((km k).keep k).same)

pub if-Keeps :
    {E A : Type 0} (b : Bool) {m n : M E A}
    → Keeps m
    → Keeps n
    → Keeps (λ k. if b then m k else n k)
if-Keeps true km kn = km
if-Keeps false km kn = kn

put_outcome-same :
    {A : Type 0} (c : ℕ) (k : Kernel) (out : Result A SchedulerError × State)
    → Apart (view k c) out.1
    → outside (put_outcome out c k).1 ≡ outside k
put_outcome-same c k (r, s) e = ap (λ (m : Processes). outside (record k { procs = m })) e

pub scheduler-Keeps :
    {A : Type 0} (c : ℕ) (f : State → Result A SchedulerError × State)
    → ((s : State) → Apart s (f s).1)
    → Keeps (scheduler c f)
scheduler-Keeps c f apart =
    change-Keeps _ (λ k. put_outcome-same c k (f (view k c)) (apart (view k c)))

store_registers-same :
    {A : Type 0} (out : Result A HalError × Registers) (k : Kernel)
    → outside (store_registers out k).1 ≡ outside k
store_registers-same (r, registers) k = refl

pub convert_hal-Keeps : {A : Type 0} {m : M HalError A} → Keeps m → Keeps (convert_hal m)
convert_hal-Keeps km = or_else-Keeps km (λ e. fail-Keeps _)

accept_waiting-Keeps : (e : SchedulerError) → Keeps (accept_waiting e)
accept_waiting-Keeps process_already_exists_in_queue = return-Keeps tt
accept_waiting-Keeps SchedulerError.no_process = fail-Keeps _
accept_waiting-Keeps SchedulerError.invalid_process = fail-Keeps _
accept_waiting-Keeps SchedulerError.invalid_priority = fail-Keeps _
accept_waiting-Keeps SchedulerError.cpu_error = fail-Keeps _
accept_waiting-Keeps SchedulerError.invalid_cpu_core = fail-Keeps _
accept_waiting-Keeps SchedulerError.process_not_in_queue = fail-Keeps _
accept_waiting-Keeps SchedulerError.can_not_schedule = fail-Keeps _

enqueue_ready-Keeps : (c p : ℕ) → Keeps (enqueue_ready c p)
enqueue_ready-Keeps c p =
    or_else-Keeps (scheduler-Keeps c (λ s. add_process s (some p)) (λ s. add_process-Apart s p))
      accept_waiting-Keeps

pub mark_scheduled-Keeps : (c p : ℕ) → Keeps (mark_scheduled c p)
unfolding mark_scheduled
mark_scheduled-Keeps c p = reading-Keeps _ (λ k.
    if-Keeps (p == (k.cpus c).idle_process)
      (after-Keeps (λ k'. set_status p ProcessStatus.idle (set_quantum p (pos quantum_max) k'))
        (return tt) (λ k'. refl) (return-Keeps tt))
      (after-Keeps (λ k'. set_status p ProcessStatus.ready (set_quantum p (pos quantum_max) k'))
        (enqueue_ready c p) (λ k'. refl) (enqueue_ready-Keeps c p)))

pub if_operation-Keeps :
    {E A : Type 0} (b : Bool) {m n : M E A} → Keeps m → Keeps n → Keeps (if b then m else n)
if_operation-Keeps true km kn = km
if_operation-Keeps false km kn = kn

found-Keeps :
    (o : Option ℕ)
    → Keeps {E = KernelError} {A = ℕ} (elim o [ none ↦ fail no_such_address | some p ↦ return p ])
found-Keeps none = fail-Keeps no_such_address
found-Keeps (some p) = return-Keeps p

module _ (hal : Hal) where
  switch_context-Keeps : (previous next : ℕ) → Keeps (switch_context hal previous next)
  switch_context-Keeps previous next =
      change-Keeps _
        (λ k. store_registers-same (hal.switch_context previous next (k.procs.registers)) k)

  current_cpu-Keeps : Keeps (current_cpu hal)
  current_cpu-Keeps = convert_hal-Keeps (lift-Keeps (hal.current_cpu))

  modify-Keeps :
      {E : Type 0} (g : Kernel → Kernel)
      → ((k : Kernel) → outside (g k) ≡ outside k)
      → Keeps {E = E} (modify g)
  modify-Keeps g e = change-Keeps _ e

  idle_on-Keeps : (c l : ℕ) → Keeps (idle_on hal c l)
  unfolding idle_on
  idle_on-Keeps c l = reading-Keeps _ (λ k.
      if-Keeps (k.cpus l).is_idle (return-Keeps tt)
        (>>-Keeps (convert_hal-Keeps (switch_context-Keeps _ _)) (modify-Keeps _ (λ k'. refl))))

  pub switch_to_idle-Keeps : (c : ℕ) → Keeps (switch_to_idle hal c)
  unfolding switch_to_idle
  switch_to_idle-Keeps c = >>=-Keeps current_cpu-Keeps (λ l. idle_on-Keeps c l)

  dispatch-Keeps : (l next : ℕ) → Keeps (dispatch hal l next)
  unfolding dispatch
  dispatch-Keeps l next = reading-Keeps _ (λ k.
      after-Keeps (set_current l (some next) false)
        (switch_context hal (address (k.cpus l).current_process) next) (λ k'. refl)
        (switch_context-Keeps _ next))

  pub schedule_and_switch-Keeps : (c l : ℕ) → Keeps (schedule_and_switch hal c l)
  unfolding schedule_and_switch schedule_error fall_back
  schedule_and_switch-Keeps c l = convert_hal-Keeps (
      or_else-Keeps
        (>>=-Keeps (or_else-Keeps (scheduler-Keeps c schedule schedule-Apart) (λ e. fail-Keeps _))
          (λ next. dispatch-Keeps l next))
        (λ e. or_else-Keeps (switch_to_idle-Keeps c) (λ e'. fail-Keeps _)))

  pub schedule_and_switch_here-Keeps : (c : ℕ) → Keeps (schedule_and_switch_here hal c)
  unfolding schedule_and_switch_here
  schedule_and_switch_here-Keeps c =
      >>=-Keeps current_cpu-Keeps (λ l. schedule_and_switch-Keeps c l)

  pub direct_and_switch-Keeps : (c target l : ℕ) → Keeps (direct_and_switch hal c target l)
  unfolding direct_and_switch schedule_error
  direct_and_switch-Keeps c target l = convert_hal-Keeps (
      >>=-Keeps
        (or_else-Keeps
          (scheduler-Keeps c (λ s. try_direct_schedule s (some target))
            (λ s. try_direct_schedule-Apart s target))
          (λ e. fail-Keeps _))
        (λ next. dispatch-Keeps l next))

  pub direct_and_switch_here-Keeps : (c target : ℕ) → Keeps (direct_and_switch_here hal c target)
  unfolding direct_and_switch_here
  direct_and_switch_here-Keeps c target =
      >>=-Keeps current_cpu-Keeps (λ l. direct_and_switch-Keeps c target l)

  current_process-Keeps : Keeps (current_process_on_this_core hal)
  unfolding current_process_on_this_core
  current_process-Keeps =
      >>=-Keeps current_cpu-Keeps
        (λ l. reading-Keeps _ (λ k. found-Keeps (k.cpus l).current_process))

  requeue_current-Keeps : (c current : ℕ) → Keeps (requeue_current hal c current)
  unfolding requeue_current
  requeue_current-Keeps c current = reading-Keeps _ (λ k.
      if-Keeps (is_ready (k.procs.status current))
        (or_else-Keeps
          (scheduler-Keeps c (λ s. add_process s (some current)) (λ s. add_process-Apart s current))
          (λ e. fail-Keeps _))
        (return-Keeps tt))

  pub schedule_if_preempted_by-Keeps :
      (c target : ℕ) → Keeps (schedule_if_preempted_by hal c target)
  unfolding schedule_if_preempted_by
  schedule_if_preempted_by-Keeps c target = >>=-Keeps current_process-Keeps (λ current.
      reading-Keeps _ (λ k.
        if_operation-Keeps (leb_ℤ (k.procs.priority target) (k.procs.priority current))
          (return-Keeps tt)
          (>>-Keeps (requeue_current-Keeps c current) (schedule_and_switch_here-Keeps c))))
