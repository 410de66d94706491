-- ===== src/Manager/Turns.antt =====
-- The turns that the processes of one priority take on a core, by `process_manager::yield`.
use a9n.Base.{
  ℕ, ◌≡◌, ◌≢◌, ◌<◌, refl, sym, ap, subst, ◌∙◌, true, false, some, ◌==◌, ==_false, ==_iff, write,
  write_self, arith, List, [], ◌∷◌, ◌++◌, elem, fun_ext, elem-here, elem-push, elem-later,
  Bool-cases, inl, inr, ltb, ltb→lt,
}
use a9n.Base.Int.{ℤ, pos}
use a9n.Base.Result.{Result, ok, err, KernelError}
use native.Mathlib.Decide.{ℕ_discrete}
use a9n.Hal.{Hal, HalError, Registers}
use a9n.Kernel.{Kernel, Cpu, bind, store_registers, set_registers}
use a9n.Manager.{
  view, put_view, set_quantum, mark_scheduled, set_current, address, dispatch, schedule_and_switch,
  schedule_and_switch_here, yield, schedule_error, fall_back,
}
use a9n.Manager.Mark.{put_view-view, mark_scheduled-eq, added, readied, added-ok, added-kept}
use a9n.Process.{Processes, quantum_max}
use a9n.Scheduler.{State, SchedulerError, Scheduler, schedule, priority_max}
use a9n.Scheduler.Add.{enqueue}
use a9n.Scheduler.Changes.{changes-Represents}
use a9n.Scheduler.Frame.{unlinked, schedule-Apart}
use a9n.Scheduler.Queues.{Ready, Represents}
use a9n.Scheduler.Schedule.{Scheduled, schedule-Scheduled}

-- The hardware layer on core `c`, where every switch succeeds.
pub record Runs (hal : Hal) (c : ℕ) : Type 0 where
  pub core : hal.current_cpu ≡ ok c
  pub switches :
      (previous next : ℕ) (r : Registers) → (hal.switch_context previous next r).0 ≡ ok tt

-- `p` runs on core `c` at priority `i`, in no queue, and nothing above waits; IDLE is in no queue.
pub record Turn (c i p : ℕ) (r : Ready) (k : Kernel) : Type 0 where
  pub represents : Represents (view k c) r
  pub current : (k.cpus c).current_process ≡ some p
  pub range : i < priority_max
  pub top : (j : ℕ) → i < j → j < priority_max → r j ≡ []
  pub priority : k.procs.priority p ≡ pos i
  pub unflagged : k.procs.is_in_ready_queue p ≡ false
  pub not_idle : p ≢ (k.cpus c).idle_process
  pub idle_unflagged : k.procs.is_in_ready_queue (k.cpus c).idle_process ≡ false

stored-ok :
    (out : Result (Unit {0}) HalError × Registers) (k : Kernel)
    → out.0 ≡ ok tt
    → store_registers out k ≡ (ok tt, set_registers out.1 k)
stored-ok (ok _, r) k e = refl
stored-ok (err x, r) k e = absurd (ground arith)

module _ (hal : Hal) (c : ℕ) (runs : Runs hal c) where
  -- The switch to `q` after the scheduler's part `s`.
  abbrev switched : State → ℕ → Kernel → Kernel
  switched s q k =
      let k1 = put_view s c k in
      set_registers
        (hal.switch_context (address (k1.cpus c).current_process) q (s.procs.registers)).1
        (set_current c (some q) false k1)

  dispatch-eq :
      (s : State) (q : ℕ) (k : Kernel) → dispatch hal c q (put_view s c k) ≡ (ok tt, switched s q k)
  unfolding dispatch
  dispatch-eq s q k =
      let k1 = put_view s c k in
      let previous = address (k1.cpus c).current_process in
      stored-ok (hal.switch_context previous q (s.procs.registers))
        (set_current c (some q) false k1) (runs.switches previous q (s.procs.registers))

  schedule_and_switch-eq :
      (s : State) (q : ℕ) (k : Kernel)
      → schedule (view k c) ≡ (ok q, s)
      → schedule_and_switch_here hal c k ≡ (ok tt, switched s q k)
  unfolding schedule_and_switch_here schedule_and_switch schedule_error fall_back
  schedule_and_switch-eq s q k e = rw (runs.core, e, dispatch-eq s q k) refl

  yield-eq :
      (p : ℕ) (k : Kernel)
      → (k.cpus c).current_process ≡ some p
      → yield hal c k
        ≡ bind
            (mark_scheduled c p (set_quantum p (pos quantum_max) k))
            (λ _. schedule_and_switch_here hal c)
  unfolding yield
  yield-eq p k e = rw (runs.core, e) refl

cons_inj : {a b : ℕ} {xs ys : List ℕ} → a ∷ xs ≡ b ∷ ys → (a ≡ b) × (xs ≡ ys)
cons_inj e = (cc, cc)

-- The dispatch at priority `i`, where a process waits there and none above.
dispatched :
    (s : State) (r : Ready) (i q : ℕ) (ys : List ℕ) (out : Result ℕ SchedulerError × State)
    → Scheduled s r out
    → i < priority_max
    → r i ≡ q ∷ ys
    → ((j : ℕ) → i < j → j < priority_max → r j ≡ [])
    → (s' : State) × (out ≡ (ok q, s'))
      × Represents s' (write r i ys)
      × (s'.is_in_ready_queue q ≡ false)
dispatched s r i q ys out (Scheduled.idles none') range first top =
    absurd (ground (arith, none' i range, first))
dispatched s r i q ys out (Scheduled.dispatches j p xs {s'} range' first' top' rep flag) range first
      top =
    elim (ℕ_discrete i j) [
      | no ne ↦ absurd (elim (Bool-cases (ltb i j)) [
        | inl lt ↦ ground (arith, top j (ltb→lt i j lt) range', first')
        | inr ge ↦
            let below : j < i = ground (arith, ne, ge) in ground (arith, top' i below range, first)
      ])
      | yes same ↦
          let (head, tail) = cons_inj (sym first' ∙ ap r (sym same) ∙ first) in
          (
            s',
            ap (λ (x : ℕ). (ok x, s')) head,
            subst (λ (l : List ℕ). Represents s' (write r i l)) tail
                (subst (λ (n : ℕ). Represents s' (write r n xs)) (sym same) rep),
            ap s'.is_in_ready_queue (sym head) ∙ flag,
          )
    ]

-- The lists after a turn: `p` has gone to the end and the first has left.
turned :
    (r : Ready) (i p q : ℕ) (xs : List ℕ)
    → r i ≡ q ∷ xs
    → write (enqueue r i p) i (xs ++ p ∷ []) ≡ write r i (xs ++ p ∷ [])
turned r i p q xs e =
    fun_ext (λ j. elim (Bool-cases (i == j)) [ inl same ↦ rw same refl | inr ne ↦ rw ne refl ])

-- Who waits after a turn waited before it, or is `p`.
turned-elem :
    (r : Ready) (i p q x : ℕ) (xs : List ℕ) (j : ℕ)
    → r i ≡ q ∷ xs
    → p ≢ x
    → elem x (write r i (xs ++ p ∷ []) j) ≡ true
    → elem x (r j) ≡ true
turned-elem r i p q x xs j e ne = elim (ℕ_discrete i j) [
  | yes same ↦ rw ((==_iff i j).1 same) (λ m. elim (elem-push x p xs m) [
    | inl old ↦ ap (λ (l : List ℕ). elem x l) (ap r (sym same) ∙ e) ∙ elem-later x q xs old
    | inr is ↦ absurd (ne is)
  ])
  | no off ↦ rw (==_false i j off) (λ m. m)
]

module _ (hal : Hal) (c i p q : ℕ) (xs : List ℕ) (r : Ready) (k : Kernel) (runs : Runs hal c)
    (turn : Turn c i p r k) (first : r i ≡ q ∷ xs) where
  abbrev start : Kernel
  start = set_quantum p (pos quantum_max) k

  start-Represents : Represents (view start c) r
  start-Represents =
      changes-Represents (view k c) (start.procs) r refl refl refl (λ x flagged. (refl, refl))
        turn.represents

  abbrev marked : Kernel
  marked = put_view (added c p start).1 c (readied p start)

  abbrev lists : Ready
  lists = enqueue r i p

  marked-Represents : Represents (view marked c) lists
  marked-Represents =
      subst (λ (s : State). Represents s lists)
        (sym (put_view-view (added c p start).1 c (readied p start)))
        (added-ok c i p r start start-Represents turn.range turn.not_idle turn.priority
          turn.unflagged).1

  yield-marked : yield hal c k ≡ schedule_and_switch_here hal c marked
  yield-marked =
      yield-eq hal c runs p k turn.current
      ∙ ap
          (λ (out : Result (Unit {0}) KernelError × Kernel).
            bind out (λ _. schedule_and_switch_here hal c))
          (mark_scheduled-eq c i p r start start-Represents turn.range turn.not_idle turn.priority
            turn.unflagged)

  lists-first : lists i ≡ q ∷ (xs ++ p ∷ [])
  lists-first = write_self r i _ ∙ ap (λ (l : List ℕ). l ++ p ∷ []) first

  lists-top : (j : ℕ) → i < j → j < priority_max → lists j ≡ []
  lists-top j lt max = rw (==_false i j (λ e. omega arith)) (turn.top j lt max)

  abbrev NextTurn : Type 0
  NextTurn =
      (s : State) × (schedule (view marked c) ≡ (ok q, s))
      × Represents s (write lists i (xs ++ p ∷ []))
      × (s.is_in_ready_queue q ≡ false)

  dispatch-found : NextTurn
  dispatch-found =
      dispatched (view marked c) lists i q (xs ++ p ∷ []) (schedule (view marked c))
        (schedule-Scheduled (view marked c) lists marked-Represents) turn.range lists-first
        lists-top

  abbrev after : Kernel
  after = switched hal c runs dispatch-found.0 q marked

  yield-switched : yield hal c k ≡ (ok tt, after)
  yield-switched =
      yield-marked ∙ schedule_and_switch-eq hal c runs dispatch-found.0 q marked dispatch-found.1

  abbrev lists' : Ready
  lists' = write r i (xs ++ p ∷ [])

  found-Represents : Represents (dispatch-found.0) lists'
  found-Represents =
      subst (λ (f : Ready). Represents (dispatch-found.0) f) (turned r i p q xs first)
        dispatch-found.2

  after-core : ((after.cpus c).scheduler ≡ dispatch-found.0.core)
  after-core =
      ap (λ (a : Cpu). a.scheduler) (write_self ((put_view (dispatch-found.0) c marked).cpus) c _)
      ∙ ap (λ (a : Cpu). a.scheduler) (write_self (marked.cpus) c _)

  after-Represents : Represents (view after c) lists'
  after-Represents =
      subst (λ (core : Scheduler). Represents (record { procs = after.procs; core = core }) lists')
        (sym after-core)
        (changes-Represents (dispatch-found.0) (after.procs) lists' refl refl refl
          (λ x flagged. (refl, refl)) found-Represents)

  after-current : (after.cpus c).current_process ≡ some q
  after-current =
      ap (λ (a : Cpu). a.current_process)
        (write_self ((put_view (dispatch-found.0) c marked).cpus) c _)

  after-idle : (after.cpus c).idle_process ≡ (k.cpus c).idle_process
  after-idle =
      ap (λ (a : Cpu). a.idle_process)
        (write_self ((put_view (dispatch-found.0) c marked).cpus) c _)
      ∙ ap (λ (a : Cpu). a.idle_process) (write_self (marked.cpus) c _)
      ∙ ap (λ (a : Cpu). a.idle_process) (write_self (k.cpus) c _)

  q-waits : elem q (r i) ≡ true
  q-waits = ap (λ (l : List ℕ). elem q l) first ∙ elem-here q xs

  q-flagged : k.procs.is_in_ready_queue q ≡ true
  q-flagged = ((turn.represents.queues i turn.range).queued q q-waits).flagged

  kept : unlinked (dispatch-found.0.procs) ≡ unlinked (marked.procs)
  kept =
      subst
        (λ (out : Result ℕ SchedulerError × State).
          unlinked (out.1.procs) ≡ unlinked (marked.procs))
        dispatch-found.1 (schedule-Apart (view marked c))

  after-priority : after.procs.priority ≡ k.procs.priority
  after-priority =
      ap (λ (m : Processes). m.priority) kept
      ∙ ap (λ (m : Processes). m.priority)
          (added-kept c i p r start start-Represents turn.range turn.not_idle turn.priority
            turn.unflagged)

  idle-waits :
      (j : ℕ) → j < priority_max → elem (k.cpus c).idle_process (lists' j) ≡ true → false ≡ true
  idle-waits j max m =
      let idle = (k.cpus c).idle_process in
      let old = turned-elem r i p q idle xs j first turn.not_idle m in
      sym turn.idle_unflagged ∙ ((turn.represents.queues j max).queued idle old).flagged

  after-idle_unflagged : after.procs.is_in_ready_queue (after.cpus c).idle_process ≡ false
  after-idle_unflagged =
      rw after-idle (elim (Bool-cases (after.procs.is_in_ready_queue (k.cpus c).idle_process)) [
        | inl flagged ↦
            let at = (found-Represents.placed (k.cpus c).idle_process).listed flagged in
            let no_way = idle-waits _ at.0 at.1 in absurd (ground arith)
        | inr out ↦ out
      ])

  -- With the ready queues of the core in order, where a process waits at the running priority and none
  -- above it, the hardware layer names the core and every context switch of it succeeds, the running process is not IDLE, and neither it nor IDLE is in a ready
  -- queue: a yield succeeds, the first process that waits at the running priority runs then, the one
  -- that yielded waits last there, the queues are in order, and the same conditions hold again.
  pub yield-Turn :
      ((yield hal c k).0 ≡ ok tt) × Turn c i q (write r i (xs ++ p ∷ [])) (yield hal c k).1
  yield-Turn = rw yield-switched (
    refl,
    record {
      represents = after-Represents;
      current = after-current;
      range = turn.range;
      top = λ j lt max. rw (==_false i j (λ e. omega arith)) (turn.top j lt max);
      priority =
          ap (λ (f : ℕ → ℤ). f q) after-priority
          ∙ ((turn.represents.queues i turn.range).queued q q-waits).priority;
      unflagged = dispatch-found.3;
      not_idle = λ e. absurd (
          ground (
            arith,
            q-flagged,
            turn.idle_unflagged,
            ap (k.procs.is_in_ready_queue) (e ∙ after-idle),
          ));
      idle_unflagged = after-idle_unflagged;
    },
  )
