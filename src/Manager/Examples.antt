-- ===== src/Manager/Examples.antt =====
-- Process 0 runs at priority 4, where the processes 1 and 2 wait.
use a9n.Base.{
  ℕ, ◌≡◌, ◌<◌, refl, ap, subst, ◌∙◌, true, false, some, [], ◌∷◌, elem, write, arith, Bool-cases,
  inl, inr,
}
use a9n.Base.Int.{ℤ, pos, pos_part}
use a9n.Base.Result.{ok}
use a9n.Fixture.{plain_hal, kernel, processes}
use a9n.Kernel.{Kernel}
use a9n.Manager.{yield}
use a9n.Manager.Fair.{yields, yields-Runs}
use a9n.Manager.Turns.{Runs, Turn, yield-Turn}
use a9n.Process.{Processes}
use a9n.Scheduler.{State, add_process}
use a9n.Scheduler.Add.{enqueue, unflagged-IsAddable, add_process-Represents}
use a9n.Scheduler.Frame.{unlinked, add_process-Apart}
use a9n.Scheduler.Queues.{Ready, Represents}
use a9n.Scheduler.Runs.{start, initial-Represents}

abbrev nobody : Ready
nobody = λ _. []

empty-Represents : Represents (start processes) nobody
empty-Represents = initial-Represents processes (λ p. (refl, refl, refl))

-- A process that is in no list carries no flag.
unlisted :
    (s : State) (r : Ready) (p : ℕ)
    → Represents s r
    → s.priority p ≡ pos 4
    → elem p (r 4) ≡ false
    → s.is_in_ready_queue p ≡ false
unlisted s r p old priority out = elim (Bool-cases (s.is_in_ready_queue p)) [
  | inl flagged ↦
      let listed =
        subst (λ (z : ℤ). elem p (r (pos_part z)) ≡ true) priority
          ((old.placed p).listed flagged).1 in
      absurd (ground arith)
  | inr unflagged ↦ unflagged
]

abbrev one : State
one = (add_process (start processes) (some 1)).1

one-Represents : Represents one (enqueue nobody 4 1)
one-Represents =
    (add_process-Represents (start processes) nobody 4 1 empty-Represents (omega arith)
      (unflagged-IsAddable empty-Represents refl refl refl)).1

one-kept : unlinked (one.procs) ≡ unlinked processes
one-kept = add_process-Apart (start processes) 1

abbrev two : State
two = (add_process one (some 2)).1

abbrev lists : Ready
lists = enqueue (enqueue nobody 4 1) 4 2

one-priority : one.priority ≡ processes.priority
one-priority = ap (λ (m : Processes). m.priority) one-kept

two-Represents : Represents two lists
two-Represents =
    (add_process-Represents one (enqueue nobody 4 1) 4 2 one-Represents (omega arith) (
      unflagged-IsAddable one-Represents (ap (λ (m : Processes). m.status 2) one-kept)
        (ap (λ (f : ℕ → ℤ). f 2) one-priority)
        (unlisted one (enqueue nobody 4 1) 2 one-Represents (ap (λ (f : ℕ → ℤ). f 2) one-priority)
          refl))).1

two-priority : (p : ℕ) → two.priority p ≡ pos 4
two-priority p =
    ap (λ (m : Processes). m.priority p) (add_process-Apart one 2)
    ∙ ap (λ (f : ℕ → ℤ). f p) one-priority

abbrev running : Kernel
running = record kernel {
  procs = two.procs;
  cpus = λ _. record (kernel.cpus 0) { scheduler = two.core };
}

runs : Runs plain_hal 0
runs = record { core = refl; switches = λ previous next r. refl }

above : (j : ℕ) → 4 < j → lists j ≡ []
above j lt = ground arith

turn : Turn 0 4 0 lists running
turn = record {
  represents = two-Represents;
  current = refl;
  range = omega arith;
  top = λ j lt max. above j lt;
  priority = two-priority 0;
  unflagged = unlisted two lists 0 two-Represents (two-priority 0) refl;
  not_idle = λ e. absurd (ground arith);
  idle_unflagged = unlisted two lists 9 two-Represents (two-priority 9) refl;
}

yield-Turn_example :
    ((yield plain_hal 0 running).0 ≡ ok tt)
    × Turn 0 4 1 (write lists 4 (2 ∷ 0 ∷ [])) (yield plain_hal 0 running).1
yield-Turn_example = yield-Turn plain_hal 0 4 0 1 (2 ∷ []) lists running runs turn refl

yields-Runs_example :
    ((yields plain_hal 0 2 running).0 ≡ ok tt)
    × (((yields plain_hal 0 2 running).1.cpus 0).current_process ≡ some 2)
yields-Runs_example = yields-Runs plain_hal 0 4 0 2 (1 ∷ []) [] lists running runs turn refl
