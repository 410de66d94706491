-- ===== src/Scheduler/Runs.antt =====
-- The scheduler from its construction on: histories of calls.
use a9n.Base.{
  ℕ, ◌<◌, ◌≤◌, ◌≡◌, refl, sym, ap, ◌∙◌, Bool-cases, inl, inr, true, false, Option, none, some, [],
  arith, length, subst, write, some_inj, erase,
}
use a9n.Process.{Processes}
use a9n.Scheduler.{
  State, Outcome, initial, priority_max, add_process, schedule, remove_process, try_direct_schedule,
  is_ready, queue_index,
}
use a9n.Scheduler.Queues.{Ready, Represents}
use a9n.Scheduler.Changes.{changes-Represents}
use a9n.Scheduler.Add.{enqueue, queue_index_of_lt, unflagged-IsAddable, add_process-Represents}
use a9n.Scheduler.Schedule.{Scheduled, idles, dispatches, schedule-Scheduled}
use a9n.Scheduler.Direct.{
  Ranked, switches, yields, queued, blocked, Directed, absent, unranked, ranked, queue_index_cases,
  ready_of_is_ready, try_direct_schedule-Directed,
}
use a9n.Scheduler.Remove.{Removed, removes, misses, remove_process-Removed}

-- Processes in no queue, as after their construction.
abbrev pub AreFree : Processes → Type 0
AreFree m = (p : ℕ) → (m.is_in_ready_queue p ≡ false) × (m.next p ≡ none) × (m.preview p ≡ none)

abbrev pub start : Processes → State
start m = record { procs = m; core = initial }

-- A scheduler as constructed holds no process.
pub initial-Represents : (m : Processes) → AreFree m → Represents (start m) (λ _. [])
initial-Represents m free = record {
  queues = λ i h. record {
    head = refl;
    tail = refl;
    links = tt;
    distinct = tt;
    queued = λ p e. absurd (ground arith);
  };
  placed = λ p. record {
    unlinked = λ f. ((free p).1, (free p).2);
    listed = λ f. let e = (free p).0 in absurd (ground arith);
  };
  top = 31;
  bound = record { highest = refl; in_range = omega arith; above = λ i lt max. refl };
}

-- The calls of a history, each with the state that it leaves, refused ones too. Between them other
-- code may change a process that is in no queue, as long as it leaves the fields of the scheduler
-- alone; of a process in a queue the priority and the status stay.
pub data Step : State → State → Type 0 where
  adds : (s : State) (target : Option ℕ) → Step s (add_process s target).1
  schedules : (s : State) → Step s (schedule s).1
  directs : (s : State) (target : Option ℕ) → Step s (try_direct_schedule s target).1
  removes_with :
      (s s' : State) (fuel p : ℕ) (out : Outcome (Unit {0}))
      → remove_process fuel s (some p) ≡ some out
      → ((r : Ready) → Represents s r → (i : ℕ) → i < priority_max → length (r i) ≤ fuel)
      → s' ≡ out.1
      → Step s s'
  changes :
      (s : State) (m : Processes)
      → m.next ≡ s.next
      → m.preview ≡ s.preview
      → m.is_in_ready_queue ≡ s.is_in_ready_queue
      → ((p : ℕ)
          → s.is_in_ready_queue p ≡ true
          → (m.priority p ≡ s.priority p) × (m.status p ≡ s.status p))
      → Step s (record s { procs = m })

pub data Reach (s : State) : State → Type 0 where
  here : Reach s s
  onward : {t u : State} → Reach s t → Step t u → Reach s u

-- The queues hold some lists of processes, in order.
abbrev pub IsOrdered : State → Type 0
IsOrdered s = (r : Ready) × Represents s r

Scheduled-IsOrdered :
    {s : State} {r : Ready} {out : Outcome ℕ} → Represents s r → Scheduled s r out → IsOrdered out.1
Scheduled-IsOrdered {s} {r} old (idles e) = (r, old)
Scheduled-IsOrdered {s} {r} old (dispatches i p xs range e top rep clear) = (write r i xs, rep)

Removed-IsOrdered :
    {s : State} {r : Ready} {p : ℕ} {res : Option (Outcome (Unit {0}))}
    → Represents s r
    → Removed s r p res
    → (out : Outcome (Unit {0})) → res ≡ some out
    → IsOrdered out.1
Removed-IsOrdered {s} {r} {p} old (removes i {s'} range m rep clear) out e =
    subst (λ (o : Outcome (Unit {0})). IsOrdered o.1) (some_inj e) (write r i (erase p (r i)), rep)
Removed-IsOrdered {s} {r} old (misses none_has) out e =
    subst (λ (o : Outcome (Unit {0})). IsOrdered o.1) (some_inj e) (r, old)

Ranked-IsOrdered :
    {m : Processes} {r : Ready} {i p : ℕ} {out : Outcome ℕ} → Ranked m r i p out → IsOrdered out.1
Ranked-IsOrdered {r} (switches top f e rep) = (r, rep)
Ranked-IsOrdered {r} {i} {p} (yields higher new rep scheduled) = Scheduled-IsOrdered rep scheduled
Ranked-IsOrdered {r} (queued f e rep) = (r, rep)
Ranked-IsOrdered {r} (blocked higher ne e rep) = (r, rep)

Directed-IsOrdered :
    {s : State} {r : Ready} {target : Option ℕ} {out : Outcome ℕ}
    → Represents s r
    → Directed s r target out
    → IsOrdered out.1
Directed-IsOrdered {s} {r} old absent = (r, old)
Directed-IsOrdered {s} {r} old (unranked off) = (r, old)
Directed-IsOrdered old (ranked i range e done) = Ranked-IsOrdered done

-- The call accepts the process or changes nothing.
add_process-IsOrdered :
    (s : State) (target : Option ℕ) → IsOrdered s → IsOrdered (add_process s target).1
unfolding add_process
add_process-IsOrdered s none (r, old) = (r, old)
add_process-IsOrdered s (some p) (r, old) = elim (Bool-cases (is_ready (s.status p))) [
  | inr blocked_one ↦ rw blocked_one (r, old)
  | inl executable ↦ elim (queue_index_cases (s.priority p)) [
    | inr (out, off) ↦ rw (executable, out) (r, old)
    | inl (i, range, prio) ↦ elim (Bool-cases (s.is_in_ready_queue p)) [
      | inl f ↦ rw (executable, ap queue_index prio ∙ queue_index_of_lt i range, f) (r, old)
      | inr f ↦
          let ready = ready_of_is_ready (s.status p) executable in
          let new = unflagged-IsAddable old ready prio f in
          (enqueue r i p, (add_process-Represents s r i p old range new).1)
    ]
  ]
]

Step-IsOrdered : {s t : State} → Step s t → IsOrdered s → IsOrdered t
Step-IsOrdered (adds s target) old = add_process-IsOrdered s target old
Step-IsOrdered (directs s target) (r, old) =
    Directed-IsOrdered old (try_direct_schedule-Directed s r target old)
Step-IsOrdered (schedules s) (r, old) = Scheduled-IsOrdered old (schedule-Scheduled s r old)
Step-IsOrdered (removes_with s s' fuel p out e enough same) (r, old) =
    subst IsOrdered (sym same)
      (Removed-IsOrdered old (remove_process-Removed fuel s r p old (enough r old)) out e)
Step-IsOrdered (changes s m n v f keep) (r, old) = (r, changes-Represents s m r n v f keep old)

-- After any history of calls from the construction on, refused and direct ones included, with writes
-- of other code between them that leave the priority and the status of the queued processes and the
-- scheduler's fields alone, the queues are doubly linked lists of distinct ready processes, each in the queue of
-- its priority, and the cached priority bounds the queues in use.
pub Reach-IsOrdered : (m : Processes) → AreFree m → (s : State) → Reach (start m) s → IsOrdered s
Reach-IsOrdered m free s here = (λ _. [], initial-Represents m free)
Reach-IsOrdered m free s (onward r st) = Step-IsOrdered st (Reach-IsOrdered m free _ r)
