-- ===== src/Scheduler/Add.antt =====
-- `scheduler::add_process`: the end of a queue and the rise of the bound.
use a9n.Base.{
  ℕ, ◌<◌, ◌≤◌, ◌≡◌, ◌≢◌, refl, sym, ap, ◌∙◌, true, false, Option, none, some, List, [], ◌∷◌, ◌++◌,
  arith, ◌==◌, ==_iff, elem, append-Distinct, write, write_self, write-eq, write-ne, some_inj,
  elem-push, elem-push_self, elem-push_old, ==_refl, ==_false, ltb→lt, Bool-cases, inl, inr, subst,
}
use a9n.Base.Int.{ℤ, pos, ltb_ℤ}
use a9n.Base.Result.{ok, err}
use native.Mathlib.Decide.{ℕ_discrete}
use a9n.Dll.{back, Seg-push, back-none-elem, elem-apart, front-push, back-push, back-some}
use a9n.Process.{Processes, ProcessStatus}
use a9n.Scheduler.{
  State, priority_max, ProcessQueue, raise, set_highest, append_first, append_behind, append_tail,
  add_process, queue_index, process_already_exists_in_queue,
}
use a9n.Scheduler.Queues.{
  Ready, Holds, IsPlaced, Bound, Represents, Holds-frame, not-elem_of_priority, not-elem_of_flag,
  SameProcess,
}

-- A process that may be added to queue `i`.
pub record IsAddable (procs : Processes) (i p : ℕ) : Type 0 where
  pub executable : procs.status p ≡ ProcessStatus.ready
  pub priority : procs.priority p ≡ pos i
  pub unflagged : procs.is_in_ready_queue p ≡ false
  pub next_clear : procs.next p ≡ none
  pub preview_clear : procs.preview p ≡ none

module _ (s : State) (i p : ℕ) (new : IsAddable s.procs i p) where
  append_first-Holds : Holds (append_first s i p).procs ((append_first s i p).queue i) i (p ∷ [])
  unfolding append_first
  append_first-Holds = record {
    head = ground arith;
    tail = ground arith;
    links = (ground (arith, new.preview_clear), ground (arith, new.next_clear), tt);
    distinct = (refl, tt);
    queued = λ q m. record {
      priority = ground (arith, new.priority);
      flagged = ground arith;
      executable = ground (arith, new.executable);
    };
  }

  append_behind-Holds :
      (xs : List ℕ) (t : ℕ)
      → Holds s.procs (s.queue i) i xs
      → back none xs ≡ some t
      → elem t xs ≡ true
      → elem p xs ≡ false
      → Holds (append_behind s i t p).procs ((append_behind s i t p).queue i) i (xs ++ p ∷ [])
  unfolding append_behind
  append_behind-Holds xs t h last inside out = record {
    head =
        ap (λ (a : ProcessQueue). a.head) (write_self s.queue i _)
        ∙ h.head
        ∙ sym (front-push xs t p inside);
    tail = ap (λ (a : ProcessQueue). a.tail) (write_self s.queue i _) ∙ sym (back-push xs p);
    links =
        Seg-push _ _ xs p h.distinct h.links
          (λ q m. write-ne s.preview p _ (elem-apart p q xs out m))
          (λ q m ne.
            write-ne (write s.next t (some p)) p none (elem-apart p q xs out m)
            ∙ write-ne s.next t (some p) (λ e. ne (last ∙ ap some e)))
          (λ q e.
            write-ne (write s.next t (some p)) p none
              (elem-apart p q xs out (back-none-elem xs q e))
            ∙ write-eq s.next t (some p) (some_inj (sym last ∙ e)))
          (write_self s.preview p _ ∙ h.tail) (write_self (write s.next t (some p)) p none);
    distinct = append-Distinct xs p h.distinct out;
    queued = λ q m. elim (elem-push q p xs m) [
      | inl old ↦ record {
        priority = (h.queued q old).priority;
        flagged =
            write-ne s.is_in_ready_queue p true (elem-apart p q xs out old)
            ∙ (h.queued q old).flagged;
        executable = (h.queued q old).executable;
      }
      | inr e ↦ record {
        priority = ap s.priority (sym e) ∙ new.priority;
        flagged = write-eq s.is_in_ready_queue p true e;
        executable = ap s.status (sym e) ∙ new.executable;
      }
    ];
  }

  -- The queue of the priority grows at its end.
  append_tail-Holds :
      (xs : List ℕ)
      → Holds s.procs (s.queue i) i xs
      → Holds (append_tail s i p).procs ((append_tail s i p).queue i) i (xs ++ p ∷ [])
  unfolding append_tail
  append_tail-Holds [] h = rw (h.head, append_tail) append_first-Holds
  append_tail-Holds (x ∷ xs) h =
      let (t, last) = back-some x xs in
      rw (h.head, h.tail, last, append_tail)
        (append_behind-Holds (x ∷ xs) t h last (back-none-elem (x ∷ xs) t last)
          (not-elem_of_flag h new.unflagged))

  -- What it leaves alone: the other queues, the bound, and the processes but `p` and the last one.
  append_tail-queue : (j : ℕ) → i ≢ j → (append_tail s i p).queue j ≡ s.queue j
  unfolding append_tail append_first append_behind
  append_tail-queue j ne = ground arith

  append_behind-same :
      (t q : ℕ) → t ≢ q → p ≢ q → SameProcess s.procs (append_behind s i t p).procs q
  unfolding append_behind
  append_behind-same t q nt np = record {
    next = write-ne (write s.next t (some p)) p none np ∙ write-ne s.next t (some p) nt;
    preview = write-ne s.preview p _ np;
    flag = write-ne s.is_in_ready_queue p true np;
    priority = refl;
    status = refl;
  }

  append_tail-same :
      (xs : List ℕ)
      → Holds s.procs (s.queue i) i xs
      → (q : ℕ) → p ≢ q
      → elem q xs ≡ false
      → SameProcess s.procs (append_tail s i p).procs q
  unfolding append_tail append_first
  append_tail-same [] h q np out =
      rw (h.head, append_tail)
        (record {
          next = refl;
          preview = refl;
          flag = write-ne s.is_in_ready_queue p true np;
          priority = refl;
          status = refl;
        })
  append_tail-same (x ∷ xs) h q np out =
      let (t, last) = back-some x xs in
      rw (h.head, h.tail, last, append_tail)
        (append_behind-same t q
          (λ e. elem-apart q t (x ∷ xs) out (back-none-elem (x ∷ xs) t last) (sym e)) np)

  append_tail-highest : (append_tail s i p).highest_priority ≡ s.highest_priority
  unfolding append_tail append_first append_behind
  append_tail-highest = ground arith

  append_tail-flag :
      (q : ℕ) → p ≢ q → (append_tail s i p).is_in_ready_queue q ≡ s.is_in_ready_queue q
  unfolding append_tail append_first append_behind
  append_tail-flag q ne = ground arith

  append_tail-flag_self : (append_tail s i p).is_in_ready_queue p ≡ true
  unfolding append_tail append_first append_behind
  append_tail-flag_self = ground arith

  append_tail-priority : (append_tail s i p).priority ≡ s.priority
  unfolding append_tail append_first append_behind
  append_tail-priority = ground arith

-- The lists with `p` at the end of list `i`.
abbrev pub enqueue : Ready → ℕ → ℕ → Ready
enqueue r i p = write r i (r i ++ p ∷ [])

elem-enqueue : (r : Ready) (i p j q : ℕ) → elem q (r j) ≡ true → elem q (enqueue r i p j) ≡ true
elem-enqueue r i p j q m = elim (Bool-cases (i == j)) [
  | inl e ↦
      let same : i ≡ j = (==_iff i j).0 e in
      rw e (elem-push_old q p (r i) (ap (λ (k : ℕ). elem q (r k)) same ∙ m))
  | inr ne ↦ rw ne m
]

module _ (s : State) (r : Ready) (i p : ℕ) (range : i < priority_max) (new : IsAddable s.procs i p)
    (old : Represents s r) where
  append_tail-IsPlaced : (q : ℕ) → IsPlaced (append_tail s i p).procs (enqueue r i p) q
  append_tail-IsPlaced q = elim (ℕ_discrete p q) [
    | yes e ↦ record {
      unlinked = λ h. absurd (
          ground
            (arith, append_tail-flag_self s i p new, ap (append_tail s i p).is_in_ready_queue e));
      listed = λ h.
          let prio : (append_tail s i p).priority q ≡ pos i =
            ap (λ (f : ℕ → ℤ). f q) (append_tail-priority s i p new)
            ∙ ap s.priority (sym e)
            ∙ new.priority in
          rw prio (
            range,
            rw ==_refl (ap (λ (k : ℕ). elem k (r i ++ p ∷ [])) (sym e) ∙ elem-push_self p (r i)),
          );
    }
    | no ne ↦ record {
      unlinked = λ h.
          let flag = sym (append_tail-flag s i p new q ne) ∙ h in
          let o = (old.placed q).unlinked flag in
          let same =
            append_tail-same s i p new (r i) (old.queues i range) q ne
              (not-elem_of_flag (old.queues i range) flag) in
          (same.next ∙ o.0, same.preview ∙ o.1);
      listed = λ h.
          let o = (old.placed q).listed (sym (append_tail-flag s i p new q ne) ∙ h) in
          rw (append_tail-priority s i p new) (o.0, elem-enqueue r i p _ q o.1);
    }
  ]

  append_tail-queues :
      (j : ℕ)
      → j < priority_max
      → Holds (append_tail s i p).procs ((append_tail s i p).queue j) j (enqueue r i p j)
  append_tail-queues j h = elim (ℕ_discrete i j) [
    | yes e ↦
        subst
          (λ (k : ℕ).
            Holds (append_tail s i p).procs ((append_tail s i p).queue k) k (enqueue r i p k))
          e (rw ==_refl (append_tail-Holds s i p new (r i) (old.queues i range)))
    | no ne ↦ rw (==_false i j ne) (
        Holds-frame (old.queues j h) (append_tail-queue s i p new j ne) (λ q m.
          append_tail-same s i p new (r i) (old.queues i range) q
            (elem-apart p q (r j) (not-elem_of_flag (old.queues j h) new.unflagged) m)
            (not-elem_of_priority (old.queues i range) ((old.queues j h).queued q m).priority
              (λ e. ne (sym e)))))
  ]

  -- With a bound that covers queue `i`.
  append_tail-Represents :
      (h : ℕ) → i ≤ h → Bound s r h → Represents (append_tail s i p) (enqueue r i p)
  append_tail-Represents h le b = record {
    queues = append_tail-queues;
    placed = append_tail-IsPlaced;
    top = h;
    bound = record {
      highest = append_tail-highest s i p new ∙ b.highest;
      in_range = b.in_range;
      above = λ j lt max. rw (==_false i j (λ e. omega arith)) (b.above j lt max);
    };
  }

-- The bound, once it covers queue `i`.
raise-Represents :
    (s : State) (r : Ready) (i : ℕ)
    → i < priority_max
    → Represents s r
    → (h : ℕ) × (i ≤ h)
      × Bound (raise s i) r h
      × Represents (raise s i) r
      × ((raise s i).procs ≡ s.procs)
raise-Represents s r i range old = elim (Bool-cases (ltb_ℤ s.highest_priority (pos i))) [
  | inl lt ↦
      let below : old.top < i = ltb→lt _ _ (ground (arith, lt, old.bound.highest)) in
      let b : Bound (set_highest s (pos i)) r i = record {
        highest = refl;
        in_range = range;
        above = λ j h max. old.bound.above j (omega arith) max;
      } in
      rw lt (
        i,
        omega arith,
        b,
        record { queues = old.queues; placed = old.placed; top = i; bound = b },
        refl,
      )
  | inr ge ↦
      let above : i ≤ old.top = ground (arith, ge, old.bound.highest) in
      rw ge (old.top, above, old.bound, old, refl)
]

pub queue_index_of_lt : (i : ℕ) → i < priority_max → queue_index (pos i) ≡ some i
queue_index_of_lt i h = ground arith

-- The accepted call.
add_process-eq :
    (s : State) (i p : ℕ)
    → i < priority_max
    → IsAddable s.procs i p
    → add_process s (some p) ≡ (ok tt, append_tail (raise s i) i p)
unfolding add_process
add_process-eq s i p range new = rw (
  new.executable,
  new.priority,
  queue_index_of_lt i range,
  new.unflagged,
  new.next_clear,
  new.preview_clear,
)

append_tail-raise-Represents :
    (s : State) (r : Ready) (i p : ℕ)
    → Represents s r
    → i < priority_max
    → IsAddable s.procs i p
    → Represents (append_tail (raise s i) i p) (enqueue r i p)
append_tail-raise-Represents s r i p old range new =
    let (h, le, b, raised, same) = raise-Represents s r i range old in
    append_tail-Represents (raise s i) r i p range
      (subst (λ (m : Processes). IsAddable m i p) (sym same) new) raised h le b

-- A ready process outside the queues, of a priority in range, is accepted, and waits last in the
-- queue of its priority; every other queue stays as it was.
pub add_process-Represents :
    (s : State) (r : Ready) (i p : ℕ)
    → Represents s r
    → i < priority_max
    → IsAddable s.procs i p
    → ((add_process s (some p)).0 ≡ ok tt) × Represents (add_process s (some p)).1 (enqueue r i p)
add_process-Represents s r i p old range new =
    rw (add_process-eq s i p range new) (refl, append_tail-raise-Represents s r i p old range new)

-- A process outside the queues has the clear links that `add_process` asks for.
pub unflagged-IsAddable :
    {s : State} {r : Ready} {i p : ℕ}
    → Represents s r
    → s.status p ≡ ProcessStatus.ready
    → s.priority p ≡ pos i
    → s.is_in_ready_queue p ≡ false
    → IsAddable s.procs i p
unflagged-IsAddable {p} old executable priority unflagged =
    let clear = (old.placed p).unlinked unflagged in
    record {
      executable = executable;
      priority = priority;
      unflagged = unflagged;
      next_clear = clear.0;
      preview_clear = clear.1;
    }

-- A refused call leaves the scheduler and the processes as they were.
pub add_process-refused :
    (s : State) (p : Option ℕ) → (add_process s p).0 ≢ ok tt → (add_process s p).1 ≡ s
unfolding add_process
add_process-refused s none h = refl
add_process-refused s (some p) h = ground arith

-- Of a process that is queued the call says so.
pub add_process-queued :
    (s : State) (r : Ready) (i p : ℕ)
    → Represents s r
    → i < priority_max
    → elem p (r i) ≡ true
    → add_process s (some p) ≡ (err process_already_exists_in_queue, s)
unfolding add_process
add_process-queued s r i p rep range m =
    let q = (rep.queues i range).queued p m in
    rw (q.executable, q.priority, queue_index_of_lt i range, q.flagged)
