-- ===== src/Scheduler/Schedule.antt =====
-- `scheduler::schedule`: the search for a queue that is not empty and the removal of its head.
use a9n.Base.{
  ℕ, zero, suc, ◌<◌, ◌≤◌, ◌≡◌, ◌≢◌, sym, ap, ◌∙◌, true, false, Option, none, some, List, [], ◌∷◌,
  arith, ◌==◌, ==_iff, ==_refl, ==_false, elem, write, write_self, write-eq, write-ne, Bool-cases,
  inl, inr, subst, elem-here, elem-later, List-cases, elem-tail,
}
use a9n.Base.Int.{ℤ, pos, pos-inj}
use a9n.Base.Result.{ok, err}
use native.Mathlib.Decide.{ℕ_discrete}
use a9n.Dll.{front, back, Seg-pop, elem-apart, front-elem}
use a9n.Process.{ProcessStatus}
use a9n.Scheduler.{
  State, priority_max, take_head, schedule_from, schedule, Outcome, process_not_in_queue,
}
use a9n.Scheduler.Queues.{
  Ready, IsQueued, Holds, IsPlaced, Represents, Holds-frame, not-elem_of_priority, SameProcess,
}

module _ (s : State) (i p : ℕ) where
  -- `next` and `preview` after the call, and the fields that other queues read.
  take_head-flag :
      (q : ℕ) → (take_head s i p).is_in_ready_queue q ≡ write s.is_in_ready_queue p false q
  unfolding take_head
  take_head-flag q = ground arith

  take_head-priority : (take_head s i p).priority ≡ s.priority
  unfolding take_head
  take_head-priority = ground arith

  take_head-status : (take_head s i p).status ≡ s.status
  unfolding take_head
  take_head-status = ground arith

  take_head-next : (take_head s i p).next ≡ write s.next p none
  unfolding take_head
  take_head-next = ground arith

  take_head-highest : (take_head s i p).highest_priority ≡ s.priority p
  unfolding take_head
  take_head-highest = ground arith

  take_head-queue : (j : ℕ) → i ≢ j → (take_head s i p).queue j ≡ s.queue j
  unfolding take_head
  take_head-queue j ne = ground arith

  take_head-head : ((take_head s i p).queue i).head ≡ s.next p
  unfolding take_head
  take_head-head = ground arith

  -- The queue's tail and the links backwards, by what follows `p`.
  take_head-last : s.next p ≡ none → ((take_head s i p).queue i).tail ≡ none
  unfolding take_head
  take_head-last e = rw (e, take_head) (ground arith)

  take_head-tail : (q : ℕ) → s.next p ≡ some q → ((take_head s i p).queue i).tail ≡ (s.queue i).tail
  unfolding take_head
  take_head-tail q e = rw (e, take_head) (ground arith)

  take_head-preview :
      (q : ℕ) → p ≢ q → s.next p ≢ some q → (take_head s i p).preview q ≡ s.preview q
  unfolding take_head
  take_head-preview q ne off = ground arith

  take_head-preview_next : (q : ℕ) → s.next p ≡ some q → (take_head s i p).preview q ≡ none
  unfolding take_head
  take_head-preview_next q e = rw (e, take_head) (ground arith)

  take_head-preview_self : (take_head s i p).preview p ≡ none
  unfolding take_head
  take_head-preview_self = ground arith

  take_head-same :
      (q : ℕ) → p ≢ q → s.next p ≢ some q → SameProcess s.procs (take_head s i p).procs q
  take_head-same q ne off = record {
    next = ap (λ (f : ℕ → Option ℕ). f q) take_head-next ∙ write-ne s.next p none ne;
    preview = take_head-preview q ne off;
    flag = take_head-flag q ∙ write-ne s.is_in_ready_queue p false ne;
    priority = ap (λ (f : ℕ → ℤ). f q) take_head-priority;
    status = ap (λ (f : ℕ → ProcessStatus). f q) take_head-status;
  }

  take_head-tail_of :
      (xs : List ℕ)
      → s.next p ≡ front xs none
      → (s.queue i).tail ≡ back (some p) xs
      → ((take_head s i p).queue i).tail ≡ back none xs
  take_head-tail_of [] e t = take_head-last e
  take_head-tail_of (x ∷ xs) e t = take_head-tail x e ∙ t

  take_head-Holds :
      (xs : List ℕ)
      → Holds s.procs (s.queue i) i (p ∷ xs)
      → Holds (take_head s i p).procs ((take_head s i p).queue i) i xs
  take_head-Holds xs h =
      let out = h.distinct.0 in
      let link = h.links.1 in
      record {
        head = take_head-head ∙ link;
        tail = take_head-tail_of xs link h.tail;
        links =
            Seg-pop (take_head s i p).next (take_head s i p).preview p xs h.distinct h.links
              (λ q m ne. take_head-preview q (elem-apart p q xs out m) (λ e. ne (sym link ∙ e)))
              (λ q m.
                ap (λ (f : ℕ → Option ℕ). f q) take_head-next
                ∙ write-ne s.next p none (elem-apart p q xs out m))
              (λ q e. take_head-preview_next q (link ∙ e));
        distinct = h.distinct.1;
        queued = λ q m.
            let old = h.queued q (elem-later q p xs m) in
            record {
              priority = ap (λ (f : ℕ → ℤ). f q) take_head-priority ∙ old.priority;
              flagged =
                  take_head-flag q
                  ∙ write-ne s.is_in_ready_queue p false (elem-apart p q xs out m)
                  ∙ old.flagged;
              executable = ap (λ (f : ℕ → ProcessStatus). f q) take_head-status ∙ old.executable;
            };
      }

module _ (s : State) (r : Ready) (i p : ℕ) (xs : List ℕ) (range : i < priority_max)
    (old : Represents s r) (front_of : r i ≡ p ∷ xs)
    (top : (j : ℕ) → i < j → j < priority_max → r j ≡ []) where
  whole : Holds s.procs (s.queue i) i (p ∷ xs)
  whole = subst (λ (l : List ℕ). Holds s.procs (s.queue i) i l) front_of (old.queues i range)

  head-IsQueued : IsQueued s.procs i p
  head-IsQueued = whole.queued p (elem-here p xs)

  follower-IsQueued : (q : ℕ) → s.next p ≡ some q → IsQueued s.procs i q
  follower-IsQueued q e =
      whole.queued q (elem-later q p xs (front-elem xs q (sym whole.links.1 ∙ e)))

  take_head-queues :
      (j : ℕ)
      → j < priority_max
      → Holds (take_head s i p).procs ((take_head s i p).queue j) j (write r i xs j)
  take_head-queues j h = elim (ℕ_discrete i j) [
    | yes e ↦
        subst
          (λ (k : ℕ). Holds (take_head s i p).procs ((take_head s i p).queue k) k (write r i xs k))
          e (rw ==_refl (take_head-Holds s i p xs whole))
    | no ne ↦ rw (==_false i j ne) (
        Holds-frame (old.queues j h) (take_head-queue s i p j ne) (λ q m.
          take_head-same s i p q
            (elem-apart p q (r j) (not-elem_of_priority (old.queues j h) head-IsQueued.priority ne)
              m)
            (λ e. absurd (
              ne (
                pos-inj (
                  sym (follower-IsQueued q e).priority
                  ∙ ((old.queues j h).queued q m).priority))))))
  ]

  elem-dequeue : (j q : ℕ) → p ≢ q → elem q (r j) ≡ true → elem q (write r i xs j) ≡ true
  elem-dequeue j q ne m = elim (Bool-cases (i == j)) [
    | inl e ↦ rw e (
        elem-tail q p xs ne
          (ap (elem q) (sym front_of) ∙ ap (λ (k : ℕ). elem q (r k)) ((==_iff i j).0 e) ∙ m))
    | inr other ↦ rw other m
  ]

  take_head-unlinked :
      (q : ℕ)
      → p ≢ q
      → s.is_in_ready_queue q ≡ false
      → SameProcess s.procs (take_head s i p).procs q
  take_head-unlinked q ne f =
      take_head-same s i p q ne (λ e. let flagged = (follower-IsQueued q e).flagged in ground arith)

  take_head-IsPlaced : (q : ℕ) → IsPlaced (take_head s i p).procs (write r i xs) q
  take_head-IsPlaced q = elim (ℕ_discrete p q) [
    | yes e ↦ record {
      unlinked = λ f. (
        ap (λ (g : ℕ → Option ℕ). g q) (take_head-next s i p) ∙ write-eq s.next p none e,
        ap (take_head s i p).preview (sym e) ∙ take_head-preview_self s i p,
      );
      listed = λ f.
          let flag = take_head-flag s i p q ∙ write-eq s.is_in_ready_queue p false e in
          absurd (ground arith);
    }
    | no ne ↦
        let same = take_head-flag s i p q ∙ write-ne s.is_in_ready_queue p false ne in
        record {
          unlinked = λ f.
              let o = (old.placed q).unlinked (sym same ∙ f) in
              let k = take_head-unlinked q ne (sym same ∙ f) in (k.next ∙ o.0, k.preview ∙ o.1);
          listed = λ f.
              let o = (old.placed q).listed (sym same ∙ f) in
              rw (take_head-priority s i p) (o.0, elem-dequeue _ q ne o.1);
        }
  ]

  take_head-Represents : Represents (take_head s i p) (write r i xs)
  take_head-Represents = record {
    queues = take_head-queues;
    placed = take_head-IsPlaced;
    top = i;
    bound = record {
      highest = take_head-highest s i p ∙ head-IsQueued.priority;
      in_range = range;
      above = λ j lt max. rw (==_false i j (λ e. omega arith)) (top j lt max);
    };
  }

-- What `schedule` may do: idle where all queues are empty, and otherwise dispatch the first process
-- of the highest queue that is not.
pub data Scheduled (s : State) (r : Ready) : Outcome ℕ → Type 0 where
  idles : ((i : ℕ) → i < priority_max → r i ≡ []) → Scheduled s r (err process_not_in_queue, s)
  dispatches :
      (i p : ℕ) (xs : List ℕ) {s' : State}
      → i < priority_max
      → r i ≡ p ∷ xs
      → ((j : ℕ) → i < j → j < priority_max → r j ≡ [])
      → Represents s' (write r i xs)
      → s'.is_in_ready_queue p ≡ false
      → Scheduled s r (ok p, s')

schedule_from-hit :
    (h : ℕ) (s : State) (p : ℕ)
    → (s.queue h).head ≡ some p
    → schedule_from h s ≡ (ok p, take_head s h p)
unfolding schedule_from
schedule_from-hit zero s p e = rw (e, schedule_from)
schedule_from-hit (suc h) s p e = rw (e, schedule_from)

schedule_from-miss :
    (h : ℕ) (s : State)
    → (s.queue (suc h)).head ≡ none
    → schedule_from (suc h) s ≡ schedule_from h s
unfolding schedule_from
schedule_from-miss h s e = rw (e, schedule_from)

schedule_from-none :
    (s : State) → (s.queue 0).head ≡ none → schedule_from 0 s ≡ (err process_not_in_queue, s)
unfolding schedule_from
schedule_from-none s e = rw (e, schedule_from)

module _ (s : State) (r : Ready) (old : Represents s r) where
  dispatch-Scheduled :
      (h : ℕ)
      → h < priority_max
      → ((j : ℕ) → h < j → j < priority_max → r j ≡ [])
      → (p : ℕ) (xs : List ℕ) → r h ≡ p ∷ xs
      → Scheduled s r (schedule_from h s)
  dispatch-Scheduled h range top p xs e =
      let head = (old.queues h range).head ∙ ap (λ (l : List ℕ). front l none) e in
      subst (Scheduled s r) (sym (schedule_from-hit h s p head)) (
        dispatches h p xs range e top (take_head-Represents s r h p xs range old e top)
          (take_head-flag s h p p ∙ write_self s.is_in_ready_queue p false))

  head-nil : (h : ℕ) → h < priority_max → r h ≡ [] → (s.queue h).head ≡ none
  head-nil h range e = (old.queues h range).head ∙ ap (λ (l : List ℕ). front l none) e

  above-nil :
      (h : ℕ)
      → r h ≡ []
      → ((j : ℕ) → h < j → j < priority_max → r j ≡ [])
      → (j : ℕ) → h ≤ j
      → j < priority_max
      → r j ≡ []
  above-nil h e top j le max = elim (ℕ_discrete h j) [
    | yes same ↦ ap r (sym same) ∙ e
    | no ne ↦ top j (omega arith) max
  ]

  schedule_from-Scheduled :
      (h : ℕ)
      → h < priority_max
      → ((j : ℕ) → h < j → j < priority_max → r j ≡ [])
      → Scheduled s r (schedule_from h s)
  schedule_from-Scheduled zero range top = elim (List-cases (r 0)) [
    | inl e ↦
        subst (Scheduled s r) (sym (schedule_from-none s (head-nil 0 range e)))
          (idles (λ j max. above-nil 0 e top j (omega arith) max))
    | inr (p, xs, e) ↦ dispatch-Scheduled 0 range top p xs e
  ]
  schedule_from-Scheduled (suc h) range top = elim (List-cases (r (suc h))) [
    | inl e ↦
        subst (Scheduled s r) (sym (schedule_from-miss h s (head-nil (suc h) range e)))
          (schedule_from-Scheduled h (omega arith) (λ j lt max. above-nil (suc h) e top j lt max))
    | inr (p, xs, e) ↦ dispatch-Scheduled (suc h) range top p xs e
  ]

schedule-eq : (s : State) (h : ℕ) → s.highest_priority ≡ pos h → schedule s ≡ schedule_from h s
unfolding schedule
schedule-eq s h e = ground arith

-- `schedule` runs the process that has waited longest at the highest priority in use, takes it out of
-- its queue and keeps the others; it reports an empty scheduler without a change.
pub schedule-Scheduled : (s : State) (r : Ready) → Represents s r → Scheduled s r (schedule s)
schedule-Scheduled s r old =
    subst (Scheduled s r) (sym (schedule-eq s old.top old.bound.highest))
      (schedule_from-Scheduled s r old old.top old.bound.in_range old.bound.above)
