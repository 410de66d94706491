-- ===== src/Scheduler/Remove.antt =====
-- `scheduler::remove_process`: the search through the queues and the unlinking.
use a9n.Base.{
  ℕ, zero, suc, ◌+◌, ◌<◌, ◌≤◌, ◌≡◌, ◌≢◌, refl, sym, ap, ◌∙◌, true, false, Option, none, some, List,
  [], ◌∷◌, ◌++◌, arith, ◌==◌, ==_iff, ==_refl, ==_false, elem, Distinct, Distinct-append,
  elem-append, length, length-append, erase, erase-append, erase-Distinct, elem-split, write,
  write_self, write-eq, write-ne, Bool-cases, inl, inr, subst, elem-around, elem-middle, elem-other,
}
use a9n.Base.Int.{ℤ}
use a9n.Base.Result.{ok, err}
use native.Mathlib.Decide.{ℕ_discrete}
use a9n.Dll.{
  front, back, Seg, Seg-split, Seg-unlink, elem-apart, front-elem, back-none-elem, back-some,
  back-append,
}
use mathlib.Core.List.{append-nil}
use a9n.Process.{Processes, ProcessStatus}
use a9n.Scheduler.{
  State, priority_max, found, absent, walk, unlink, remove_from, remove_process, lower_highest,
  Outcome, process_not_in_queue, lower_to,
}
use a9n.Scheduler.Queues.{
  Ready, Holds, IsPlaced, Represents, Holds-frame, not-elem_of_priority, not-elem_of_flag,
  SameProcess,
}
use a9n.Scheduler.Highest.{lower-Bound, le_top}

-- The walk finds a process with the one before it, or reaches the end.
walk-found :
    (procs : Processes) (p : ℕ) (us vs : List ℕ) (before : Option ℕ) (fuel : ℕ)
    → Seg procs.next procs.preview before (us ++ p ∷ vs) none
    → elem p us ≡ false
    → length us < fuel
    → walk fuel procs p before (front (us ++ p ∷ vs) none) ≡ found (back before us)
unfolding walk
walk-found procs p us vs before zero s out enough = absurd (omega arith)
walk-found procs p [] vs before (suc fuel) s out enough = rw ==_refl
walk-found procs p (u ∷ us) vs before (suc fuel) s out enough =
    let rest = walk-found procs p us vs (some u) fuel s.2 (ground arith) (omega arith) in
    rw (s.1, rest) (ground arith)

walk-absent :
    (procs : Processes) (p : ℕ) (us : List ℕ) (before : Option ℕ) (fuel : ℕ)
    → Seg procs.next procs.preview before us none
    → elem p us ≡ false
    → length us ≤ fuel
    → walk fuel procs p before (front us none) ≡ absent
unfolding walk
walk-absent procs p [] before zero s out enough = refl
walk-absent procs p [] before (suc fuel) s out enough = refl
walk-absent procs p (u ∷ us) before zero s out enough = absurd (omega arith)
walk-absent procs p (u ∷ us) before (suc fuel) s out enough =
    let rest = walk-absent procs p us (some u) fuel s.2 (ground arith) (omega arith) in
    rw (s.1, rest) (ground arith)

module _ (s : State) (i : ℕ) (before : Option ℕ) (p : ℕ) where
  unlink-flag :
      (q : ℕ) → (unlink s i before p).is_in_ready_queue q ≡ write s.is_in_ready_queue p false q
  unfolding unlink
  unlink-flag q = ground arith

  unlink-priority : (unlink s i before p).priority ≡ s.priority
  unfolding unlink
  unlink-priority = ground arith

  unlink-status : (unlink s i before p).status ≡ s.status
  unfolding unlink
  unlink-status = ground arith

  unlink-queue : (j : ℕ) → i ≢ j → (unlink s i before p).queue j ≡ s.queue j
  unfolding unlink
  unlink-queue j ne = ground arith

  unlink-next : (q : ℕ) → p ≢ q → before ≢ some q → (unlink s i before p).next q ≡ s.next q
  unfolding unlink
  unlink-next q ne off = ground arith

  unlink-next_before : (q : ℕ) → p ≢ q → before ≡ some q → (unlink s i before p).next q ≡ s.next p
  unfolding unlink
  unlink-next_before q ne e = ground arith

  unlink-preview :
      (q : ℕ) → p ≢ q → s.next p ≢ some q → (unlink s i before p).preview q ≡ s.preview q
  unfolding unlink
  unlink-preview q ne off = ground arith

  unlink-preview_next :
      (q : ℕ) → p ≢ q → s.next p ≡ some q → (unlink s i before p).preview q ≡ before
  unfolding unlink
  unlink-preview_next q ne e = rw (e, unlink) (ground arith)

  unlink-clear : ((unlink s i before p).next p ≡ none) × ((unlink s i before p).preview p ≡ none)
  unfolding unlink
  unlink-clear = ground arith

  unlink-head : before ≡ none → ((unlink s i before p).queue i).head ≡ s.next p
  unfolding unlink
  unlink-head e = ground arith

  unlink-head_behind :
      (q : ℕ) → before ≡ some q → ((unlink s i before p).queue i).head ≡ (s.queue i).head
  unfolding unlink
  unlink-head_behind q e = ground arith

  unlink-tail : s.next p ≡ none → ((unlink s i before p).queue i).tail ≡ before
  unfolding unlink
  unlink-tail e = rw (e, unlink) (ground arith)

  unlink-tail_ahead :
      (q : ℕ) → s.next p ≡ some q → ((unlink s i before p).queue i).tail ≡ (s.queue i).tail
  unfolding unlink
  unlink-tail_ahead q e = rw (e, unlink) (ground arith)

  unlink-highest :
      (unlink s i before p).highest_priority
      ≡ lower_to (unlink s i before p).queue 0 s.highest_priority
  unfolding unlink
  unlink-highest = ground arith

  unlink-same :
      (q : ℕ)
      → p ≢ q
      → before ≢ some q
      → s.next p ≢ some q
      → SameProcess s.procs (unlink s i before p).procs q
  unlink-same q ne behind ahead = record {
    next = unlink-next q ne behind;
    preview = unlink-preview q ne ahead;
    flag = unlink-flag q ∙ write-ne s.is_in_ready_queue p false ne;
    priority = ap (λ (f : ℕ → ℤ). f q) unlink-priority;
    status = ap (λ (f : ℕ → ProcessStatus). f q) unlink-status;
  }

unlink-head_of :
    (s : State) (i p : ℕ) (us vs : List ℕ)
    → (s.queue i).head ≡ front (us ++ p ∷ vs) none
    → s.next p ≡ front vs none
    → ((unlink s i (back none us) p).queue i).head ≡ front (us ++ vs) none
unlink-head_of s i p [] vs head link = unlink-head s i none p refl ∙ link
unlink-head_of s i p (u ∷ us) vs head link =
    let (t, e) = back-some u us in unlink-head_behind s i (back (some u) us) p t e ∙ head

unlink-tail_of :
    (s : State) (i p : ℕ) (us vs : List ℕ)
    → (s.queue i).tail ≡ back none (us ++ p ∷ vs)
    → s.next p ≡ front vs none
    → ((unlink s i (back none us) p).queue i).tail ≡ back none (us ++ vs)
unlink-tail_of s i p us [] tail link =
    unlink-tail s i (back none us) p link ∙ ap (back none) (sym (append-nil us))
unlink-tail_of s i p us (v ∷ vs) tail link =
    unlink-tail_ahead s i (back none us) p v link
    ∙ tail
    ∙ back-append none us (p ∷ v ∷ vs)
    ∙ sym (back-append none us (v ∷ vs))

-- `p` stands between `us` and `vs` in queue `i`.
module _ (s : State) (i p : ℕ) (us vs : List ℕ)
    (h : Holds s.procs (s.queue i) i (us ++ p ∷ vs)) where
  parts : Distinct us × Distinct (p ∷ vs) × ((q : ℕ) → elem q us ≡ true → elem q (p ∷ vs) ≡ false)
  parts = Distinct-append us (p ∷ vs) h.distinct

  link : s.next p ≡ front vs none
  link = (Seg-split s.next s.preview none none us (p ∷ vs) h.links).1.1

  abbrev after : State
  after = unlink s i (back none us) p

  out_us : elem p us ≡ false
  out_us = elim (Bool-cases (elem p us)) [
    | inl m ↦ let e = parts.2 p m in absurd (ground arith)
    | inr out ↦ out
  ]

  apart_vs : (q : ℕ) → elem q us ≡ true → elem q vs ≡ false
  apart_vs q m = let out = parts.2 q m in ground arith

  out_rest : elem p (us ++ vs) ≡ false
  out_rest = let out = parts.1.0 in ground (arith, elem-append p us vs, out_us)

  -- A neighbour of `p` stands in the queue.
  before_inside : (q : ℕ) → back none us ≡ some q → elem q (us ++ vs) ≡ true
  before_inside q e = ground (arith, elem-append q us vs, back-none-elem us q e)

  ahead_inside : (q : ℕ) → s.next p ≡ some q → elem q (us ++ vs) ≡ true
  ahead_inside q e = ground (arith, elem-append q us vs, front-elem vs q (sym link ∙ e))

  unlink-links : Seg after.next after.preview none (us ++ vs) none
  unlink-links =
      Seg-unlink after.next after.preview us vs p parts.0 parts.1.1
        (λ q m.
          unlink-preview s i _ p q (elem-apart p q us out_us m)
            (λ e. elem-apart q q vs (apart_vs q m) (front-elem vs q (sym link ∙ e)) refl))
        (λ q m ne. unlink-next s i _ p q (elem-apart p q us out_us m) ne)
        (λ q m ne.
          unlink-preview s i _ p q (elem-apart p q vs parts.1.0 m) (λ e. ne (sym link ∙ e)))
        (λ q m.
          unlink-next s i _ p q (elem-apart p q vs parts.1.0 m)
            (λ e. elem-apart q q vs (apart_vs q (back-none-elem us q e)) m refl))
        h.links
        (λ q e.
          unlink-next_before s i _ p q (elem-apart p q us out_us (back-none-elem us q e)) e ∙ link)
        (λ q e.
          unlink-preview_next s i _ p q (elem-apart p q vs parts.1.0 (front-elem vs q e))
            (link ∙ e))

  unlink-Holds : Holds after.procs (after.queue i) i (us ++ vs)
  unlink-Holds = record {
    head = unlink-head_of s i p us vs h.head link;
    tail = unlink-tail_of s i p us vs h.tail link;
    links = unlink-links;
    distinct =
        subst Distinct (erase-append us vs p out_us) (erase-Distinct p (us ++ p ∷ vs) h.distinct);
    queued = λ q m.
        let old = h.queued q (elem-around q p us vs m) in
        record {
          priority = ap (λ (f : ℕ → ℤ). f q) (unlink-priority s i _ p) ∙ old.priority;
          flagged =
              unlink-flag s i _ p q
              ∙ write-ne s.is_in_ready_queue p false (elem-apart p q (us ++ vs) out_rest m)
              ∙ old.flagged;
          executable = ap (λ (f : ℕ → ProcessStatus). f q) (unlink-status s i _ p) ∙ old.executable;
        };
  }

module _ (s : State) (r : Ready) (i p : ℕ) (us vs : List ℕ) (range : i < priority_max)
    (old : Represents s r) (split : r i ≡ us ++ p ∷ vs) where
  around : Holds s.procs (s.queue i) i (us ++ p ∷ vs)
  around = subst (λ (l : List ℕ). Holds s.procs (s.queue i) i l) split (old.queues i range)

  abbrev removed : State
  removed = unlink s i (back none us) p

  abbrev without : Ready
  without = write r i (us ++ vs)

  -- The processes that the call writes are in queue `i`.
  removed-same : (q : ℕ) → elem q (us ++ p ∷ vs) ≡ false → SameProcess s.procs removed.procs q
  removed-same q out =
      unlink-same s i (back none us) p q
        (λ e. elem-apart q p (us ++ p ∷ vs) out (elem-middle p us vs) (sym e))
        (λ e.
          elem-apart q q (us ++ p ∷ vs) out
            (elem-around q p us vs (before_inside s i p us vs around q e)) refl)
        (λ e.
          elem-apart q q (us ++ p ∷ vs) out
            (elem-around q p us vs (ahead_inside s i p us vs around q e)) refl)

  removed-queues : (j : ℕ) → j < priority_max → Holds removed.procs (removed.queue j) j (without j)
  removed-queues j h = elim (ℕ_discrete i j) [
    | yes e ↦
        subst (λ (k : ℕ). Holds removed.procs (removed.queue k) k (without k)) e
          (rw ==_refl (unlink-Holds s i p us vs around))
    | no ne ↦ rw (==_false i j ne) (
        Holds-frame (old.queues j h) (unlink-queue s i _ p j ne) (λ q m.
          removed-same q
            (not-elem_of_priority around ((old.queues j h).queued q m).priority (λ e. ne (sym e)))))
  ]

  elem-without : (j q : ℕ) → p ≢ q → elem q (r j) ≡ true → elem q (without j) ≡ true
  elem-without j q ne m = elim (Bool-cases (i == j)) [
    | inl e ↦ rw e (
        elem-other q p us vs ne
          (ap (elem q) (sym split) ∙ ap (λ (k : ℕ). elem q (r k)) ((==_iff i j).0 e) ∙ m))
    | inr other ↦ rw other m
  ]

  removed-IsPlaced : (q : ℕ) → IsPlaced removed.procs without q
  removed-IsPlaced q = elim (ℕ_discrete p q) [
    | yes e ↦
        let clear = unlink-clear s i (back none us) p in
        let flag = unlink-flag s i (back none us) p q ∙ write-eq s.is_in_ready_queue p false e in
        record {
          unlinked = λ f. (ap removed.next (sym e) ∙ clear.0, ap removed.preview (sym e) ∙ clear.1);
          listed = λ f. absurd (ground arith);
        }
    | no ne ↦
        let flag = unlink-flag s i (back none us) p q ∙ write-ne s.is_in_ready_queue p false ne in
        record {
          unlinked = λ f.
              let o = (old.placed q).unlinked (sym flag ∙ f) in
              let same = removed-same q (not-elem_of_flag around (sym flag ∙ f)) in
              (same.next ∙ o.0, same.preview ∙ o.1);
          listed = λ f.
              let o = (old.placed q).listed (sym flag ∙ f) in
              rw (unlink-priority s i (back none us) p) (o.0, elem-without _ q ne o.1);
        }
  ]

  removed-Represents : Represents removed without
  removed-Represents = record {
    queues = removed-queues;
    placed = removed-IsPlaced;
    top = lower_highest removed.queue 0 old.top;
    bound =
        lower-Bound removed without 0 old.top removed-queues
          (unlink-highest s i (back none us) p ∙ ap (lower_to removed.queue 0) old.bound.highest)
          old.bound.in_range
          (λ j lt max.
            rw (==_false i j (λ e. let le = covered in absurd (omega arith)))
              (old.bound.above j lt max));
  }
    where
      covered : i ≤ old.top
      covered = le_top i p old.bound range (ap (elem p) split ∙ elem-middle p us vs)

-- What `remove_process` may do, given enough fuel: take the process out of the queue where it waits,
-- or report that no queue has it. It always ends.
pub data Removed (s : State) (r : Ready) (p : ℕ) : Option (Outcome (Unit {0})) → Type 0 where
  removes :
      (i : ℕ) {s' : State}
      → i < priority_max
      → elem p (r i) ≡ true
      → Represents s' (write r i (erase p (r i)))
      → s'.is_in_ready_queue p ≡ false
      → Removed s r p (some (ok tt, s'))
  misses :
      ((i : ℕ) → i < priority_max → elem p (r i) ≡ false)
      → Removed s r p (some (err process_not_in_queue, s))

module _ (fuel : ℕ) (s : State) (r : Ready) (p : ℕ) (old : Represents s r)
    (enough : (i : ℕ) → i < priority_max → length (r i) ≤ fuel) where
  remove_from-hit :
      (rounds i : ℕ)
      → i < priority_max
      → elem p (r i) ≡ true
      → Removed s r p (remove_from fuel (suc rounds) i s p)
  unfolding remove_from
  remove_from-hit rounds i range m =
      let (us, vs, split, out) = elem-split p (r i) m in
      let h = subst (λ (l : List ℕ). Holds s.procs (s.queue i) i l) split (old.queues i range) in
      let w : walk fuel s.procs p none (s.queue i).head ≡ found (back none us) =
        ap (walk fuel s.procs p none) h.head
        ∙ walk-found s.procs p us vs none fuel h.links out
            (omega (arith, enough i range, ap length split, length-append us (p ∷ vs))) in
      rw (w, remove_from)
        (removes i range m
          (rw (ap (erase p) split ∙ erase-append us vs p out)
            (removed-Represents s r i p us vs range old split))
          (unlink-flag s i (back none us) p p ∙ write_self s.is_in_ready_queue p false))

  remove_from-Removed :
      (rounds i : ℕ)
      → i + rounds ≡ priority_max
      → ((j : ℕ) → j < i → elem p (r j) ≡ false)
      → Removed s r p (remove_from fuel rounds i s p)
  unfolding remove_from
  remove_from-Removed zero i e passed = misses (λ j h. passed j (omega arith))
  remove_from-Removed (suc rounds) i e passed = elim (Bool-cases (elem p (r i))) [
    | inl m ↦ remove_from-hit rounds i (omega arith) m
    | inr out ↦
        let range : i < priority_max = omega arith in
        let h = old.queues i range in
        let w : walk fuel s.procs p none (s.queue i).head ≡ absent =
          ap (walk fuel s.procs p none) h.head
          ∙ walk-absent s.procs p (r i) none fuel h.links out (enough i range) in
        rw (w, remove_from)
          (remove_from-Removed rounds (suc i) (omega arith) (λ j lt. elim (ℕ_discrete i j) [
            | yes same ↦ ap (λ (k : ℕ). elem p (r k)) (sym same) ∙ out
            | no ne ↦ passed j (omega arith)
          ]))
  ]

-- With fuel for the longest queue, `remove_process` ends, takes the process out of its queue with all
-- others kept in order, and otherwise changes nothing and says so.
pub remove_process-Removed :
    (fuel : ℕ) (s : State) (r : Ready) (p : ℕ)
    → Represents s r
    → ((i : ℕ) → i < priority_max → length (r i) ≤ fuel)
    → Removed s r p (remove_process fuel s (some p))
unfolding remove_process
remove_process-Removed fuel s r p old enough =
    remove_from-Removed fuel s r p old enough priority_max 0 (omega arith)
      (λ j lt. absurd (omega arith))
