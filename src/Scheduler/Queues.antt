-- ===== src/Scheduler/Queues.antt =====
-- What the scheduler's queues stand for: for each priority the list of processes that wait, in order.
use a9n.Base.{
  ℕ, ◌<◌, ◌≡◌, ◌≢◌, ap, ◌∙◌, true, false, none, List, [], arith, elem, Distinct, Bool-cases, inl,
  inr,
}
use a9n.Base.Int.{pos, pos_part}
use a9n.Dll.{front, back, Seg, Seg-frame}
use a9n.Process.{Processes, ProcessStatus}
use a9n.Scheduler.{State, priority_max, ProcessQueue}

abbrev pub Ready : Type 0
Ready = ℕ → List ℕ

-- A process in queue `i`.
pub record IsQueued (procs : Processes) (i p : ℕ) : Type 0 where
  pub priority : procs.priority p ≡ pos i
  pub flagged : procs.is_in_ready_queue p ≡ true
  pub executable : procs.status p ≡ ProcessStatus.ready

-- Queue `i`, with its links, holds the processes `xs`.
pub record Holds (procs : Processes) (q : ProcessQueue) (i : ℕ) (xs : List ℕ) : Type 0 where
  pub head : q.head ≡ front xs none
  pub tail : q.tail ≡ back none xs
  pub links : Seg procs.next procs.preview none xs none
  pub distinct : Distinct xs
  pub queued : (p : ℕ) → elem p xs ≡ true → IsQueued procs i p

-- A process outside the queues has clear links, and one that is flagged waits in the queue of its
-- priority.
pub record IsPlaced (procs : Processes) (r : Ready) (p : ℕ) : Type 0 where
  pub unlinked :
      procs.is_in_ready_queue p ≡ false → (procs.next p ≡ none) × (procs.preview p ≡ none)
  pub listed :
      procs.is_in_ready_queue p ≡ true
      → (pos_part (procs.priority p) < priority_max)
        × (elem p (r (pos_part (procs.priority p))) ≡ true)

-- `h` bounds the queues in use.
pub record Bound (s : State) (r : Ready) (h : ℕ) : Type 0 where
  pub highest : s.highest_priority ≡ pos h
  pub in_range : h < priority_max
  pub above : (i : ℕ) → h < i → i < priority_max → r i ≡ []

pub record Represents (s : State) (r : Ready) : Type 0 where
  pub queues : (i : ℕ) → i < priority_max → Holds s.procs (s.queue i) i (r i)
  pub placed : (p : ℕ) → IsPlaced s.procs r p
  pub top : ℕ
  pub bound : Bound s r top

-- What the queues read of a process is the same in both.
pub record SameProcess (procs procs' : Processes) (p : ℕ) : Type 0 where
  pub next : procs'.next p ≡ procs.next p
  pub preview : procs'.preview p ≡ procs.preview p
  pub flag : procs'.is_in_ready_queue p ≡ procs.is_in_ready_queue p
  pub priority : procs'.priority p ≡ procs.priority p
  pub status : procs'.status p ≡ procs.status p

-- A queue whose processes are unchanged.
pub Holds-frame :
    {procs procs' : Processes} {q q' : ProcessQueue} {i : ℕ} {xs : List ℕ}
    → Holds procs q i xs
    → q' ≡ q
    → ((p : ℕ) → elem p xs ≡ true → SameProcess procs procs' p)
    → Holds procs' q' i xs
Holds-frame {procs} {procs'} {q} {q'} {i} {xs} h e same = record {
  head = ap (λ (a : ProcessQueue). a.head) e ∙ h.head;
  tail = ap (λ (a : ProcessQueue). a.tail) e ∙ h.tail;
  links =
      Seg-frame procs'.next procs'.preview none none xs h.links (λ p m. (same p m).next)
        (λ p m. (same p m).preview);
  distinct = h.distinct;
  queued = λ p m. record {
    priority = (same p m).priority ∙ (h.queued p m).priority;
    flagged = (same p m).flag ∙ (h.queued p m).flagged;
    executable = (same p m).status ∙ (h.queued p m).executable;
  };
}

-- A process of priority `n` stands in no other queue.
pub not-elem_of_priority :
    {procs : Processes} {q : ProcessQueue} {i n : ℕ} {xs : List ℕ} {t : ℕ}
    → Holds procs q i xs
    → procs.priority t ≡ pos n
    → n ≢ i
    → elem t xs ≡ false
not-elem_of_priority {xs} {t} h e ne = elim (Bool-cases (elem t xs)) [
  | inl m ↦ let same = (h.queued t m).priority in absurd (ground arith)
  | inr out ↦ out
]

-- Nor does a process that is not flagged.
pub not-elem_of_flag :
    {procs : Processes} {q : ProcessQueue} {i : ℕ} {xs : List ℕ} {t : ℕ}
    → Holds procs q i xs
    → procs.is_in_ready_queue t ≡ false
    → elem t xs ≡ false
not-elem_of_flag {xs} {t} h e = elim (Bool-cases (elem t xs)) [
  | inl m ↦ let flagged = (h.queued t m).flagged in absurd (ground arith)
  | inr out ↦ out
]
