-- ===== src/Scheduler/Highest.antt =====
-- The bound that `try_direct_schedule` and `remove_process` lower past empty queues.
use a9n.Base.{
  ℕ, zero, suc, ◌<◌, ◌≤◌, ◌≡◌, refl, ap, true, none, List, [], ◌∷◌, arith, inl, inr, ◌⊎◌, ltb,
  Bool-cases, not, ◌&&◌, is_some, elem, subst,
}
use a9n.Base.Int.{pos}
use native.Mathlib.Decide.{ℕ_discrete, dec_le}
use a9n.Process.{Processes}
use a9n.Scheduler.{State, priority_max, ProcessQueue, lower_highest, lower_to}
use a9n.Scheduler.Queues.{Ready, Holds, Bound}

lower_highest-le : (queue : ℕ → ProcessQueue) (t h : ℕ) → lower_highest queue t h ≤ h
unfolding lower_highest
lower_highest-le queue t zero = omega arith
lower_highest-le queue t (suc h) = ground (arith, lower_highest-le queue t h)

-- The queues that it passes are empty.
lower_highest-head :
    (queue : ℕ → ProcessQueue) (t h j : ℕ)
    → lower_highest queue t h < j
    → j ≤ h
    → (queue j).head ≡ none
unfolding lower_highest
lower_highest-head queue t zero j lt le = absurd (omega arith)
lower_highest-head queue t (suc h) j lt le =
    elim (Bool-cases (ltb t (suc h) && not (is_some (queue (suc h)).head))) [
      | inl passes ↦ elim (ℕ_discrete (suc h) j) [
        | yes e ↦ subst (λ (k : ℕ). (queue k).head ≡ none) e (ground (arith, passes))
        | no ne ↦ lower_highest-head queue t h j (ground (arith, passes, lt)) (omega arith)
      ]
      | inr stops ↦ absurd (ground (arith, stops, lt))
    ]

-- It stops at the target, below it, or at a queue in use.
pub lower_highest-stop :
    (queue : ℕ → ProcessQueue) (t h : ℕ)
    → (lower_highest queue t h ≤ t) ⊎ (is_some (queue (lower_highest queue t h)).head ≡ true)
unfolding lower_highest
lower_highest-stop queue t zero = inl (omega arith)
lower_highest-stop queue t (suc h) =
    elim (Bool-cases (ltb t (suc h) && not (is_some (queue (suc h)).head))) [
      | inl passes ↦ rw (passes, lower_highest) (lower_highest-stop queue t h)
      | inr stops ↦ rw (stops, lower_highest) (ground (arith, stops))
    ]

pub nil_of_head :
    {procs : Processes} {q : ProcessQueue} {i : ℕ} (xs : List ℕ)
    → Holds procs q i xs
    → q.head ≡ none
    → xs ≡ []
nil_of_head [] h e = refl
nil_of_head (x ∷ xs) h e = absurd (ground (arith, h.head))

-- The lowered bound is a bound.
pub lower-Bound :
    (s : State) (r : Ready) (t h : ℕ)
    → ((i : ℕ) → i < priority_max → Holds s.procs (s.queue i) i (r i))
    → s.highest_priority ≡ lower_to s.queue t (pos h)
    → h < priority_max
    → ((i : ℕ) → h < i → i < priority_max → r i ≡ [])
    → Bound s r (lower_highest s.queue t h)
lower-Bound s r t h queues highest range top = record {
  highest = highest;
  in_range = omega (arith, lower_highest-le s.queue t h);
  above = λ j lt max. elim (dec_le j h) [
    | yes le ↦ nil_of_head (r j) (queues j max) (lower_highest-head s.queue t h j lt le)
    | no gt ↦ top j (omega arith) max
  ];
}

-- The bound covers each queue in use.
pub le_top :
    {s : State} {r : Ready} {h : ℕ} (i p : ℕ)
    → Bound s r h
    → i < priority_max
    → elem p (r i) ≡ true
    → i ≤ h
le_top {r} {h} i p b range m = elim (dec_le i h) [
  | yes le ↦ le
  | no gt ↦ let e = ap (elem p) (b.above i (omega arith) range) in absurd (ground arith)
]
