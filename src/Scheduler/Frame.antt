-- ===== src/Scheduler/Frame.antt =====
-- What the scheduler leaves alone: every field of the processes but their links and flags.
use a9n.Base.{
  ℕ, zero, suc, ◌≡◌, refl, ap, ◌∙◌, false, none, some, Option-cases, inl, inr, Bool-cases, is_some,
  ◌||◌,
}
use a9n.Base.Int.{ℤ, pos, negsuc, ltb_ℤ}
use a9n.Base.Result.{ok, err}
use a9n.Process.{Processes}
use a9n.Scheduler.{
  State, take_head, schedule_from, schedule, append_first, append_behind, append_tail, raise,
  add_process, is_ready, queue_index, direct, choose, lowered, enqueue_and_schedule, after_add,
  try_direct_schedule, Outcome,
}

-- The processes without what the queues own.
abbrev pub unlinked : Processes → Processes
unlinked m = record m { next = λ _. none; preview = λ _. none; is_in_ready_queue = λ _. false }

abbrev pub Apart : State → State → Type 0
Apart s s' = unlinked s'.procs ≡ unlinked s.procs

take_head-Apart : (s : State) (i p : ℕ) → Apart s (take_head s i p)
unfolding take_head
take_head-Apart s i p = elim (Option-cases (s.next p)) [
  | inl e ↦ rw (e, take_head) refl
  | inr (q, e) ↦ rw (e, take_head) refl
]

schedule_from-Apart : (h : ℕ) (s : State) → Apart s (schedule_from h s).1
unfolding schedule_from
schedule_from-Apart zero s = elim (Option-cases (s.queue 0).head) [
  | inl e ↦ rw (e, schedule_from) refl
  | inr (q, e) ↦ rw (e, schedule_from) (take_head-Apart s 0 q)
]
schedule_from-Apart (suc h) s = elim (Option-cases (s.queue (suc h)).head) [
  | inl e ↦ rw (e, schedule_from) (schedule_from-Apart h s)
  | inr (q, e) ↦ rw (e, schedule_from) (take_head-Apart s (suc h) q)
]

schedule_bound-Apart : (b : ℤ) (s : State) → s.highest_priority ≡ b → Apart s (schedule s).1
unfolding schedule
schedule_bound-Apart (pos h) s e = rw (e, schedule) (schedule_from-Apart h s)
schedule_bound-Apart (negsuc h) s e = rw (e, schedule) refl

pub schedule-Apart : (s : State) → Apart s (schedule s).1
schedule-Apart s = schedule_bound-Apart s.highest_priority s refl

append_tail-Apart : (s : State) (i p : ℕ) → Apart s (append_tail s i p)
unfolding append_tail append_first append_behind
append_tail-Apart s i p = elim (Option-cases (s.queue i).head) [
  | inl e ↦ rw (e, append_tail) refl
  | inr (q, e) ↦ elim (Option-cases (s.queue i).tail) [
    | inl e' ↦ rw (e, append_tail, e') refl
    | inr (t, e') ↦ rw (e, append_tail, e') refl
  ]
]

raise-procs : (s : State) (i : ℕ) → (raise s i).procs ≡ s.procs
raise-procs s i = elim (Bool-cases (ltb_ℤ s.highest_priority (pos i))) [
  | inl e ↦ rw e refl
  | inr e ↦ rw e refl
]

pub add_process-Apart : (s : State) (p : ℕ) → Apart s (add_process s (some p)).1
unfolding add_process
add_process-Apart s p = elim (Bool-cases (is_ready (s.status p))) [
  | inr e ↦ rw (e, add_process) refl
  | inl e ↦ elim (Option-cases (queue_index (s.priority p))) [
    | inl e' ↦ rw (e, add_process, e') refl
    | inr (i, e') ↦
        elim (Bool-cases (s.is_in_ready_queue p || is_some (s.next p) || is_some (s.preview p))) [
          | inl busy ↦ rw (e, add_process, e', busy) refl
          | inr free ↦
              rw (e, add_process, e', free)
                (append_tail-Apart (raise s i) i p ∙ ap unlinked (raise-procs s i))
        ]
  ]
]

after_add-Apart : (s : State) (out : Outcome (Unit {0})) → Apart s out.1 → Apart s (after_add out).1
after_add-Apart s (ok _, t) e = schedule-Apart t ∙ e
after_add-Apart s (err _, t) e = e

direct-Apart : (s : State) (p : ℕ) → Apart s (direct s p).1
unfolding direct
direct-Apart s p = elim (Bool-cases (s.is_in_ready_queue p)) [
  | inl e ↦ rw (e, direct) refl
  | inr e ↦ rw (e, direct) refl
]

choose-Apart : (s : State) (i p : ℕ) → Apart s (choose s i p).1
unfolding choose enqueue_and_schedule
choose-Apart s i p = elim (Bool-cases (ltb_ℤ (pos i) s.highest_priority)) [
  | inr e ↦ rw (e, choose) (direct-Apart s p)
  | inl e ↦ elim (Bool-cases (is_ready (s.status p))) [
    | inl e' ↦ rw (e, choose, e') (after_add-Apart s _ (add_process-Apart s p))
    | inr e' ↦ rw (e, choose, e') refl
  ]
]

pub try_direct_schedule-Apart : (s : State) (p : ℕ) → Apart s (try_direct_schedule s (some p)).1
unfolding try_direct_schedule
try_direct_schedule-Apart s p = elim (Option-cases (queue_index (s.priority p))) [
  | inl e ↦ rw (e, try_direct_schedule) refl
  | inr (i, e) ↦ elim (Bool-cases (ltb_ℤ (pos i) s.highest_priority)) [
    | inl e' ↦ rw (e, try_direct_schedule, e') (choose-Apart (lowered s i) i p)
    | inr e' ↦ rw (e, try_direct_schedule, e') (direct-Apart s p)
  ]
]
