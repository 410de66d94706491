-- ===== src/Scheduler/Changes.antt =====
-- Writes to the processes that the scheduler's queues do not read.
use a9n.Base.{ℕ, ◌≡◌, sym, ap, refl, ◌∙◌, Bool, true, Option}
use a9n.Process.{Processes}
use a9n.Scheduler.{State}
use a9n.Scheduler.Queues.{Ready, Represents, Holds-frame}

-- New fields of the processes with the links and flags kept, and the priority and the status of those
-- that wait.
pub changes-Represents :
    (s : State) (m : Processes) (r : Ready)
    → m.next ≡ s.next
    → m.preview ≡ s.preview
    → m.is_in_ready_queue ≡ s.is_in_ready_queue
    → ((p : ℕ)
        → s.is_in_ready_queue p ≡ true
        → (m.priority p ≡ s.priority p) × (m.status p ≡ s.status p))
    → Represents s r
    → Represents (record s { procs = m }) r
changes-Represents s m r n v f keep old = record {
  queues = λ i range. Holds-frame (old.queues i range) refl (λ p e.
      let kept = keep p ((old.queues i range).queued p e).flagged in
      record {
        next = ap (λ (g : ℕ → Option ℕ). g p) n;
        preview = ap (λ (g : ℕ → Option ℕ). g p) v;
        flag = ap (λ (g : ℕ → Bool). g p) f;
        priority = kept.0;
        status = kept.1;
      });
  placed = λ p. record {
    unlinked = λ e.
        let o = (old.placed p).unlinked (ap (λ (g : ℕ → Bool). g p) (sym f) ∙ e) in
        (ap (λ (g : ℕ → Option ℕ). g p) n ∙ o.0, ap (λ (g : ℕ → Option ℕ). g p) v ∙ o.1);
    listed = λ e.
        let flag = ap (λ (g : ℕ → Bool). g p) (sym f) ∙ e in
        rw (keep p flag).0 ((old.placed p).listed flag);
  };
  top = old.top;
  bound = record {
    highest = old.bound.highest;
    in_range = old.bound.in_range;
    above = old.bound.above;
  };
}
