-- ===== src/WaitQueue/Push.antt =====
-- The enqueueing of a waiting process.
use a9n.Base.{
  ℕ, ◌≡◌, ◌≢◌, refl, sym, ap, ◌∙◌, true, Option, none, some, List, [], ◌∷◌, ◌++◌, arith, elem,
  append-Distinct, write, write_self, write-eq, write-ne, some_inj, elem-push, elem-push_self,
  elem-push_old, inl, inr,
}
use native.Mathlib.Decide.{ℕ_discrete}
use a9n.Dll.{Seg-push, back-none-elem, elem-apart, back-push, back-some}
use a9n.Kernel.{Ends}
use a9n.WaitQueue.{Pointers, push, push_to, push_first, push_behind}
use a9n.WaitQueue.Queues.{Waiters, Holds, Represents, not-elem_of_port, edit-Represents}

-- The lists with `p` at the end of the one of port `n`.
abbrev pub enqueue : Waiters → ℕ → ℕ → Waiters
enqueue w n p = write w n (w n ++ p ∷ [])

module _ (q : Pointers) (n p : ℕ) where
  abbrev named : Pointers
  named = record q { port = write q.port p (some n) }

  push-empty : (q.queue n).head ≡ none → push q n p ≡ push_first named n p
  unfolding push push_to
  push-empty e = ap (λ (o : Option ℕ). push_to named n p o (q.queue n).tail) e

  push-last :
      (h t : ℕ)
      → (q.queue n).head ≡ some h
      → (q.queue n).tail ≡ some t
      → push q n p ≡ push_behind named n t p
  unfolding push push_to
  push-last h t e e' =
      ap (λ (o : Option ℕ). push_to named n p o (q.queue n).tail) e
      ∙ ap (λ (o : Option ℕ). push_to named n p (some h) o) e'

  pub push-port : (x : ℕ) → (push q n p).port x ≡ write q.port p (some n) x
  unfolding push push_to push_first push_behind
  push-port x = ground arith

  push-queue : (m : ℕ) → n ≢ m → (push q n p).queue m ≡ q.queue m
  unfolding push push_to push_first push_behind
  push-queue m ne = ground arith

  push-pointers :
      (x : ℕ)
      → p ≢ x
      → (q.queue n).tail ≢ some x
      → ((push q n p).next x ≡ q.next x) × ((push q n p).preview x ≡ q.preview x)
  unfolding push push_to push_first push_behind
  push-pointers x ne off = ground arith

push-Holds :
    (q : Pointers) (n p : ℕ) (xs : List ℕ)
    → Holds q n xs
    → q.port p ≡ none
    → Holds (push q n p) n (xs ++ p ∷ [])
unfolding push_first push_behind
push-Holds q n p [] h free = rw (push-empty q n p h.head) (record {
  head = ground arith;
  tail = ground arith;
  links = (ground arith, ground arith, tt);
  distinct = (refl, tt);
  waits = λ x m. ground arith;
})
push-Holds q n p (x ∷ xs) h free =
    let (t, last) = back-some x xs in
    let out = not-elem_of_port h (λ e. absurd (ground (arith, free, e))) in
    let inside = back-none-elem (x ∷ xs) t last in
    let apart = λ (y : ℕ) (m : elem y (x ∷ xs) ≡ true). elem-apart p y (x ∷ xs) out m in
    rw (push-last q n p x t h.head (h.tail ∙ last)) (record {
      head = ap (λ (a : Ends). a.head) (write_self q.queue n _) ∙ h.head;
      tail = ap (λ (a : Ends). a.tail) (write_self q.queue n _) ∙ sym (back-push (x ∷ xs) p);
      links =
          Seg-push _ _ (x ∷ xs) p h.distinct h.links (λ y m. write-ne q.preview p _ (apart y m))
            (λ y m ne.
              write-ne (write q.next p none) t (some p) (λ e. ne (last ∙ ap some e))
              ∙ write-ne q.next p none (apart y m))
            (λ y e. write-eq (write q.next p none) t (some p) (some_inj (sym last ∙ e)))
            (write_self q.preview p _ ∙ h.tail)
            (write-ne (write q.next p none) t (some p) (λ e. apart t inside (sym e))
              ∙ write_self q.next p none);
      distinct = append-Distinct (x ∷ xs) p h.distinct out;
      waits = λ y m. elim (elem-push y p (x ∷ xs) m) [
        | inl old ↦ write-ne q.port p (some n) (apart y old) ∙ h.waits y old
        | inr e ↦ write-eq q.port p (some n) e
      ];
    })

-- A process that waits nowhere waits last at the port after the call; every other queue stays.
pub push-Represents :
    (q : Pointers) (w : Waiters) (n p : ℕ)
    → Represents q w
    → q.port p ≡ none
    → Represents (push q n p) (enqueue w n p)
push-Represents q w n p old free =
    edit-Represents (push q n p) n (w n ++ p ∷ []) old (push-Holds q n p (w n) (old.queues n) free)
      (push-queue q n p)
      (λ x off. elim (ℕ_discrete p x) [
        | yes e ↦ inr (ap q.port (sym e) ∙ free, push-port q n p x ∙ write-eq q.port p (some n) e)
        | no ne ↦
            let tail = (old.queues n).tail in
            let kept =
              push-pointers q n p x ne
                (λ e. off ((old.queues n).waits x (back-none-elem (w n) x (sym tail ∙ e)))) in
            inl (record {
              next = kept.0;
              preview = kept.1;
              port = push-port q n p x ∙ write-ne q.port p (some n) ne;
            })
      ])
      (λ x is. inl (
        push-port q n p x
        ∙ write-ne q.port p (some n) (λ e. absurd (ground (arith, free, is, e)))
        ∙ is))
      (λ x is. elim (ℕ_discrete p x) [
        | yes e ↦ rw (← e) (elem-push_self p (w n))
        | no ne ↦ elem-push_old x p (w n) (
            (old.placed x).listed n
              (sym (write-ne q.port p (some n) ne) ∙ sym (push-port q n p x) ∙ is))
      ])
