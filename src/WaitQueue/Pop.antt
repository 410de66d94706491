-- ===== src/WaitQueue/Pop.antt =====
-- The dequeueing of the process that has waited longest.
use a9n.Base.{
  ℕ, ◌≡◌, ◌≢◌, refl, sym, ap, ◌∙◌, true, Option, none, some, List, [], ◌∷◌, arith, elem, subst,
  write, write_self, write-eq, write-ne, elem-tail, elem-later, inl, inr, elem-here,
}
use a9n.Base.Result.{ok, err, no_such_address}
use native.Mathlib.Decide.{ℕ_discrete}
use a9n.Dll.{back, front, Seg-pop, front-elem, elem-apart}
use a9n.Kernel.{Ends}
use a9n.WaitQueue.{Pointers, pop, advance, release}
use a9n.WaitQueue.Queues.{Waiters, Holds, Represents, edit-Represents}

abbrev popped : Pointers → ℕ → ℕ → Option ℕ → Pointers
popped q n p rest = release (advance q n rest) p

pop-eq :
    (q : Pointers) (n p : ℕ) (xs : List ℕ)
    → Holds q n (p ∷ xs)
    → pop q n ≡ (ok p, popped q n p (front xs none))
unfolding pop
pop-eq q n p xs h = rw (h.head, pop, h.links.1) refl

module _ (q : Pointers) (n p : ℕ) (rest : Option ℕ) where
  popped-port : (x : ℕ) → (popped q n p rest).port x ≡ write q.port p none x
  unfolding release advance
  popped-port x = ground arith

  popped-queue : (m : ℕ) → n ≢ m → (popped q n p rest).queue m ≡ q.queue m
  unfolding release advance
  popped-queue m ne = ground arith

  popped-next : (x : ℕ) → (popped q n p rest).next x ≡ write q.next p none x
  unfolding release advance
  popped-next x = ground arith

  popped-preview : (x : ℕ) → p ≢ x → rest ≢ some x → (popped q n p rest).preview x ≡ q.preview x
  unfolding release advance
  popped-preview x ne off = ground arith

  popped-preview_head : (x : ℕ) → p ≢ x → rest ≡ some x → (popped q n p rest).preview x ≡ none
  unfolding release advance
  popped-preview_head x ne e = ground arith

  popped-preview_self : (popped q n p rest).preview p ≡ none
  unfolding release advance
  popped-preview_self = ground arith

popped-ends :
    (q : Pointers) (n p : ℕ) (xs : List ℕ)
    → (q.queue n).tail ≡ back none (p ∷ xs)
    → (popped q n p (front xs none)).queue n ≡ record { head = front xs none; tail = back none xs }
unfolding release advance
popped-ends q n p [] e = write_self q.queue n _
popped-ends q n p (y ∷ ys) e =
    write_self q.queue n _ ∙ ap (λ (o : Option ℕ). record { head = some y; tail = o }) e

popped-Holds :
    (q : Pointers) (n p : ℕ) (xs : List ℕ)
    → Holds q n (p ∷ xs)
    → Holds (popped q n p (front xs none)) n xs
popped-Holds q n p xs h =
    let ends = popped-ends q n p xs h.tail in
    let apart = λ (y : ℕ) (m : elem y xs ≡ true). elem-apart p y xs h.distinct.0 m in
    record {
      head = ap (λ (a : Ends). a.head) ends;
      tail = ap (λ (a : Ends). a.tail) ends;
      links =
          Seg-pop _ _ p xs h.distinct h.links
            (λ y m ne. popped-preview q n p (front xs none) y (apart y m) ne)
            (λ y m. popped-next q n p (front xs none) y ∙ write-ne q.next p none (apart y m))
            (λ y e. popped-preview_head q n p (front xs none) y (apart y (front-elem xs y e)) e);
      distinct = h.distinct.1;
      waits = λ y m.
          popped-port q n p (front xs none) y
          ∙ write-ne q.port p none (apart y m)
          ∙ h.waits y (elem-later y p xs m);
    }

module _ (q : Pointers) (w : Waiters) (n p : ℕ) (xs : List ℕ) (old : Represents q w)
    (waiting : w n ≡ p ∷ xs) where
  abbrev first : Holds q n (p ∷ xs)
  first = subst (λ (l : List ℕ). Holds q n l) waiting (old.queues n)

  -- The process that has waited longest is taken, with clear links; every other queue stays.
  pub pop-Represents : ((pop q n).0 ≡ ok p) × Represents (pop q n).1 (write w n xs)
  pop-Represents = rw (pop-eq q n p xs first) (
    refl,
    edit-Represents (popped q n p (front xs none)) n xs old (popped-Holds q n p xs first)
        (popped-queue q n p (front xs none))
        (λ x off.
          let ne : p ≢ x = λ e. off (ap q.port (sym e) ∙ first.waits p (elem-here p xs)) in
          inl (record {
            next = popped-next q n p (front xs none) x ∙ write-ne q.next p none ne;
            preview =
                popped-preview q n p (front xs none) x ne
                  (λ e. off (first.waits x (elem-later x p xs (front-elem xs x e))));
            port = popped-port q n p (front xs none) x ∙ write-ne q.port p none ne;
          }))
        (λ x is. elim (ℕ_discrete p x) [
          | yes e ↦ inr (record {
            port = popped-port q n p (front xs none) x ∙ write-eq q.port p none e;
            next = popped-next q n p (front xs none) x ∙ write-eq q.next p none e;
            preview =
                ap (popped q n p (front xs none)).preview (sym e)
                ∙ popped-preview_self q n p (front xs none);
          })
          | no ne ↦ inl (popped-port q n p (front xs none) x ∙ write-ne q.port p none ne ∙ is)
        ])
        (λ x is. elim (ℕ_discrete p x) [
          | yes e ↦ absurd (
              ground
                (arith, sym is ∙ popped-port q n p (front xs none) x ∙ write-eq q.port p none e))
          | no ne ↦
              let was =
                sym (write-ne q.port p none ne) ∙ sym (popped-port q n p (front xs none) x) ∙ is in
              elem-tail x p xs ne
                (ap (λ (l : List ℕ). elem x l) (sym waiting) ∙ (old.placed x).listed n was)
        ]),
  )

-- From an empty queue nothing is taken.
pub pop-none : (q : Pointers) (n : ℕ) → (q.queue n).head ≡ none → pop q n ≡ (err no_such_address, q)
unfolding pop
pop-none q n e = rw (e, pop) refl
