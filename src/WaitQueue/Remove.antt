-- ===== src/WaitQueue/Remove.antt =====
-- The removal of a process from the middle of a queue.
use a9n.Base.{
  ℕ, ◌≡◌, ◌≢◌, refl, sym, ap, subst, ◌∙◌, true, false, Option, none, some, List, [], ◌∷◌, ◌++◌,
  arith, elem, Distinct, Distinct-append, write, write_self, write-eq, write-ne, inl, inr,
  elem-split, elem-around, elem-other, elem-append, ==_refl, ==_false, Bool-cases, Option-cases,
  erase-append, erase-Distinct, erase,
}
use a9n.Base.Result.{ok, err, illegal_argument}
use native.Mathlib.Decide.{ℕ_discrete}
use a9n.Dll.{
  back, front, Seg, Seg-split, Seg-unlink, front-elem, back-none-elem, elem-apart, back-append,
  back-some,
}
use mathlib.Core.List.{append-nil}
use a9n.Kernel.{Ends}
use a9n.WaitQueue.{Pointers, remove, unlink, bypass_next, bypass_preview, release, close}
use a9n.WaitQueue.Queues.{Waiters, Holds, Represents, edit-Represents}

-- The unlinking of `p` between `before` and `after`, up to `close`.
abbrev spliced : Pointers → ℕ → ℕ → (before after : Option ℕ) → Pointers
spliced q n p before after =
    release (bypass_preview (bypass_next q n before after) n before after) p

abbrev closed : Pointers → ℕ → Pointers
closed q n = close q n (q.queue n).head

bypass_next-preview :
    (q : Pointers) (n p : ℕ) (before after : Option ℕ)
    → (bypass_next q n before after).preview p ≡ q.preview p
unfolding bypass_next
bypass_next-preview q n p none after = refl
bypass_next-preview q n p (some v) after = refl

bypass_next-next :
    (q : Pointers) (n p : ℕ) (before after : Option ℕ)
    → before ≢ some p
    → (bypass_next q n before after).next p ≡ q.next p
unfolding bypass_next
bypass_next-next q n p none after ne = refl
bypass_next-next q n p (some v) after ne = ground arith

unlink-eq :
    (q : Pointers) (n p : ℕ)
    → q.preview p ≢ some p
    → unlink q n p ≡ closed (spliced q n p (q.preview p) (q.next p)) n
unfolding unlink
unlink-eq q n p ne =
    rw
      (
        bypass_next-preview q n p (q.preview p) (q.next p),
        bypass_next-next q n p (q.preview p) (q.next p) ne,
      )
      refl

closed-links :
    (q : Pointers) (n : ℕ) (head : Option ℕ)
    → ((close q n head).next ≡ q.next)
      × ((close q n head).preview ≡ q.preview)
      × ((close q n head).port ≡ q.port)
unfolding close
closed-links q n none = (refl, refl, refl)
closed-links q n (some h) = (refl, refl, refl)

closed-queue :
    (q : Pointers) (n m : ℕ) (head : Option ℕ) → n ≢ m → (close q n head).queue m ≡ q.queue m
unfolding close
closed-queue q n m none ne = write-ne q.queue n _ ne
closed-queue q n m (some h) ne = refl

-- Where the ends agree on an empty queue, there is nothing to close.
closed-ends :
    (q : Pointers) (n : ℕ) (head : Option ℕ)
    → (q.queue n).head ≡ head
    → (head ≡ none → (q.queue n).tail ≡ none)
    → (close q n head).queue n ≡ q.queue n
unfolding close
closed-ends q n none e t =
    write_self q.queue n _
    ∙ ap (λ (o : Option ℕ). record { head = o; tail = none }) (sym e)
    ∙ ap (λ (o : Option ℕ). record { head = (q.queue n).head; tail = o }) (sym (t refl))
closed-ends q n (some h) e t = refl

module _ (q : Pointers) (n p : ℕ) (before after : Option ℕ) where
  spliced-port : (x : ℕ) → (spliced q n p before after).port x ≡ write q.port p none x
  unfolding bypass_next bypass_preview release
  spliced-port x = ground arith

  spliced-queue : (m : ℕ) → n ≢ m → (spliced q n p before after).queue m ≡ q.queue m
  unfolding bypass_next bypass_preview release
  spliced-queue m ne = ground arith

  spliced-next : (x : ℕ) → p ≢ x → before ≢ some x → (spliced q n p before after).next x ≡ q.next x
  unfolding bypass_next bypass_preview release
  spliced-next x ne off = ground arith

  spliced-next_before :
      (x : ℕ) → p ≢ x → before ≡ some x → (spliced q n p before after).next x ≡ after
  unfolding bypass_next bypass_preview release
  spliced-next_before x ne e = ground arith

  spliced-preview :
      (x : ℕ) → p ≢ x → after ≢ some x → (spliced q n p before after).preview x ≡ q.preview x
  unfolding bypass_next bypass_preview release
  spliced-preview x ne off = ground arith

  spliced-preview_after :
      (x : ℕ) → p ≢ x → after ≡ some x → (spliced q n p before after).preview x ≡ before
  unfolding bypass_next bypass_preview release
  spliced-preview_after x ne e = ground arith

  spliced-clear :
      ((spliced q n p before after).next p ≡ none) × ((spliced q n p before after).preview p ≡ none)
  unfolding bypass_next bypass_preview release
  spliced-clear = ground arith

  spliced-head :
      ((spliced q n p before after).queue n).head
      ≡ elim before [ none ↦ after | some v ↦ (q.queue n).head ]
  unfolding bypass_next bypass_preview release
  spliced-head = ground arith

  spliced-tail :
      ((spliced q n p before after).queue n).tail
      ≡ elim after [ none ↦ before | some v ↦ (q.queue n).tail ]
  unfolding bypass_next bypass_preview release
  spliced-tail = ground arith

head_around :
    (us vs : List ℕ) (p : ℕ) (head : Option ℕ)
    → head ≡ front (us ++ p ∷ vs) none
    → elim (back none us) [ none ↦ front vs none | some v ↦ head ] ≡ front (us ++ vs) none
head_around [] vs p head e = refl
head_around (u ∷ us) vs p head e = let (t, last) = back-some u us in rw last e

tail_around :
    (us vs : List ℕ) (p : ℕ) (tail : Option ℕ)
    → tail ≡ back none (us ++ p ∷ vs)
    → elim (front vs none) [ none ↦ back none us | some v ↦ tail ] ≡ back none (us ++ vs)
tail_around us [] p tail e = ap (λ (l : List ℕ). back none l) (sym (append-nil us))
tail_around us (v ∷ vs) p tail e =
    e ∙ back-append none us (p ∷ v ∷ vs) ∙ sym (back-append none us (v ∷ vs))

empty_ends : (xs : List ℕ) → front xs none ≡ none → back none xs ≡ none
empty_ends [] e = refl
empty_ends (x ∷ xs) e = absurd (ground arith)

module _ (q : Pointers) (n p : ℕ) (us vs : List ℕ) (h : Holds q n (us ++ p ∷ vs)) where
  abbrev parts :
      Seg q.next q.preview none us (some p) × Seg q.next q.preview (back none us) (p ∷ vs) none
  parts = Seg-split q.next q.preview none none us (p ∷ vs) h.links

  abbrev distinct :
      Distinct us × Distinct (p ∷ vs) × ((x : ℕ) → elem x us ≡ true → elem x (p ∷ vs) ≡ false)
  distinct = Distinct-append us (p ∷ vs) h.distinct

  us-apart : (x : ℕ) → elem x us ≡ true → p ≢ x
  us-apart x m e = let off = distinct.2 x m in absurd (ground arith)

  vs-apart : (x : ℕ) → elem x vs ≡ true → p ≢ x
  vs-apart x m e = elem-apart p x vs (distinct.1.0) m e

  apart : (x : ℕ) → elem x (us ++ vs) ≡ true → p ≢ x
  apart x m = elim (Bool-cases (elem x us)) [
    | inl i ↦ us-apart x i
    | inr o ↦ vs-apart x (ground (arith, elem-append x us vs))
  ]

  out_us : elem p us ≡ false
  out_us = elim (Bool-cases (elem p us)) [ inl i ↦ absurd (us-apart p i refl) | inr o ↦ o ]

  abbrev result : Pointers
  result = spliced q n p (back none us) (front vs none)

  result-head : (result.queue n).head ≡ front (us ++ vs) none
  result-head =
      spliced-head q n p (back none us) (front vs none)
      ∙ head_around us vs p (q.queue n).head h.head

  result-tail : (result.queue n).tail ≡ back none (us ++ vs)
  result-tail =
      spliced-tail q n p (back none us) (front vs none)
      ∙ tail_around us vs p (q.queue n).tail h.tail

  unlink-result : unlink q n p ≡ closed result n
  unlink-result =
      unlink-eq q n p (λ e. us-apart p (back-none-elem us p (sym parts.1.0 ∙ e)) refl)
      ∙ ap (λ (o : Option ℕ). closed (spliced q n p o (q.next p)) n) parts.1.0
      ∙ ap (λ (o : Option ℕ). closed (spliced q n p (back none us) o) n) parts.1.1

  closed-result_queue : (closed result n).queue n ≡ result.queue n
  closed-result_queue =
      closed-ends result n (result.queue n).head refl
        (λ e. result-tail ∙ empty_ends (us ++ vs) (sym result-head ∙ e))

  result-links : Seg result.next result.preview none (us ++ vs) none
  result-links =
      Seg-unlink _ _ us vs p distinct.0 distinct.1.1
        (λ x m.
          spliced-preview q n p _ _ x (us-apart x m)
            (λ e. let off = distinct.2 x m in let on = front-elem vs x e in absurd (ground arith)))
        (λ x m ne. spliced-next q n p _ _ x (us-apart x m) ne)
        (λ x m ne. spliced-preview q n p _ _ x (vs-apart x m) ne)
        (λ x m.
          spliced-next q n p _ _ x (vs-apart x m)
            (λ e. let off = distinct.2 x (back-none-elem us x e) in absurd (ground arith)))
        h.links (λ x e. spliced-next_before q n p _ _ x (us-apart x (back-none-elem us x e)) e)
        (λ x e. spliced-preview_after q n p _ _ x (vs-apart x (front-elem vs x e)) e)

  closed-Holds : Holds (closed result n) n (us ++ vs)
  closed-Holds =
      let same = closed-links result n (result.queue n).head in
      record {
        head = ap (λ (a : Ends). a.head) closed-result_queue ∙ result-head;
        tail = ap (λ (a : Ends). a.tail) closed-result_queue ∙ result-tail;
        links = rw (same.0, same.1) result-links;
        distinct =
            subst Distinct (erase-append us vs p out_us)
              (erase-Distinct p (us ++ p ∷ vs) h.distinct);
        waits = λ x m.
            ap (λ (f : ℕ → Option ℕ). f x) same.2
            ∙ spliced-port q n p _ _ x
            ∙ write-ne q.port p none (apart x m)
            ∙ h.waits x (elem-around x p us vs m);
      }

remove-eq : (q : Pointers) (n p : ℕ) → q.port p ≡ some n → remove q n p ≡ (ok tt, unlink q n p)
unfolding remove
remove-eq q n p e = rw (e, remove, ==_refl n) refl

-- A process that does not wait at the port is refused, and nothing changes.
pub remove-refused :
    (q : Pointers) (n p : ℕ) → q.port p ≢ some n → remove q n p ≡ (err illegal_argument, q)
unfolding remove
remove-refused q n p ne = elim (Option-cases (q.port p)) [
  | inl e ↦ rw (e, remove) refl
  | inr (m, e) ↦ rw (e, remove, ==_false m n (λ same. ne (e ∙ ap some same))) refl
]

elem-before : (x : ℕ) (us vs : List ℕ) → back none us ≡ some x → elem x (us ++ vs) ≡ true
elem-before x us vs e = let m = back-none-elem us x e in ground (arith, elem-append x us vs)

elem-after : (x : ℕ) (us vs : List ℕ) → front vs none ≡ some x → elem x (us ++ vs) ≡ true
elem-after x us vs e = let m = front-elem vs x e in ground (arith, elem-append x us vs)

module _ (q : Pointers) (w : Waiters) (n p : ℕ) (old : Represents q w)
    (waiting : q.port p ≡ some n) where
  erased :
      (us vs : List ℕ)
      → w n ≡ us ++ p ∷ vs
      → elem p us ≡ false
      → Represents (unlink q n p) (write w n (erase p (w n)))
  erased us vs split out =
      let h : Holds q n (us ++ p ∷ vs) = subst (λ (l : List ℕ). Holds q n l) split (old.queues n) in
      let end = result q n p us vs h in
      let same = closed-links end n (end.queue n).head in
      let port = λ (x : ℕ).
        ap (λ (f : ℕ → Option ℕ). f x) same.2
        ∙ spliced-port q n p (back none us) (front vs none) x in
      rw
        (
          unlink-result q n p us vs h,
          ap (λ (l : List ℕ). erase p l) split ∙ erase-append us vs p out,
        )
        (edit-Represents (closed end n) n (us ++ vs) old (closed-Holds q n p us vs h)
          (λ m ne. closed-queue end n m (end.queue n).head ne ∙ spliced-queue q n p _ _ m ne)
          (λ x off.
            let ne : p ≢ x = λ e. off (ap q.port (sym e) ∙ waiting) in
            inl (record {
              next =
                  ap (λ (f : ℕ → Option ℕ). f x) same.0
                  ∙ spliced-next q n p _ _ x ne
                      (λ e. off (h.waits x (elem-around x p us vs (elem-before x us vs e))));
              preview =
                  ap (λ (f : ℕ → Option ℕ). f x) same.1
                  ∙ spliced-preview q n p _ _ x ne
                      (λ e. off (h.waits x (elem-around x p us vs (elem-after x us vs e))));
              port = port x ∙ write-ne q.port p none ne;
            }))
          (λ x is. elim (ℕ_discrete p x) [
            | yes e ↦ inr (record {
              port = port x ∙ write-eq q.port p none e;
              next =
                  ap (λ (f : ℕ → Option ℕ). f x) same.0
                  ∙ ap end.next (sym e)
                  ∙ (spliced-clear q n p (back none us) (front vs none)).0;
              preview =
                  ap (λ (f : ℕ → Option ℕ). f x) same.1
                  ∙ ap end.preview (sym e)
                  ∙ (spliced-clear q n p (back none us) (front vs none)).1;
            })
            | no ne ↦ inl (port x ∙ write-ne q.port p none ne ∙ is)
          ])
          (λ x is. elim (ℕ_discrete p x) [
            | yes e ↦ let gone = sym is ∙ port x ∙ write-eq q.port p none e in absurd (ground arith)
            | no ne ↦
                let was = sym (write-ne q.port p none ne) ∙ sym (port x) ∙ is in
                elem-other x p us vs ne
                  (ap (λ (l : List ℕ). elem x l) (sym split) ∙ (old.placed x).listed n was)
          ]))

  -- A process that waits at the port leaves its queue, with clear links; the others keep their order.
  pub remove-Represents :
      ((remove q n p).0 ≡ ok tt) × Represents (remove q n p).1 (write w n (erase p (w n)))
  remove-Represents =
      let (us, vs, split, out) = elem-split p (w n) ((old.placed p).listed n waiting) in
      rw (remove-eq q n p waiting) (refl, erased us vs split out)
