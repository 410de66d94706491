-- ===== src/WaitQueue/Leave.antt =====
-- The ports that the processes name after one has left, whatever the links.
use a9n.Base.{
  ℕ, ◌≡◌, ◌⊎◌, refl, ap, ◌∙◌, Option, none, some, ◌==◌, write, Option-cases, inl, inr, Bool-cases,
  points_to, arith, ==_refl, write_self,
}
use a9n.WaitQueue.{
  Pointers, pop, pop_ipc, remove, unlink, bypass_next, bypass_preview, release, release_head,
  advance, close,
}

-- A process names the port that it named, or none.
abbrev pub Leaves : Pointers → Pointers → Type 0
Leaves q q' = (x : ℕ) → (q'.port x ≡ q.port x) ⊎ (q'.port x ≡ none)

close-port : (q : Pointers) (n : ℕ) (head : Option ℕ) → (close q n head).port ≡ q.port
unfolding close
close-port q n none = refl
close-port q n (some h) = refl

bypassed-port :
    (q : Pointers) (n : ℕ) (before after : Option ℕ)
    → ((bypass_next q n before after).port ≡ q.port)
      × ((bypass_preview q n before after).port ≡ q.port)
unfolding bypass_next bypass_preview
bypassed-port q n none none = (refl, refl)
bypassed-port q n none (some y) = (refl, refl)
bypassed-port q n (some x) none = (refl, refl)
bypassed-port q n (some x) (some y) = (refl, refl)

write-Leaves :
    (f g : ℕ → Option ℕ) (p : ℕ)
    → g ≡ f
    → (x : ℕ) → (write g p none x ≡ f x) ⊎ (write g p none x ≡ none)
write-Leaves f g p e x = elim (Bool-cases (p == x)) [
  | inl same ↦ rw same (inr refl)
  | inr ne ↦ rw ne (inl (ap (λ (h : ℕ → Option ℕ). h x) e))
]

unlink-Leaves : (q : Pointers) (n p : ℕ) → Leaves q (unlink q n p)
unfolding unlink release
unlink-Leaves q n p x =
    let q1 = bypass_next q n (q.preview p) (q.next p) in
    let q2 = bypass_preview q1 n (q1.preview p) (q1.next p) in
    rw (close-port (release q2 p) n ((release q2 p).queue n).head) (
      write-Leaves q.port q2.port p
        ((bypassed-port q1 n (q1.preview p) (q1.next p)).1
          ∙ (bypassed-port q n (q.preview p) (q.next p)).0)
        x)

pub remove-Leaves : (q : Pointers) (n p : ℕ) → Leaves q (remove q n p).1
unfolding remove
remove-Leaves q n p x = elim (Bool-cases (points_to (q.port p) n)) [
  | inl e ↦ rw (e, remove) (unlink-Leaves q n p x)
  | inr e ↦ rw (e, remove) (inl refl)
]

-- The process that is removed names no port.
pub remove-free : (q : Pointers) (n p : ℕ) → q.port p ≡ some n → (remove q n p).1.port p ≡ none
unfolding remove unlink release
remove-free q n p e =
    let q1 = bypass_next q n (q.preview p) (q.next p) in
    let q2 = bypass_preview q1 n (q1.preview p) (q1.next p) in
    rw (e, remove, ==_refl n)
      (ap (λ (f : ℕ → Option ℕ). f p) (close-port (release q2 p) n ((release q2 p).queue n).head)
        ∙ write_self q2.port p none)

advance-port : (q : Pointers) (n : ℕ) (o : Option ℕ) → (advance q n o).port ≡ q.port
unfolding advance
advance-port q n none = refl
advance-port q n (some h) = refl

pub pop-Leaves : (q : Pointers) (n : ℕ) → Leaves q (pop q n).1
unfolding pop release
pop-Leaves q n x = elim (Option-cases (q.queue n).head) [
  | inl e ↦ rw (e, pop) (inl refl)
  | inr (p, e) ↦
      rw (e, pop)
        (write-Leaves q.port (advance q n (q.next p)).port p (advance-port q n (q.next p)) x)
]

release_head-Leaves :
    (q q' : Pointers) (p : ℕ) (o : Option ℕ) → q'.port ≡ q.port → Leaves q (release_head q' p o)
unfolding release_head
release_head-Leaves q q' p none e x = write-Leaves q.port q'.port p e x
release_head-Leaves q q' p (some h) e x = write-Leaves q.port q'.port p e x

pub pop_ipc-Leaves : (q : Pointers) (n : ℕ) → Leaves q (pop_ipc q n).1
unfolding pop_ipc
pop_ipc-Leaves q n x = elim (Option-cases (q.queue n).head) [
  | inl e ↦ rw (e, pop_ipc) (inl refl)
  | inr (p, e) ↦
      rw (e, pop_ipc)
        (release_head-Leaves q (advance q n (q.next p)) p (q.next p) (advance-port q n (q.next p))
          x)
]

release_head-free :
    (q : Pointers) (n p : ℕ) (rest : Option ℕ)
    → (release_head (advance q n rest) p rest).port p ≡ none
unfolding release_head advance
release_head-free q n p none = ground arith
release_head-free q n p (some h) = ground arith

pub pop_ipc-free :
    (q : Pointers) (n p : ℕ) → (q.queue n).head ≡ some p → (pop_ipc q n).1.port p ≡ none
unfolding pop_ipc
pop_ipc-free q n p e = rw (e, pop_ipc) (release_head-free q n p (q.next p))
