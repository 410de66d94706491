-- ===== src/WaitQueue/Equal.antt =====
-- The shorter `pop_ipc_queue` against `pop_notification_queue`.
use a9n.Base.{
  ℕ, ◌≡◌, refl, sym, ap, subst, ◌∙◌, Option, none, some, List, arith, write, write-eq, write-ne,
  fun_ext, inl, inr, List-cases,
}
use a9n.Base.Result.{ok}
use native.Mathlib.Decide.{ℕ_discrete}
use a9n.WaitQueue.{Pointers, pop, pop_ipc, advance, release, release_head}
use a9n.WaitQueue.Queues.{Waiters, Holds, Represents}

pub write_same : (f : ℕ → Option ℕ) (p : ℕ) (v : Option ℕ) → f p ≡ v → write f p v ≡ f
write_same f p v e = fun_ext (λ x. elim (ℕ_discrete p x) [
  | yes same ↦ write-eq f p v same ∙ sym e ∙ ap f same
  | no ne ↦ write-ne f p v ne
])

release-release_head :
    (q : Pointers) (n p : ℕ) (rest : Option ℕ)
    → q.next p ≡ rest
    → q.preview p ≡ none
    → release_head (advance q n rest) p rest ≡ release (advance q n rest) p
unfolding release release_head advance
release-release_head q n p none e e' =
    ap
      (λ (f : ℕ → Option ℕ). record (release (advance q n none) p) {
        next = f;
        preview = q.preview;
      })
      (sym (write_same q.next p none e))
    ∙ ap (λ (f : ℕ → Option ℕ). record (release (advance q n none) p) { preview = f })
        (sym (write_same q.preview p none e'))
release-release_head q n p (some h) e e' =
    let cleared : write q.preview h none p ≡ none = ground (arith, e') in
    ap (λ (f : ℕ → Option ℕ). record (release (advance q n (some h)) p) { preview = f })
      (sym (write_same (write q.preview h none) p none cleared))

-- `pop_ipc_queue` writes fewer pointers, and leaves every pointer as `pop_notification_queue` does,
-- where the queues are what they should be.
pub pop_ipc-pop : (q : Pointers) (w : Waiters) (n : ℕ) → Represents q w → pop_ipc q n ≡ pop q n
unfolding pop pop_ipc
pop_ipc-pop q w n old = elim (List-cases (w n)) [
  | inl empty ↦
      let head = (subst (λ (l : List ℕ). Holds q n l) empty (old.queues n)).head in
      rw (head, pop, pop_ipc) refl
  | inr (p, xs, waiting) ↦
      let first = subst (λ (l : List ℕ). Holds q n l) waiting (old.queues n) in
      rw (first.head, pop, pop_ipc)
        (ap (λ (s : Pointers). (ok p, s))
          (release-release_head q n p (q.next p) refl first.links.0))
]
