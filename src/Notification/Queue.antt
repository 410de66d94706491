-- ===== src/Notification/Queue.antt =====
-- The wait queues of the notification ports: what they represent, with the state of each port.
use a9n.Base.{
  ℕ, ◌≡◌, ◌≢◌, refl, sym, ap, subst, ◌∙◌, Option, none, some, List, [], ◌∷◌, ◌++◌, write, write-ne,
  write_self, ==_iff, elem, true, ==_false, erase, arith,
}
use a9n.Base.Result.{Result, ok, err, KernelError, no_such_address}
use native.Mathlib.Decide.{ℕ_discrete}
use a9n.Dll.{front}
use a9n.Kernel.{Kernel, NotificationPortState}
use a9n.Manager.Frame.{outside}
use a9n.Notification.{
  pointers, put_pointers, set_state, settle, after_leave, pop_notification_queue,
  remove_notification_queue,
}
use a9n.WaitQueue.{Pointers, push, pop, remove}
use a9n.WaitQueue.Queues.{Waiters, Represents}
use a9n.WaitQueue.Push.{enqueue, push-Represents}
use a9n.WaitQueue.Pop.{pop-Represents, pop-none as pop-empty}
use a9n.WaitQueue.Remove.{remove-Represents}

-- READY_TO_WAKE exactly where a process waits.
abbrev pub state_of : List ℕ → NotificationPortState
state_of [] = NotificationPortState.wait
state_of (x ∷ xs) = NotificationPortState.ready_to_wake

pub record Waiting (k : Kernel) (w : Waiters) : Type 0 where
  pub represents : Represents (pointers k) w
  pub state : (n : ℕ) → k.notification_ports.state n ≡ state_of (w n)

-- What scheduling leaves alone keeps the queues.
pub outside-Waiting :
    {k k' : Kernel} {w : Waiters} → outside k' ≡ outside k → Waiting k w → Waiting k' w
outside-Waiting {k} {k'} {w} e old = record {
  represents =
      subst (λ (q : Pointers). Represents q w) (sym (ap (λ (a : Kernel). pointers a) e))
        old.represents;
  state = λ n. ap (λ (a : Kernel). a.notification_ports.state n) e ∙ old.state n;
}

state_of-push :
    (xs : List ℕ) (p : ℕ) → state_of (xs ++ p ∷ []) ≡ NotificationPortState.ready_to_wake
state_of-push [] p = refl
state_of-push (x ∷ xs) p = refl

state_of-elem :
    (p : ℕ) (xs : List ℕ) → elem p xs ≡ true → state_of xs ≡ NotificationPortState.ready_to_wake
state_of-elem p [] m = absurd (ground arith)
state_of-elem p (x ∷ xs) m = refl

state-write :
    (k : Kernel) (w : Waiters) (n : ℕ) (xs : List ℕ) (f : ℕ → NotificationPortState)
    → Waiting k w
    → f n ≡ state_of xs
    → ((m : ℕ) → n ≢ m → f m ≡ k.notification_ports.state m)
    → (m : ℕ) → f m ≡ state_of (write w n xs m)
state-write k w n xs f old here there m = elim (ℕ_discrete n m) [
  | yes e ↦ rw ((==_iff n m).1 e) (ap f (sym e) ∙ here)
  | no ne ↦ rw (==_false n m ne) (there m ne ∙ old.state m)
]

module _ (k : Kernel) (w : Waiters) (n : ℕ) (old : Waiting k w) where
  pub pushed-Waiting :
      (p : ℕ)
      → k.procs.current_notification_port p ≡ none
      → Waiting
          (put_pointers (push (pointers k) n p) (set_state n NotificationPortState.ready_to_wake k))
          (enqueue w n p)
  pushed-Waiting p free = record {
    represents = push-Represents (pointers k) w n p old.represents free;
    state =
        state-write k w n (w n ++ p ∷ []) _ old
          (write_self (k.notification_ports.state) n _ ∙ sym (state_of-push (w n) p))
          (λ m ne. write-ne (k.notification_ports.state) n _ ne);
  }

  -- A queue of someone that has become `xs`.
  left-Waiting :
      (q : Pointers) (xs : List ℕ)
      → Represents q (write w n xs)
      → k.notification_ports.state n ≡ NotificationPortState.ready_to_wake
      → (o : Option ℕ) → o ≡ front xs none
      → Waiting (settle n o (put_pointers q k)) (write w n xs)
  left-Waiting q [] r ready none e = record {
    represents = r;
    state =
        state-write k w n [] _ old (write_self (k.notification_ports.state) n _)
          (λ m ne. write-ne (k.notification_ports.state) n _ ne);
  }
  left-Waiting q [] r ready (some h) e = absurd (ground arith)
  left-Waiting q (x ∷ xs) r ready none e = absurd (ground arith)
  left-Waiting q (x ∷ xs) r ready (some h) e = record {
    represents = r;
    state = state-write k w n (x ∷ xs) _ old ready (λ m ne. refl);
  }

  left-head :
      (q : Pointers) (xs : List ℕ) → Represents q (write w n xs) → (q.queue n).head ≡ front xs none
  left-head q xs r = (r.queues n).head ∙ ap (λ (l : List ℕ). front l none) (write_self w n xs)

  after_leave-Waiting :
      {A : Type 0} (a : A) (xs : List ℕ) (out : Result A KernelError × Pointers)
      → (out.0 ≡ ok a) × Represents out.1 (write w n xs)
      → k.notification_ports.state n ≡ NotificationPortState.ready_to_wake
      → ((after_leave n out k).0 ≡ ok a) × Waiting (after_leave n out k).1 (write w n xs)
  after_leave-Waiting a xs (ok b, q) done ready =
      (done.0, left-Waiting q xs done.1 ready (q.queue n).head (left-head q xs done.1))
  after_leave-Waiting a xs (err x, q) done ready = absurd (ground (arith, done.0))

  -- The process that has waited longest leaves, and the state follows.
  pub pop-Waiting :
      (p : ℕ) (xs : List ℕ)
      → w n ≡ p ∷ xs
      → ((pop_notification_queue n k).0 ≡ ok p)
        × Waiting (pop_notification_queue n k).1 (write w n xs)
  unfolding pop_notification_queue
  pop-Waiting p xs waiting =
      after_leave-Waiting p xs (pop (pointers k) n)
        (pop-Represents (pointers k) w n p xs old.represents waiting)
        (old.state n ∙ ap state_of waiting)

  -- Any process that waits at the port can leave.
  pub remove-Waiting :
      (p : ℕ)
      → k.procs.current_notification_port p ≡ some n
      → ((remove_notification_queue n p k).0 ≡ ok tt)
        × Waiting (remove_notification_queue n p k).1 (write w n (erase p (w n)))
  unfolding remove_notification_queue
  remove-Waiting p waiting =
      after_leave-Waiting tt (erase p (w n)) (remove (pointers k) n p)
        (remove-Represents (pointers k) w n p old.represents waiting)
        (old.state n ∙ state_of-elem p (w n) ((old.represents.placed p).listed n waiting))

  -- Where nobody waits, nothing happens.
  pub pop-none : w n ≡ [] → pop_notification_queue n k ≡ (err no_such_address, k)
  unfolding pop_notification_queue
  pop-none empty =
      let head = (old.represents.queues n).head ∙ ap (λ (l : List ℕ). front l none) empty in
      ap (λ (out : Result ℕ KernelError × Pointers). after_leave n out k)
        (pop-empty (pointers k) n head)
