-- ===== src/Notification/Revocation/Emptied.antt =====
-- The end of the loop of `notification_port::revoke`.
use a9n.Base.{
  ℕ, Bool, zero, suc, ◌≡◌, ◌<◌, refl, ap, ◌∙◌, Option, none, some, List, [], ◌∷◌, length, write,
  write_self, arith,
}
use a9n.Base.Result.{Result, ok, err}
use a9n.CapabilityTypes.{CapabilityError, fatal}
use a9n.Dll.{front}
use a9n.Hal.{Hal}
use a9n.Kernel.{Kernel, or_else_result, fail}
use a9n.Kernel.Succeed.{bind-ok, or_else-ok}
use a9n.Notification.{pop_notification_queue}
use a9n.Notification.Queue.{Waiting, outside-Waiting, pop-Waiting}
use a9n.Notification.Revocation.{release_waiter, revoke_waiters}
use a9n.RevokedWait.{complete_revoked_wait}
use a9n.RevokedWait.Keep.{complete_revoked_wait-Keeps}
use a9n.WaitQueue.Queues.{Waiters}

module _ (smp : Bool) (hal : Hal) (this : ℕ) where
  abbrev Outcome : Type 0
  Outcome = Result (Unit {0}) CapabilityError × Kernel

  release_waiter-eq :
      (k : Kernel) (p : ℕ)
      → (pop_notification_queue this k).0 ≡ ok p
      → release_waiter smp hal this k
        ≡ complete_revoked_wait smp hal p (pop_notification_queue this k).1
  release_waiter-eq k p popped =
      bind-ok (or_else_result (pop_notification_queue this k) (λ e. fail fatal)) p
        (complete_revoked_wait smp hal)
        (ap (λ (out : Result ℕ CapabilityError × Kernel). out.0)
          (or_else-ok (pop_notification_queue this k) p (λ e. fail fatal) popped))
      ∙ ap (λ (out : Result ℕ CapabilityError × Kernel). complete_revoked_wait smp hal p out.1)
          (or_else-ok (pop_notification_queue this k) p (λ e. fail fatal) popped)

  release_waiter-Waiting :
      (k : Kernel) (w : Waiters) (p : ℕ) (xs : List ℕ)
      → Waiting k w
      → w this ≡ p ∷ xs
      → Waiting (release_waiter smp hal this k).1 (write w this xs)
  release_waiter-Waiting k w p xs old waiting =
      let popped = pop-Waiting k w this old p xs waiting in
      let k' = (pop_notification_queue this k).1 in
      rw (release_waiter-eq k p popped.0)
        (outside-Waiting (((complete_revoked_wait-Keeps smp hal p).keep k').same) popped.1)

  -- The loop has ended: with an error, or with nobody waiting.
  pub record IsEmptied (out : Option Outcome) : Type 0 where
    pub last : Outcome
    pub ends : out ≡ some last
    pub waiters : Waiters
    pub waiting : Waiting last.1 waiters
    pub empty : last.0 ≡ ok tt → waiters this ≡ []

  loop-IsEmptied :
      (xs : List ℕ) (fuel : ℕ) (out : Outcome) (w : Waiters)
      → Waiting out.1 w
      → w this ≡ xs
      → length xs < fuel
      → IsEmptied (revoke_waiters smp hal fuel this out)
  unfolding revoke_waiters
  loop-IsEmptied xs zero out w old waits enough = absurd (omega arith)
  loop-IsEmptied xs (suc fuel) (err e, k) w old waits enough = record {
    last = (err e, k);
    ends = refl;
    waiters = w;
    waiting = old;
    empty = λ h. absurd (ground arith);
  }
  loop-IsEmptied [] (suc fuel) (ok _, k) w old waits enough =
      let head = (old.represents.queues this).head ∙ ap (λ (l : List ℕ). front l none) waits in
      rw head
        (record { last = (ok tt, k); ends = refl; waiters = w; waiting = old; empty = λ h. waits })
  loop-IsEmptied (p ∷ xs) (suc fuel) (ok _, k) w old waits enough =
      let head = (old.represents.queues this).head ∙ ap (λ (l : List ℕ). front l none) waits in
      rw head (
        loop-IsEmptied xs fuel (release_waiter smp hal this k) (write w this xs)
          (release_waiter-Waiting k w p xs old waits) (write_self w this xs) (omega arith))

  -- The loop ends, on one call more than there are waiters, whatever the hardware answers. With no error
  -- it leaves nobody waiting at the port; the queues of all ports stay in order in any case.
  pub revoke_waiters-IsEmptied :
      (fuel : ℕ) (k : Kernel) (w : Waiters)
      → Waiting k w
      → length (w this) < fuel
      → IsEmptied (revoke_waiters smp hal fuel this (ok tt, k))
  revoke_waiters-IsEmptied fuel k w old enough =
      loop-IsEmptied (w this) fuel (ok tt, k) w old refl enough
