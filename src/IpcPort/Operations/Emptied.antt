-- ===== src/IpcPort/Operations/Emptied.antt =====
-- The loop of `ipc_port::revoke` in kernel/capability/ipc_port.cpp.
use a9n.Base.{
  ℕ, Bool, zero, suc, ◌≡◌, ◌≢◌, ◌<◌, refl, sym, ap, subst, ◌∙◌, Option, none, some, List, [], ◌∷◌,
  length, write, write-eq, write-ne, write_self, ==_false, elem, true, arith,
}
use a9n.Base.Result.{Result, ok, err}
use native.Mathlib.Decide.{ℕ_discrete}
use a9n.CapabilityTypes.{CapabilityError, fatal}
use a9n.Dll.{front}
use a9n.Hal.{Hal}
use a9n.IpcPort.{set_source_reply}
use a9n.IpcPort.Operations.{release_waiter, revoke}
use a9n.IpcQueue.{pointers, set_state, pop_ipc_queue}
use a9n.IpcQueue.Pop.{pop_ipc_queue-IsLeft}
use a9n.Kernel.{Kernel, IpcPortState, M, ◌>>◌, modify, or_else_result, fail}
use a9n.Kernel.Succeed.{bind-ok, or_else-ok}
use a9n.Process.{SourceReplyState}
use a9n.RevokedWait.{complete_revoked_wait}
use a9n.RevokedWait.Keep.{complete_revoked_wait-Keeps}
use a9n.WaitQueue.{Pointers}
use a9n.WaitQueue.Queues.{Waiters, Represents}

elem-behind : (p x : ℕ) (xs : List ℕ) → p ≢ x → elem x (p ∷ xs) ≡ true → elem x xs ≡ true
elem-behind p x xs ne m = ground (arith, ==_false p x ne, m)

module _ (smp : Bool) (hal : Hal) (move_capabilities : ℕ → ℕ → ℕ → M CapabilityError (Unit {0}))
    (this : ℕ) where
  abbrev Outcome : Type 0
  Outcome = Result (Unit {0}) CapabilityError × Kernel

  -- The rest of a round, behind the removal of the process that has waited longest.
  abbrev rest_of_round : ℕ → M CapabilityError (Unit {0})
  rest_of_round p =
      modify (set_source_reply p SourceReplyState.none none) >> complete_revoked_wait smp hal p

  release_waiter-eq :
      (k : Kernel) (p : ℕ)
      → (pop_ipc_queue this k).0 ≡ ok p
      → release_waiter smp hal move_capabilities this k ≡ rest_of_round p (pop_ipc_queue this k).1
  release_waiter-eq k p popped =
      let converted = or_else-ok (pop_ipc_queue this k) p (λ e. fail fatal) popped in
      bind-ok (or_else_result (pop_ipc_queue this k) (λ e. fail fatal)) p rest_of_round
        (ap (λ (out : Result ℕ CapabilityError × Kernel). out.0) converted)
      ∙ ap (λ (out : Result ℕ CapabilityError × Kernel). rest_of_round p out.1) converted

  record IsReleased (k : Kernel) (w : Waiters) (p : ℕ) (xs : List ℕ) (k' : Kernel) : Type 0 where
    pub represents : Represents (pointers k') (write w this xs)
    pub replies :
        k'.procs.source_reply_state ≡ write (k.procs.source_reply_state) p SourceReplyState.none

  release_waiter-IsReleased :
      (k : Kernel) (w : Waiters) (p : ℕ) (xs : List ℕ)
      → Represents (pointers k) w
      → w this ≡ p ∷ xs
      → IsReleased k w p xs (release_waiter smp hal move_capabilities this k).1
  release_waiter-IsReleased k w p xs old waiting =
      let left = pop_ipc_queue-IsLeft k w this p xs old waiting in
      let k1 = (pop_ipc_queue this k).1 in
      let k2 = set_source_reply p SourceReplyState.none none k1 in
      let same = ((complete_revoked_wait-Keeps smp hal p).keep k2).same in
      rw (release_waiter-eq k p left.result) (record {
        represents =
            subst (λ (q : Pointers). Represents q (write w this xs))
              (sym (ap (λ (a : Kernel). pointers a) same)) left.represents;
        replies =
            ap (λ (a : Kernel). a.procs.source_reply_state) same
            ∙ ap (λ (f : ℕ → SourceReplyState). write f p SourceReplyState.none) left.replies;
      })

  -- The loop has ended: with an error, or with nobody waiting. A process without a reply state gets none,
  -- and the processes of `xs` lose theirs.
  pub record IsEmptied (k : Kernel) (xs : List ℕ) (out : Option Outcome) : Type 0 where
    pub last : Outcome
    pub ends : out ≡ some last
    pub waiters : Waiters
    pub represents : Represents (pointers last.1) waiters
    pub empty : last.0 ≡ ok tt → waiters this ≡ []
    pub reset : last.0 ≡ ok tt → last.1.ipc_ports.state this ≡ IpcPortState.wait
    pub quiet :
        (p : ℕ)
        → k.procs.source_reply_state p ≡ SourceReplyState.none
        → last.1.procs.source_reply_state p ≡ SourceReplyState.none
    pub forgotten :
        last.0 ≡ ok tt
        → (p : ℕ) → elem p xs ≡ true
        → last.1.procs.source_reply_state p ≡ SourceReplyState.none

  -- A round more in front.
  extended-IsEmptied :
      (k : Kernel) (w : Waiters) (p : ℕ) (xs : List ℕ) (k' : Kernel) (out : Option Outcome)
      → IsReleased k w p xs k'
      → IsEmptied k' xs out
      → IsEmptied k (p ∷ xs) out
  extended-IsEmptied k w p xs k' out round later =
      let at = λ (x : ℕ). ap (λ (f : ℕ → SourceReplyState). f x) round.replies in
      record {
        last = later.last;
        ends = later.ends;
        waiters = later.waiters;
        represents = later.represents;
        empty = later.empty;
        reset = later.reset;
        quiet = λ x e. later.quiet x (elim (ℕ_discrete p x) [
          | yes same ↦ at x ∙ write-eq (k.procs.source_reply_state) p _ same
          | no ne ↦ at x ∙ write-ne (k.procs.source_reply_state) p _ ne ∙ e
        ]);
        forgotten = λ done x m. elim (ℕ_discrete p x) [
          | yes same ↦ later.quiet x (at x ∙ write-eq (k.procs.source_reply_state) p _ same)
          | no ne ↦ later.forgotten done x (elem-behind p x xs ne m)
        ];
      }

  revoke-loop :
      (xs : List ℕ) (fuel : ℕ) (r : Result (Unit {0}) CapabilityError) (k : Kernel) (w : Waiters)
      → Represents (pointers k) w
      → w this ≡ xs
      → length xs < fuel
      → IsEmptied k xs (revoke smp hal move_capabilities fuel this (r, k))
  unfolding revoke
  revoke-loop xs zero r k w old waits enough = absurd (omega arith)
  revoke-loop xs (suc fuel) (err e) k w old waits enough = record {
    last = (err e, k);
    ends = refl;
    waiters = w;
    represents = old;
    empty = λ h. absurd (ground arith);
    reset = λ h. absurd (ground arith);
    quiet = λ p e. e;
    forgotten = λ h. absurd (ground arith);
  }
  revoke-loop [] (suc fuel) (ok _) k w old waits enough =
      let head = (old.queues this).head ∙ ap (λ (l : List ℕ). front l none) waits in
      rw head (record {
        last = (ok tt, set_state this IpcPortState.wait k);
        ends = refl;
        waiters = w;
        represents = old;
        empty = λ h. waits;
        reset = λ h. write_self (k.ipc_ports.state) this _;
        quiet = λ p e. e;
        forgotten = λ h p m. absurd (ground (arith, m));
      })
  revoke-loop (p ∷ xs) (suc fuel) (ok _) k w old waits enough =
      let head = (old.queues this).head ∙ ap (λ (l : List ℕ). front l none) waits in
      let round = release_waiter-IsReleased k w p xs old waits in
      let out = release_waiter smp hal move_capabilities this k in
      rw head (
        extended-IsEmptied k w p xs out.1 _ round (
          revoke-loop xs fuel out.0 out.1 (write w this xs) round.represents (write_self w this xs)
            (omega arith)))

  -- The loop ends, on one call more than there are waiters, whatever the hardware answers. With no error
  -- nobody waits at the port, its state is WAIT, and no process that waited there still waits for a
  -- reply. In any case the queues of all ports stay in order, and no process that waited for no reply
  -- does so afterwards.
  pub revoke-IsEmptied :
      (fuel : ℕ) (k : Kernel) (w : Waiters)
      → Represents (pointers k) w
      → length (w this) < fuel
      → IsEmptied k (w this) (revoke smp hal move_capabilities fuel this (ok tt, k))
  revoke-IsEmptied fuel k w old enough = revoke-loop (w this) fuel (ok tt) k w old refl enough
