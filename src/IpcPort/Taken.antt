-- ===== src/IpcPort/Taken.antt =====
-- kernel/capability/ipc_port.cpp: a process that is taken from a wait queue, and the reply relation.
use a9n.Base.{
  ℕ, ◌≡◌, refl, sym, ap, subst, ◌∙◌, Option, none, List, ◌∷◌, inl, inr, List-cases, write, arith,
  elem, true, elem-here,
}
use a9n.Base.Result.{Result, ok, err, KernelError}
use a9n.CapabilityTypes.{CapabilityError}
use a9n.Dll.{front}
use a9n.IpcPort.Linked.{Linked, fewer-Linked, Free, Idle, Leads}
use a9n.IpcPort.Quiet.{Relation, relation}
use a9n.IpcQueue.{pointers, pop_ipc_queue}
use a9n.IpcQueue.Leave.{pop_ipc_queue-without_ipc, pop_ipc_queue-port, pop_ipc_queue-free}
use a9n.IpcQueue.Pop.{pop_ipc_queue-IsLeft, pop_ipc_queue-none}
use a9n.Kernel.{Kernel, M, ◌>>=◌, convert_kernel}
use a9n.WaitQueue.Queues.{Waiters, Represents}

module _ (n : ℕ) (k : Kernel) (old : Linked (relation k)) where
  abbrev after : Kernel
  after = (pop_ipc_queue n k).1

  same-server : (relation after).server ≡ (relation k).server
  same-server = ap (λ (a : Kernel). a.procs.source_reply_target) (pop_ipc_queue-without_ipc n k)

  same-client : (relation after).client ≡ (relation k).client
  same-client =
      ap (λ (a : Kernel). a.procs.destination_reply_target) (pop_ipc_queue-without_ipc n k)

  represented-Linked : (w : Waiters) → Represents (pointers after) w → Linked (relation after)
  represented-Linked w r =
      fewer-Linked (relation k) (relation after) w old r same-server same-client
        (pop_ipc_queue-port n k)

  pub pop-Linked : Linked (relation after)
  pop-Linked = elim (List-cases (old.waiters n)) [
    | inl empty ↦
        subst (λ (out : Result ℕ KernelError × Kernel). Linked (relation out.1))
          (sym (pop_ipc_queue-none k old.waiters n old.represents empty)) old
    | inr (p, xs, waiting) ↦
        represented-Linked (write old.waiters n xs)
          (pop_ipc_queue-IsLeft k old.waiters n p xs old.represents waiting).represents
  ]

  pub pop-Free : (p : ℕ) → Free (relation k) p → Free (relation after) p
  pop-Free p free = record {
    server = ap (λ (f : ℕ → Option ℕ). f p) same-server ∙ free.server;
    port = elim (pop_ipc_queue-port n k p) [ inl e ↦ e ∙ free.port | inr e ↦ e ];
  }

  -- The process that is taken waits at no port any more.
  taken-Free : (p : ℕ) (xs : List ℕ) → old.waiters n ≡ p ∷ xs → Free (relation after) p
  taken-Free p xs waiting =
      let held = old.represents.queues n in
      let named =
        held.waits p (subst (λ (l : List ℕ). elem p l ≡ true) (sym waiting) (elem-here p xs)) in
      record {
        server =
            ap (λ (f : ℕ → Option ℕ). f p) same-server
            ∙ old.waits p (λ e. absurd (ground (arith, named, e)));
        port = pop_ipc_queue-free n k p (held.head ∙ ap (λ (l : List ℕ). front l none) waiting);
      }

  pub taken-Idle : (p : ℕ) → (pop_ipc_queue n k).0 ≡ ok p → Idle p (relation after)
  taken-Idle p e = elim (List-cases (old.waiters n)) [
    | inl empty ↦
        let failed =
          ap (λ (out : Result ℕ KernelError × Kernel). out.0)
            (pop_ipc_queue-none k old.waiters n old.represents empty) in
        absurd (ground (arith, failed, e))
    | inr (x, xs, waiting) ↦
        let left = pop_ipc_queue-IsLeft k old.waiters n x xs old.represents waiting in
        let same : x ≡ p = ground (arith, left.result, e) in
        record {
          linked = pop-Linked;
          free = subst (λ (y : ℕ). Free (relation after) y) same (taken-Free x xs waiting);
        }
  ]

module _ (f : ℕ → M CapabilityError (Unit {0})) where
  bind_taken :
      (P : ℕ → Relation → Type 0) (out : Result ℕ KernelError × Kernel)
      → Linked (relation out.1)
      → ((p : ℕ) → out.0 ≡ ok p → P p (relation out.1) × Leads (P p) Linked (f p))
      → Linked (relation ((convert_kernel (λ _. out) >>= f) out.1).1)
  bind_taken P (ok p, k) linked step = (step p refl).1.lead k (step p refl).0
  bind_taken P (err e, k) linked step = linked

  -- What follows knows of the process taken that it is idle, or of the caller.
  pub taken-Leads :
      (n : ℕ)
      → ((p : ℕ) → Leads (Idle p) Linked (f p))
      → Leads Linked Linked (convert_kernel (pop_ipc_queue n) >>= f)
  taken-Leads n step = record {
    lead = λ k old.
        bind_taken Idle (pop_ipc_queue n k) (pop-Linked n k old)
          (λ p e. (taken-Idle n k old p e, step p));
  }

  pub called-Leads :
      (n owner : ℕ)
      → ((p : ℕ) → Leads (Idle owner) Linked (f p))
      → Leads (Idle owner) Linked (convert_kernel (pop_ipc_queue n) >>= f)
  called-Leads n owner step = record {
    lead = λ k old.
        bind_taken (λ _. Idle owner) (pop_ipc_queue n k) (pop-Linked n k old.linked)
          (λ p e. (
            record {
              linked = pop-Linked n k old.linked;
              free = pop-Free n k old.linked owner old.free;
            },
            step p,
          ));
  }
