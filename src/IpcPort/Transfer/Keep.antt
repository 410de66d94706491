-- ===== src/IpcPort/Transfer/Keep.antt =====
-- kernel/capability/ipc_port.cpp: the transfer of capabilities changes slots alone.
use a9n.Base.{
  ℕ, zero, suc, ◌+◌, ◌%◌, ◌≡◌, refl, Bool, true, false, Option, none, some, ◌==◌, if◌then◌else◌,
}
use a9n.Base.Result.{Result, ok, err, KernelError}
use a9n.Calculate.{word_mod}
use a9n.CapabilityTypes.{LookupError, SlotData, type_code}
use a9n.Hal.{Hal}
use a9n.IpcPort.Linked.{Linked, Idle}
use a9n.IpcPort.Operations.{execute}
use a9n.IpcPort.Operations.Order.{execute-Linked}
use a9n.IpcPort.Quiet.{
  relation, Quiet, change-Quiet, return-Quiet, fail-Quiet, >>=-Quiet, >>-Quiet, or_else-Quiet,
}
use a9n.IpcPort.Transfer.{
  put_slots, on_slots, buffer_of, argument, move_one, move_rest, move_into, move_between,
  move_capabilities,
}
use a9n.Kernel.{Kernel, M}
use a9n.Node.{retrieve_slot}
use a9n.Slot.{Slots, try_move_capability_slot}

put_slots-relation :
    (out : Result (Unit {0}) KernelError × Slots) (k : Kernel)
    → relation (put_slots out k).1 ≡ relation k
put_slots-relation (r, s) k = refl

argument-Quiet : {A : Type 0} (r : Result A LookupError) → Quiet (argument r)
argument-Quiet (ok a) = return-Quiet a
argument-Quiet (err e) = fail-Quiet _

-- An outcome that keeps the relation.
record Same {E A : Type 0} (k : Kernel) (out : Result A E × Kernel) : Type 0 where
  pub same : relation out.1 ≡ relation k

Quiet-Same : {E A : Type 0} {m : M E A} → Quiet m → (k : Kernel) → Same k (m k)
Quiet-Same km k = record { same = (km.keep (relation k)).hold k refl }

Same-Quiet : {E A : Type 0} {m : M E A} → ((k : Kernel) → Same k (m k)) → Quiet m
Same-Quiet {m = m} kept = change-Quiet m (λ k. (kept k).same)

if-Same :
    {E A : Type 0} (k : Kernel) (b : Bool) {x y : Result A E × Kernel}
    → Same k x
    → Same k y
    → Same k (if b then x else y)
if-Same k true hx hy = hx
if-Same k false hx hy = hy

module _ (lookup : Kernel → ℕ → ℕ → Result ℕ LookupError) where
  move_one-Quiet : (node offset source b i : ℕ) → Quiet (move_one lookup node offset source b i)
  unfolding move_one
  move_one-Quiet node offset source b i = Same-Quiet (λ k.
      Quiet-Same
        (>>=-Quiet
          (argument-Quiet (lookup k source ((k.ipc_buffers b).transfer_source_descriptors i)))
          (λ p.
            >>=-Quiet (argument-Quiet (retrieve_slot (k.nodes node) ((i + offset) % word_mod)))
              (λ d.
                or_else-Quiet
                  (change-Quiet (on_slots (λ s. try_move_capability_slot s d p))
                    (λ k'. put_slots-relation (try_move_capability_slot (k'.slots) d p) k'))
                  (λ e. fail-Quiet _))))
        k)

  move_rest-Quiet :
      (n node offset source b i : ℕ) → Quiet (move_rest lookup n node offset source b i)
  unfolding move_rest
  move_rest-Quiet zero node offset source b i = return-Quiet tt
  move_rest-Quiet (suc n) node offset source b i =
      >>-Quiet (move_one-Quiet node offset source b i)
        (move_rest-Quiet n node offset source b (suc i))

  into-Same :
      (count source a b p : ℕ) (k : Kernel) (o : Option ℕ)
      → k.slots.component p ≡ o
      → Same k (move_into lookup count source a b p k)
  unfolding move_into
  into-Same count source a b p k none e = rw (e, move_into) (record { same = refl })
  into-Same count source a b p k (some node) e =
      rw (e, move_into)
        (if-Same k (type_code (k.slots.type p) == 2)
          (Quiet-Same
            (move_rest-Quiet count node ((k.ipc_buffers a).transfer_destination_index) source b 0)
            k)
          (record { same = refl }))

  between-Same :
      (count destination source : ℕ) (x y : Option ℕ) (k : Kernel)
      → Same k (move_between lookup count destination source x y k)
  unfolding move_between
  between-Same count destination source (some a) (some b) k =
      Quiet-Same
        (>>=-Quiet
          (argument-Quiet (lookup k destination ((k.ipc_buffers a).transfer_destination_node)))
          (λ p. Same-Quiet (λ k'. into-Same count source a b p k' (k'.slots.component p) refl)))
        k
  between-Same count destination source none y k = record { same = refl }
  between-Same count destination source (some a) none k = record { same = refl }

  pub move_capabilities-Quiet :
      (destination source count : ℕ) → Quiet (move_capabilities lookup destination source count)
  unfolding move_capabilities
  move_capabilities-Quiet destination source count = Same-Quiet (λ k.
      if-Same k (count == 0) (record { same = refl })
        (between-Same count destination source (buffer_of k destination) (buffer_of k source) k))

  -- Every operation of a running process on a port, capabilities transferred, with whatever result,
  -- leaves the wait queues of all ports intact and the reply relation in order: the process that a
  -- server owes a reply waits for that server, and a process that waits at a port has no server yet.
  pub execute-InOrder :
      (smp : Bool) (hal : Hal) (unset : SlotData) (this owner self : ℕ) (k : Kernel)
      → Idle owner (relation k)
      → Linked (relation (execute smp hal (move_capabilities lookup) unset this owner self k).1)
  execute-InOrder smp hal unset this owner self k old =
      execute-Linked smp hal (move_capabilities lookup) move_capabilities-Quiet this owner self
        unset k old
