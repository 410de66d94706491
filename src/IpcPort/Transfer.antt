-- ===== src/IpcPort/Transfer.antt =====
-- kernel/capability/ipc_port.cpp: the transfer of capabilities between processes. `lookup` is the traversal of
-- a descriptor from the root slot of a process.
pub mod Keep
use a9n.Base.{
  ℕ, zero, suc, ◌+◌, ◌%◌, Bool, true, false, not, ◌||◌, Option, none, some, ◌==◌, if◌then◌else◌,
}
use a9n.Base.Result.{Result, ok, err, KernelError}
use a9n.Calculate.{word_mod}
use a9n.CapabilityTypes.{
  CapabilityError, LookupError, type_code, illegal_operation, invalid_argument,
}
use a9n.Kernel.{Kernel, IpcBuffer, M, ◌>>=◌, ◌>>◌, return, fail, or_else}
use a9n.Node.{retrieve_slot}
use a9n.Slot.{Slots, try_move_capability_slot}

abbrev pub put_slots :
    Result (Unit {0}) KernelError × Slots → Kernel → Result (Unit {0}) KernelError × Kernel
put_slots (r, s) k = (r, record k { slots = s })

-- A call on the slots.
abbrev pub on_slots : (Slots → Result (Unit {0}) KernelError × Slots) → M KernelError (Unit {0})
on_slots f k = put_slots (f (k.slots)) k

-- The buffer of a process that has its frame. NODE is the type 2, and FRAME the type 6.
abbrev pub buffer_of : Kernel → ℕ → Option ℕ
buffer_of k p =
    if type_code (k.slots.type (k.procs.buffer_frame p)) == 6 then k.procs.buffer p else none

abbrev pub argument : {A : Type 0} → Result A LookupError → M CapabilityError A
argument (ok a) = return a
argument (err e) = fail invalid_argument

module _ (lookup : Kernel → ℕ → ℕ → Result ℕ LookupError) where
  -- The capability that the descriptor `i` of the source names, to the slot `i` behind the index.
  move_one : ℕ → ℕ → ℕ → ℕ → ℕ → M CapabilityError (Unit {0})
  move_one node offset source b i k =
      (do
        source_slot ← argument (lookup k source ((k.ipc_buffers b).transfer_source_descriptors i))
        destination_slot ← argument (retrieve_slot (k.nodes node) ((i + offset) % word_mod))
        or_else (on_slots (λ s. try_move_capability_slot s destination_slot source_slot))
            (λ e. fail invalid_argument))
        k

  -- `for (auto i = 0; …)`, over the transfers left.
  move_rest : ℕ → ℕ → ℕ → ℕ → ℕ → ℕ → M CapabilityError (Unit {0})
  unfolding move_one
  move_rest zero node offset source b i = return tt
  move_rest (suc n) node offset source b i =
      move_one node offset source b i >> move_rest n node offset source b (suc i)

  -- Into the node that the slot `p` holds.
  move_into : ℕ → ℕ → ℕ → ℕ → ℕ → M CapabilityError (Unit {0})
  unfolding move_rest
  move_into count source a b p k = elim (k.slots.component p) [
    | none ↦ (err invalid_argument, k)
    | some node ↦
        if type_code (k.slots.type p) == 2
        then move_rest count node ((k.ipc_buffers a).transfer_destination_index) source b 0 k
        else (err invalid_argument, k)
  ]

  move_between : ℕ → ℕ → ℕ → Option ℕ → Option ℕ → M CapabilityError (Unit {0})
  unfolding move_into
  move_between count destination source (some a) (some b) k =
      (argument (lookup k destination ((k.ipc_buffers a).transfer_destination_node))
          >>= move_into count source a b)
        k
  move_between count destination source _ _ k = (err illegal_operation, k)

  pub move_capabilities : ℕ → ℕ → ℕ → M CapabilityError (Unit {0})
  unfolding move_between
  move_capabilities destination source count k =
      if count == 0
      then (ok tt, k)
      else move_between count destination source (buffer_of k destination) (buffer_of k source) k
