-- ===== src/Node/Rights.antt =====
-- The rights of slots under the operations of capability_node.cpp.
use a9n.Base.{
  ℕ, ◌≡◌, ◌≢◌, ◌<◌, ◌%◌, ◌∙◌, Option, arith, inl, inr, Bool-cases, ==_iff, ◌==◌, ◌&&◌, bit_and,
  write_self, write-ne, not,
}
use a9n.Base.Bits.{bit_and_self, bit_and-le}
use native.Mathlib.Nat.{mod-eq_of_lt}
use a9n.Base.Result.{Result, ok, err}
use a9n.CapabilityTypes.{CapabilityError, LookupError, is_none}
use a9n.Slot.{Slots, try_copy_capability_slot, try_move_capability_slot}
use a9n.Slot.Rights.{
  try_copy-rights, try_copy-rights_other, try_move-rights, try_move-rights_other, try_copy-runs,
  try_move-runs, try_copy-occupied, try_move-occupied,
}
use a9n.Node.{
  Node, Outcome, Transfer, transfer, operation_transfer, operation_demote, retrieve_slot,
  register_or_zero, may_use, may_copy, minted, convert_kernel,
}

-- What a node operation may do to the rights: give slot `d` rights that slot `p` had, with the rights of
-- all slots but these two kept, or refuse with nothing changed.
pub data Attenuated (s : Slots) (d p : ℕ) : Outcome → Type 0 where
  gives :
      {s' : Slots}
      → bit_and (s.rights p) (s'.rights d) ≡ s'.rights d
      → ((q : ℕ) → d ≢ q → p ≢ q → s'.rights q ≡ s.rights q)
      → Attenuated s d p (ok tt, s')
  refuses : (e : CapabilityError) → Attenuated s d p (err e, s)

module _ (s : Slots) (d p : ℕ) (apart : d ≢ p) where
  move-Attenuated : Attenuated s d p (convert_kernel (try_move_capability_slot s d p))
  move-Attenuated = elim (Bool-cases (is_none (s.type d))) [
    | inl free ↦ rw (try_move-runs s d p free) (
        gives (rw (try_move-rights s d p apart free) (bit_and_self (s.rights p)))
          (try_move-rights_other s d p apart free))
    | inr taken ↦ rw (try_move-occupied s d p taken) (refuses _)
  ]

  copy-Attenuated : Attenuated s d p (convert_kernel (try_copy_capability_slot s d p))
  copy-Attenuated = elim (Bool-cases (is_none (s.type d))) [
    | inl free ↦ rw (try_copy-runs s d p free) (
        gives (rw (try_copy-rights s d p apart free) (bit_and_self (s.rights p)))
          (λ q ne ne'. try_copy-rights_other s d p apart free q ne))
    | inr taken ↦ rw (try_copy-occupied s d p taken) (refuses _)
  ]

  mint-Attenuated :
      (r : ℕ)
      → bit_and (s.rights p) r ≡ r
      → s.rights p < 256
      → Attenuated s d p (minted d r (convert_kernel (try_copy_capability_slot s d p)))
  mint-Attenuated r subset small = elim (Bool-cases (is_none (s.type d))) [
    | inl free ↦
        let byte : r % 256 ≡ r =
          let le = bit_and-le (s.rights p) r in mod-eq_of_lt (omega (arith, le, subset)) in
        let t = (try_copy_capability_slot s d p).1 in
        rw (try_copy-runs s d p free) (
          gives (rw (write_self t.rights d (r % 256), byte) subset) (λ q ne ne'.
            write-ne t.rights d (r % 256) ne ∙ try_copy-rights_other s d p apart free q ne))
    | inr taken ↦ rw (try_copy-occupied s d p taken) (refuses _)
  ]

  transfer-Attenuated :
      (operation : Transfer) (r : ℕ)
      → s.rights p < 256
      → Attenuated s d p (transfer s operation r d p)
  unfolding transfer
  transfer-Attenuated Transfer.move r small = move-Attenuated
  transfer-Attenuated Transfer.copy r small = elim (Bool-cases (may_copy s p)) [
    | inl e ↦ rw e copy-Attenuated
    | inr e ↦ rw e (refuses _)
  ]
  transfer-Attenuated Transfer.mint r small =
      elim (Bool-cases (may_copy s p && (bit_and (s.rights p) r == r))) [
        | inl e ↦ rw e (mint-Attenuated r ((==_iff _ _).0 (ground (arith, e))) small)
        | inr e ↦ rw e (refuses _)
      ]

  -- COPY, MOVE and MINT to a destination apart from the source give it rights of the source only, and
  -- leave the rights of all other slots, or refuse with nothing changed. Rights are a byte.
  pub operation_transfer-Attenuated :
      (register : ℕ → Option ℕ) (traverse : ℕ → Result ℕ LookupError) (node : Node) (self : ℕ)
      (operation : Transfer)
      → retrieve_slot node (register_or_zero register 2) ≡ ok d
      → traverse (register_or_zero register 3) ≡ ok p
      → s.rights p < 256
      → Attenuated s d p (operation_transfer register traverse node s self operation)
  unfolding operation_transfer
  operation_transfer-Attenuated register traverse node self operation e e' small =
      elim (Bool-cases (may_use s self)) [
        | inl use' ↦
            rw (use', operation_transfer, e, e')
              (transfer-Attenuated operation (register_or_zero register 4) small)
        | inr off ↦ rw (off, operation_transfer) (refuses _)
      ]

-- DEMOTE takes rights of a slot away and never adds one, with the rights of all other slots kept, or
-- refuses with nothing changed. Rights are a byte.
pub operation_demote-Attenuated :
    (register : ℕ → Option ℕ) (node : Node) (s : Slots) (self d : ℕ)
    → retrieve_slot node (register_or_zero register 2) ≡ ok d
    → s.rights d < 256
    → Attenuated s d d (operation_demote register node s self)
unfolding operation_demote
operation_demote-Attenuated register node s self d e small =
    let r = register_or_zero register 4 in
    elim (Bool-cases (not (bit_and (s.rights self) 2 == 0))) [
      | inr off ↦ rw (off, operation_demote) (refuses _)
      | inl may ↦ elim (Bool-cases (bit_and (s.rights d) r == r)) [
        | inr off ↦ rw (may, operation_demote, e, off) (refuses _)
        | inl fits ↦
            let subset = (==_iff _ _).0 fits in
            let byte : r % 256 ≡ r =
              let le = bit_and-le (s.rights d) r in mod-eq_of_lt (omega (arith, le, subset)) in
            rw (may, operation_demote, e, fits)
              (gives (rw (write_self s.rights d (r % 256), byte) subset)
                (λ q ne ne'. write-ne s.rights d (r % 256) ne))
      ]
    ]
