-- ===== src/ControlBlock/Written.antt =====
-- The registers that WRITE_REGISTER of kernel/capability/process_control_block.cpp sets.
use a9n.Base.{
  ℕ, zero, suc, ◌+◌, ◌≡◌, ◌≢◌, ◌<◌, ◌≤◌, refl, ap, ◌∙◌, false, ◌&&◌, ltb, leb, ◌==◌, if◌then◌else◌,
  write, write_self, write-ne, arith,
}
use native.Mathlib.Decide.{ℕ_discrete}
use a9n.Base.Result.{Result, ok}
use a9n.CapabilityTypes.{CapabilityError}
use a9n.ControlBlock.{write_rest, operation_write_register}
use a9n.Hal.{Hal, Registers}
use a9n.IpcPort.Reply.{set_register}
use a9n.Kernel.{Kernel, set_registers}

-- The registers from `i` on, `n` of them, hold the values, and nothing else has changed.
pub record IsWritten (this i n : ℕ) (value : ℕ → ℕ) (k : Kernel)
    (out : Result (Unit {0}) CapabilityError × Kernel) : Type 0 where
  pub result : out.0 ≡ ok tt
  pub same : out.1 ≡ set_registers (out.1.procs.registers) k
  pub others : (q j : ℕ) → this ≢ q → out.1.procs.registers q j ≡ k.procs.registers q j
  pub written :
      (j : ℕ)
      → out.1.procs.registers this j
        ≡ (if leb i j && ltb j (i + n) then value j else k.procs.registers this j)

-- The message registers of `owner` hold the values, and are none of the registers of `this`.
pub record Provides (hal : Hal) (this owner count : ℕ) (value : ℕ → ℕ) (k : Kernel) : Type 0 where
  pub apart :
      (r : Registers) (i j v : ℕ)
      → hal.get_message_register owner i (write r this (write (r this) j v))
        ≡ hal.get_message_register owner i r
  pub values :
      (j : ℕ)
      → j < count
      → hal.get_message_register owner (j + 3) (k.procs.registers) ≡ ok (value j)

window-empty : (i j v x : ℕ) → x ≡ (if leb i j && ltb j (i + 0) then v else x)
window-empty i j v x = ground arith

-- A window begins with its first place.
window_step :
    (i n j v w x : ℕ)
    → (i ≡ j → w ≡ v)
    → (if leb (suc i) j && ltb j (suc i + n) then v else (if i == j then w else x))
      ≡ (if leb i j && ltb j (i + suc n) then v else x)
window_step i n j v w x first = elim (ℕ_discrete i j) [
  | yes e ↦ let same = first e in ground arith
  | no ne ↦ ground arith
]

module _ (hal : Hal) (this owner count : ℕ) (value : ℕ → ℕ) where
  write_rest-IsWritten :
      (n i : ℕ) (k : Kernel)
      → i + n ≤ count
      → Provides hal this owner count value k
      → IsWritten this i n value k (write_rest hal this n owner i k)
  unfolding write_rest
  write_rest-IsWritten zero i k range given = record {
    result = refl;
    same = refl;
    others = λ q j ne. refl;
    written = λ j. window-empty i j (value j) (k.procs.registers this j);
  }
  write_rest-IsWritten (suc n) i k range given =
      let k1 = set_register this i (value i) k in
      let next = write_rest-IsWritten n (suc i) k1 (omega arith) (record {
        apart = given.apart;
        values = λ j h. given.apart (k.procs.registers) (j + 3) i (value i) ∙ given.values j h;
      }) in
      rw (given.values i (omega arith)) (record {
        result = next.result;
        same = next.same;
        others = λ q j ne.
            next.others q j ne ∙ ap (λ (f : ℕ → ℕ). f j) (write-ne k.procs.registers this _ ne);
        written = λ j.
            next.written j
            ∙ ap (λ (f : ℕ → ℕ). if leb (suc i) j && ltb j (suc i + n) then value j else f j)
                (write_self k.procs.registers this (write (k.procs.registers this) i (value i)))
            ∙ window_step i n j (value j) (value i) (k.procs.registers this j) (λ e. ap value e);
      })

-- Where the context of the process has at least `count` registers, the hardware layer reads the count and
-- the words from the caller's message registers, and these are none of the registers of the process
-- (so it is not the caller itself): WRITE_REGISTER succeeds, the first `count` registers of the process
-- become the words that the caller sent, and nothing else changes.
pub operation_write_register-IsWritten :
    (hal : Hal) (this owner count : ℕ) (value : ℕ → ℕ) (k : Kernel)
    → hal.get_message_register owner 2 (k.procs.registers) ≡ ok count
    → count ≤ hal.hardware_context_size
    → Provides hal this owner count value k
    → IsWritten this 0 count value k (operation_write_register hal this owner k)
unfolding operation_write_register
operation_write_register-IsWritten hal this owner count value k e range given =
    rw (e, not_over) (write_rest-IsWritten hal this owner count value count 0 k (omega arith) given)
  where
    not_over : ltb (hal.hardware_context_size) count ≡ false
    not_over = ground arith
