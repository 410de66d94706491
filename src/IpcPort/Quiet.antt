-- ===== src/IpcPort/Quiet.antt =====
-- kernel/capability/ipc_port.cpp: the transfers of messages leave the wait queues and the reply
-- relation alone.
use a9n.Base.{
  ℕ, zero, suc, ◌+◌, ◌-◌, ◌≡◌, refl, ap, ◌∙◌, Bool, true, false, Option, ◌==◌, ◌&&◌, if◌then◌else◌,
}
use a9n.Base.Result.{Result}
use a9n.CapabilityTypes.{CapabilityError, fatal}
use a9n.Hal.{Hal, HalError, Registers}
use a9n.IpcPort.{
  ignore, copy_word, copy_rest, copy_registers, copy_messages, write_header, transfer_message,
  transfer_direct_message, reset_port, get_message_info,
}
use a9n.IpcQueue.{pointers}
use a9n.Kernel.{
  modify, Kernel, M, ◌>>=◌, ◌>>◌, return, fail, or_else, get_message_register,
  configure_message_register, convert_kernel, convert_hal_to_capability, store_registers,
}
use a9n.Kernel.Preserve.{Preserves, >>=-Preserves, >>-Preserves, or_else-Preserves}
use a9n.Manager.Frame.{Keeps}
use a9n.MessageInfo.{message_length, transfer_count}
use a9n.WaitQueue.{Pointers}

-- The wait queues of the IPC ports and the reply relation.
pub record Relation : Type 0 where
  pub queues : Pointers
  pub server : ℕ → Option ℕ
  pub client : ℕ → Option ℕ

abbrev pub relation : Kernel → Relation
relation k = record {
  queues = pointers k;
  server = k.procs.source_reply_target;
  client = k.procs.destination_reply_target;
}

pub record Quiet {E A : Type 0} (m : M E A) : Type 0 where
  pub keep : (v : Relation) → Preserves (λ k. relation k ≡ v) m

module _ {E A : Type 0} where
  pub change-Quiet : (m : M E A) → ((k : Kernel) → relation (m k).1 ≡ relation k) → Quiet m
  change-Quiet m same = record { keep = λ v. record { hold = λ k e. same k ∙ e } }

  pub return-Quiet : (a : A) → Quiet {E = E} (return a)
  return-Quiet a = change-Quiet _ (λ k. refl)

  pub fail-Quiet : (e : E) → Quiet {E = E} {A = A} (fail e)
  fail-Quiet e = change-Quiet _ (λ k. refl)

  pub Keeps-Quiet : {m : M E A} → Keeps m → Quiet m
  Keeps-Quiet km = change-Quiet _ (λ k. ap (λ (a : Kernel). relation a) ((km.keep k).same))

  pub if-Quiet : (b : Bool) {m n : M E A} → Quiet m → Quiet n → Quiet (if b then m else n)
  if-Quiet true km kn = km
  if-Quiet false km kn = kn

  pub reading-Quiet : (m : Kernel → M E A) → ((k : Kernel) → Quiet (m k)) → Quiet (λ k. m k k)
  reading-Quiet m km = record { keep = λ v. record { hold = λ k e. ((km k).keep v).hold k e } }

pub modify-Quiet :
    {E : Type 0} (g : Kernel → Kernel)
    → ((k : Kernel) → relation (g k) ≡ relation k)
    → Quiet {E = E} (modify g)
modify-Quiet g same = change-Quiet (modify g) same

module _ {E A B : Type 0} where
  pub >>=-Quiet : {m : M E A} {f : A → M E B} → Quiet m → ((a : A) → Quiet (f a)) → Quiet (m >>= f)
  >>=-Quiet km kf = record { keep = λ v. >>=-Preserves (km.keep v) (λ a. (kf a).keep v) }

  pub >>-Quiet : {m : M E A} {n : M E B} → Quiet m → Quiet n → Quiet (m >> n)
  >>-Quiet km kn = record { keep = λ v. >>-Preserves (km.keep v) (kn.keep v) }

pub or_else-Quiet :
    {E F A : Type 0} {m : M E A} {f : E → M F A}
    → Quiet m
    → ((e : E) → Quiet (f e))
    → Quiet (or_else m f)
or_else-Quiet km kf = record { keep = λ v. or_else-Preserves (km.keep v) (λ e. (kf e).keep v) }

stored-relation :
    {A : Type 0} (out : Result A HalError × Registers) (k : Kernel)
    → relation (store_registers out k).1 ≡ relation k
stored-relation (r, registers) k = refl

ignore-Quiet : {E F A : Type 0} {m : M E A} → Quiet m → Quiet (ignore {F = F} m)
ignore-Quiet km = or_else-Quiet (>>-Quiet km (return-Quiet tt)) (λ e. return-Quiet tt)

module _ (hal : Hal) where
  pub configure-Quiet : (p index v : ℕ) → Quiet (configure_message_register hal p index v)
  configure-Quiet p index v =
      change-Quiet _
        (λ k. stored-relation (hal.configure_message_register p index v (k.procs.registers)) k)

  pub read-Quiet : (p index : ℕ) → Quiet (get_message_register hal p index)
  read-Quiet p index = change-Quiet _ (λ k. refl)

  pub converted-Quiet :
      (p index v : ℕ) → Quiet (convert_hal_to_capability (configure_message_register hal p index v))
  converted-Quiet p index v = or_else-Quiet (configure-Quiet p index v) (λ e. fail-Quiet _)

  pub get_message_info-Quiet : (p : ℕ) → Quiet (convert_kernel (get_message_info hal p))
  unfolding get_message_info
  get_message_info-Quiet p =
      or_else-Quiet (or_else-Quiet (read-Quiet p 2) (λ e. fail-Quiet _)) (λ e. fail-Quiet _)

  copy_word-Quiet : (d s i : ℕ) → Quiet (copy_word hal d s i)
  unfolding copy_word
  copy_word-Quiet d s i =
      or_else-Quiet (>>=-Quiet (read-Quiet s (i + 4)) (λ v. configure-Quiet d (i + 4) v))
        (λ e. fail-Quiet _)

  copy_rest-Quiet : (n i d s : ℕ) → Quiet (copy_rest hal n i d s)
  unfolding copy_rest
  copy_rest-Quiet zero i d s = return-Quiet tt
  copy_rest-Quiet (suc n) i d s = >>-Quiet (copy_word-Quiet d s i) (copy_rest-Quiet n (suc i) d s)

  copy_registers-Quiet : (n i length d s : ℕ) → Quiet (copy_registers hal n i length d s)
  unfolding copy_registers
  copy_registers-Quiet zero i length d s = copy_rest-Quiet (length - i) i d s
  copy_registers-Quiet (suc n) i length d s =
      let further = copy_registers-Quiet n (suc i) length d s in
      if-Quiet (i == length) (return-Quiet tt) (>>-Quiet (copy_word-Quiet d s i) further)

  copy_messages-Quiet : (d s length : ℕ) → Quiet (copy_messages hal d s length)
  unfolding copy_messages
  copy_messages-Quiet d s length =
      copy_registers-Quiet (hal.message_register_count - 4) 0 length d s

  write_header-Quiet : (d s info : ℕ) → Quiet (write_header hal d s info)
  unfolding write_header
  write_header-Quiet d s info = >>-Quiet (ignore-Quiet (configure-Quiet d 2 info)) (
      reading-Quiet
        (λ k. ignore (configure_message_register hal d 3 (k.procs.identifier_when_blocked s)))
        (λ k. ignore-Quiet (configure-Quiet d 3 (k.procs.identifier_when_blocked s))))

  module _ (move_capabilities : ℕ → ℕ → ℕ → M CapabilityError (Unit {0}))
      (moved : (d s n : ℕ) → Quiet (move_capabilities d s n)) where
    pub transfer_message-Quiet :
        (this d s info : ℕ) → Quiet (transfer_message hal move_capabilities this d s info)
    unfolding transfer_message reset_port
    transfer_message-Quiet this d s info =
        if-Quiet ((message_length info == 0) && (transfer_count info == 0))
          (write_header-Quiet d s info)
          (>>-Quiet
            (>>-Quiet (write_header-Quiet d s info) (
              or_else-Quiet (copy_messages-Quiet d s (message_length info))
                (λ e. change-Quiet _ (λ k. refl))))
            (moved d s (transfer_count info)))

    pub transfer_direct_message-Quiet :
        (d s info : ℕ) → Quiet (transfer_direct_message hal move_capabilities d s info)
    unfolding transfer_direct_message
    transfer_direct_message-Quiet d s info =
        if-Quiet ((message_length info == 0) && (transfer_count info == 0))
          (write_header-Quiet d s info)
          (>>-Quiet
            (>>-Quiet (write_header-Quiet d s info) (
              or_else-Quiet (copy_messages-Quiet d s (message_length info))
                (λ e. fail-Quiet fatal)))
            (if-Quiet (transfer_count info == 0) (return-Quiet tt)
              (moved d s (transfer_count info))))
