-- ===== src/ControlBlock/Configure/Bounds.antt =====
-- What CONFIGURE does to the scheduling parameters of a process.
use a9n.Base.{
  ℕ, ◌≡◌, ◌<◌, ◌⊎◌, refl, sym, ap, ◌∙◌, arith, ◌||◌, Bool, true, false, not, ◌&&◌, inl, inr,
  Bool-cases, ltb, ltb→lt, ◌==◌, ==_iff, if◌then◌else◌, write_self,
}
use a9n.Base.Int.{pos}
use a9n.Base.Result.{Result, ok, err, KernelError}
use a9n.CapabilityTypes.{CapabilityError, LookupError, invalid_argument}
use a9n.ControlBlock.Configure.{
  contains, set_priority, set_affinity, is_pinned, selected, configure_register, configure_priority,
  configure_affinity, configure_resources, configure_all, operation_configure,
}
use a9n.Hal.{Hal, GeneralRegister}
use a9n.Kernel.{Kernel, M, convert_hal_to_capability, get_message_register, store_registers}
use a9n.Kernel.Preserve.{
  Preserves, >>=-Preserves, >>-Preserves, fail-Preserves, return-Preserves, if-Preserves,
  modify-Preserves, convert_hal_to_capability-Preserves,
}
use a9n.Scheduler.{priority_max}
use a9n.ControlBlock.{is_running_on_assigned_core}
use a9n.Kernel.{bind}
use a9n.Stop.{runs_on}
use a9n.Scheduler.{is_ready}
use a9n.ControlBlock.Configure.Settings.{
  IsUntouched, IsHome, untouched-IsHome, registers-IsUntouched, configure_address_space-Preserves,
  configure_root_node-Preserves, configure_frame_ipc_buffer-Preserves,
  configure_notification_port-Preserves, configure_ipc_port_resolver-Preserves,
}

-- The priority and the core of the process are in range, and a process that is ready, or runs on the core
-- that it had in the state `start`, still has that core.
pub record IsBounded (hal : Hal) (p : ℕ) (start k : Kernel) : Type 0 where
  pub level : ℕ
  pub in_range : level < priority_max
  pub priority : k.procs.priority p ≡ pos level
  pub affinity : k.procs.core_affinity p < hal.core_count
  pub stays :
      (k.procs.core_affinity p ≡ start.procs.core_affinity p)
      ⊎ ((is_ready (k.procs.status p) ≡ false)
          × (runs_on (start.procs.core_affinity p) p k ≡ false))

or-false : (b c : Bool) → (b || c) ≡ false → (b ≡ false) × (c ≡ false)
or-false b c e = (ground arith, ground arith)

module _ (hal : Hal) (p : ℕ) (start : Kernel) where
  abbrev Home : Kernel → Type 0
  Home = IsHome hal p start

  abbrev Bounded : Kernel → Type 0
  Bounded = IsBounded hal p start

  module _ (lookup : Kernel → ℕ → ℕ → Result ℕ LookupError)
      (remove_slot : ℕ → M KernelError (Unit {0}))
      (removes : (n : ℕ) (k : Kernel) → IsUntouched p k (remove_slot n k).1) where
    read-Preserves :
        (owner index : ℕ)
        → Preserves Home (convert_hal_to_capability (get_message_register hal owner index))
    read-Preserves owner index =
        convert_hal_to_capability-Preserves (record { hold = λ k old. old })

    selected-Preserves :
        (flags bit index owner : ℕ) (set : ℕ → M CapabilityError (Unit {0}))
        → ((value : ℕ) → Preserves Home (set value))
        → Preserves Home (selected hal lookup remove_slot p flags bit index owner set)
    unfolding selected
    selected-Preserves flags bit index owner set sets =
        if-Preserves (contains flags bit) (>>=-Preserves (read-Preserves owner index) sets)
          (return-Preserves tt)

    configure_register-Preserves :
        (register : GeneralRegister) (error : CapabilityError) (value : ℕ)
        → Preserves Home (configure_register hal lookup remove_slot p register error value)
    unfolding configure_register
    configure_register-Preserves register error value =
        if-Preserves (hal.is_valid_user_address value)
          (convert_hal_to_capability-Preserves (record {
            hold = λ k old.
                let out = hal.configure_general_register p register value (k.procs.registers) in
                untouched-IsHome hal p start k (store_registers out k).1
                  (registers-IsUntouched hal p start k out) old;
          }))
          (fail-Preserves error)

    prioritized-IsHome :
        (value : ℕ) (k : Kernel) → value < priority_max → Home k → Home (set_priority p value k)
    prioritized-IsHome value k range old = record {
      level = value;
      in_range = range;
      priority = write_self k.procs.priority p (pos value);
      affinity = old.affinity;
      home = old.home;
    }

    configure_priority-Preserves :
        (value : ℕ) → Preserves Home (configure_priority hal lookup remove_slot p value)
    unfolding configure_priority
    configure_priority-Preserves value = elim (Bool-cases (ltb value priority_max)) [
      | inl range ↦ rw range (
          modify-Preserves (set_priority p value)
            (λ k old. prioritized-IsHome value k (ltb→lt value priority_max range) old))
      | inr out ↦ rw out (fail-Preserves invalid_argument)
    ]

    Home-IsBounded : (k : Kernel) → Home k → Bounded k
    Home-IsBounded k old = record {
      level = old.level;
      in_range = old.in_range;
      priority = old.priority;
      affinity = old.affinity;
      stays = inl (old.home);
    }

    moved-IsBounded :
        (value : ℕ) (k : Kernel)
        → value < hal.core_count
        → Home k
        → (value ≡ k.procs.core_affinity p) ⊎ (is_pinned p k ≡ false)
        → Bounded (set_affinity p value k)
    moved-IsBounded value k range old why =
        let here = write_self k.procs.core_affinity p value in
        record {
          level = old.level;
          in_range = old.in_range;
          priority = old.priority;
          affinity = rw here range;
          stays = elim why [
            | inl same ↦ inl (here ∙ same ∙ old.home)
            | inr free ↦
                let parts =
                  or-false (is_ready (k.procs.status p)) (is_running_on_assigned_core p k) free in
                inr (parts.0, ap (λ (c : ℕ). runs_on c p k) (sym old.home) ∙ parts.1)
          ];
        }

    -- The place that the process wants is its own, or it may move.
    moves_if :
        (b pinned : Bool) (value : ℕ) (k : Kernel)
        → value < hal.core_count
        → Home k
        → (b ≡ true → value ≡ k.procs.core_affinity p)
        → is_pinned p k ≡ pinned
        → Bounded
            (if◌then◌else◌ {A = Result (Unit {0}) CapabilityError × Kernel}
              (not b && pinned)
              (err invalid_argument, k)
              (ok tt, set_affinity p value k)).1
    moves_if true pinned value k range old same e =
        moved-IsBounded value k range old (inl (same refl))
    moves_if false true value k range old same e = Home-IsBounded k old
    moves_if false false value k range old same e = moved-IsBounded value k range old (inr e)

    configure_affinity-IsBounded :
        (value : ℕ) (k : Kernel)
        → Home k
        → Bounded (configure_affinity hal lookup remove_slot p value k).1
    unfolding configure_affinity
    configure_affinity-IsBounded value k old = elim (Bool-cases (ltb value (hal.core_count))) [
      | inr out ↦ rw out (Home-IsBounded k old)
      | inl range ↦ rw range (
          moves_if (value == k.procs.core_affinity p) (is_pinned p k) value k
            (ltb→lt value (hal.core_count) range) old (==_iff value (k.procs.core_affinity p)).0
            refl)
    ]

    -- What follows the steps that keep the core.
    bind-IsBounded :
        {A : Type 0} (out : Result A CapabilityError × Kernel)
        (f : A → M CapabilityError (Unit {0}))
        → Home out.1
        → ((a : A) (k : Kernel) → Home k → Bounded (f a k).1)
        → Bounded (bind out f).1
    bind-IsBounded (ok a, k) f old step = step a k old
    bind-IsBounded (err e, k) f old step = Home-IsBounded k old

    select_affinity-IsBounded :
        (flags owner : ℕ) (k : Kernel)
        → Home k
        → Bounded
            (selected hal lookup remove_slot p flags 9 12 owner
              (configure_affinity hal lookup remove_slot p)
              k).1
    unfolding selected
    select_affinity-IsBounded flags owner k old = elim (Bool-cases (contains flags 9)) [
      | inr skips ↦ rw skips (Home-IsBounded k old)
      | inl asks ↦ rw asks (
          bind-IsBounded (convert_hal_to_capability (get_message_register hal owner 12) k)
            (configure_affinity hal lookup remove_slot p) ((read-Preserves owner 12).hold k old)
            configure_affinity-IsBounded)
    ]

    configure_resources-Preserves :
        (owner flags : ℕ)
        → Preserves Home (configure_resources hal lookup remove_slot p owner flags)
    unfolding configure_resources
    configure_resources-Preserves owner flags =
        >>-Preserves
          (>>-Preserves
            (>>-Preserves
              (>>-Preserves
                (>>-Preserves
                  (>>-Preserves
                    (>>-Preserves
                      (>>-Preserves
                        (selected-Preserves flags 0 3 owner _ (
                          configure_address_space-Preserves hal p start lookup remove_slot removes
                            owner))
                        (selected-Preserves flags 1 4 owner _ (
                          configure_root_node-Preserves hal p start lookup remove_slot removes
                            owner)))
                      (selected-Preserves flags 2 5 owner _ (
                        configure_frame_ipc_buffer-Preserves hal p start lookup remove_slot removes
                          owner)))
                    (selected-Preserves flags 3 6 owner _ (
                      configure_notification_port-Preserves hal p start lookup remove_slot removes
                        owner)))
                  (selected-Preserves flags 4 7 owner _ (
                    configure_ipc_port_resolver-Preserves hal p start lookup remove_slot removes
                      owner)))
                (selected-Preserves flags 5 8 owner _ (configure_register-Preserves _ _)))
              (selected-Preserves flags 6 9 owner _ (configure_register-Preserves _ _)))
            (selected-Preserves flags 7 10 owner _ (configure_register-Preserves _ _)))
          (selected-Preserves flags 8 11 owner _ configure_priority-Preserves)

    configure_all-IsBounded :
        (owner flags : ℕ) (k : Kernel)
        → Home k
        → Bounded (configure_all hal lookup remove_slot p owner flags k).1
    unfolding configure_all
    configure_all-IsBounded owner flags k old =
        bind-IsBounded (configure_resources hal lookup remove_slot p owner flags k)
          (λ _.
            selected hal lookup remove_slot p flags 9 12 owner
              (configure_affinity hal lookup remove_slot p))
          ((configure_resources-Preserves owner flags).hold k old)
          (λ _. select_affinity-IsBounded flags owner)

    configured-IsBounded :
        (owner : ℕ) (k : Kernel)
        → Home k
        → Bounded (operation_configure hal lookup remove_slot p owner k).1
    unfolding operation_configure
    configured-IsBounded owner k old =
        bind-IsBounded (convert_hal_to_capability (get_message_register hal owner 2) k)
          (configure_all hal lookup remove_slot p owner) ((read-Preserves owner 2).hold k old)
          (configure_all-IsBounded owner)

-- For a removal of slots that leaves the priority and the core of the process alone, CONFIGURE, also where
-- it fails half-way, leaves both in range if they were, and a process that is ready behind it, or runs
-- on the core that it had, still has that core.
pub operation_configure-IsBounded :
    (hal : Hal) (lookup : Kernel → ℕ → ℕ → Result ℕ LookupError)
    (remove_slot : ℕ → M KernelError (Unit {0})) (p owner level : ℕ) (k : Kernel)
    → ((n : ℕ) (k' : Kernel) → IsUntouched p k' (remove_slot n k').1)
    → level < priority_max
    → k.procs.priority p ≡ pos level
    → k.procs.core_affinity p < hal.core_count
    → IsBounded hal p k (operation_configure hal lookup remove_slot p owner k).1
operation_configure-IsBounded hal lookup remove_slot p owner level k removes range priority
      affinity =
    configured-IsBounded hal p k lookup remove_slot removes owner k (record {
      level = level;
      in_range = range;
      priority = priority;
      affinity = affinity;
      home = refl;
    })
