-- ===== src/Slot/Copy.antt =====
-- `try_copy_capability_slot` of capability_component.hpp.
use a9n.Base.{
  ℕ, ◌≡◌, ◌≢◌, ap, ◌∙◌, true, false, Bool, Option, none, some, List, ◌∷◌, ◌++◌, arith, elem, inl,
  inr, Bool-cases, write-ne,
}
use a9n.Base.Result.{Result, ok, err, KernelError, init_first}
use a9n.CapabilityTypes.{CapabilityType, SlotData, is_none}
use a9n.Dll.{back, elem-apart}
use a9n.Slot.{Slots, insert_sibling, init, copy_content, set_depth, try_copy_capability_slot}
use a9n.Slot.Chain.{Chain, insert-Chain, Chain-frame, Content, insert-Content, in_chain}

-- Slot `q` of `s'` holds what slot `p` of `s` holds: the capability, its rights and its depth.
pub record Holds (s : Slots) (p : ℕ) (s' : Slots) (q : ℕ) : Type 0 where
  pub component : s'.component q ≡ s.component p
  pub type : s'.type q ≡ s.type p
  pub rights : s'.rights q ≡ s.rights p
  pub local : s'.local q ≡ s.local p
  pub depth : s'.depth q ≡ s.depth p

-- What a copy may do, for a destination outside the chain of the source: put an alias of the source
-- right behind it, with all other slots as they were, or refuse an occupied slot.
pub data Copied (s : Slots) (us vs : List ℕ) (destination source : ℕ)
    : Result (Unit {0}) KernelError × Slots → Type 0 where
  copies :
      {s' : Slots}
      → is_none (s.type destination) ≡ true
      → Chain s' (us ++ destination ∷ vs)
      → Holds s source s' destination
      → s'.reclaiming destination ≡ false
      → ((q : ℕ) → destination ≢ q → Holds s q s' q)
      → Copied s us vs destination source (ok tt, s')
  refuses :
      is_none (s.type destination) ≡ false → Copied s us vs destination source (err init_first, s)

module _ (s : Slots) (us vs : List ℕ) (destination source : ℕ) (last : back none us ≡ some source)
    (h : Chain s (us ++ vs)) (out : elem destination (us ++ vs) ≡ false) where
  apart : destination ≢ source
  apart = elem-apart destination source (us ++ vs) out (in_chain us vs source last)

  abbrev filled : Slots
  filled = copy_content (init s destination) destination source

  abbrev ready : Slots
  ready = set_depth filled destination (filled.depth source)

  ready-Chain : Chain ready (us ++ vs)
  unfolding copy_content init
  ready-Chain =
      Chain-frame h
        (λ q m. write-ne s.next_slot destination none (elem-apart destination q (us ++ vs) out m))
        (λ q m.
          write-ne s.preview_slot destination none (elem-apart destination q (us ++ vs) out m))

  ready-Holds : Holds s source ready destination
  unfolding copy_content init
  ready-Holds = record {
    component = ground (arith, apart);
    type = ground (arith, apart);
    rights = ground (arith, apart);
    local = ground (arith, apart);
    depth = ground (arith, apart);
  }

  ready-others : (q : ℕ) → destination ≢ q → Holds s q ready q
  unfolding copy_content init
  ready-others q ne = record {
    component = ground arith;
    type = ground arith;
    rights = ground arith;
    local = ground arith;
    depth = ground arith;
  }

  ready-reclaiming : ready.reclaiming destination ≡ false
  unfolding copy_content init
  ready-reclaiming = ground arith

  -- `try_copy_capability_slot` makes the destination a peer alias right behind the source, with equal
  -- rights and depth, or refuses an occupied destination with nothing changed.
  pub try_copy-Copied :
      Copied s us vs destination source (try_copy_capability_slot s destination source)
  unfolding try_copy_capability_slot insert_sibling
  try_copy-Copied = elim (Bool-cases (is_none (s.type destination))) [
    | inl e ↦
        let same = insert-Content ready source destination in
        rw e (
          copies e (insert-Chain ready us vs source last ready-Chain destination out)
            (through same ready-Holds)
            (ap (λ (f : ℕ → Bool). f destination) same.reclaiming ∙ ready-reclaiming)
            (λ q ne. through same (ready-others q ne)))
    | inr e ↦ rw e (refuses e)
  ]
    where
      through : {t t' : Slots} {p q : ℕ} → Content t t' → Holds s p t q → Holds s p t' q
      through {t} {t'} {p} {q} same old = record {
        component = ap (λ (f : ℕ → Option ℕ). f q) same.component ∙ old.component;
        type = ap (λ (f : ℕ → CapabilityType). f q) same.type ∙ old.type;
        rights = ap (λ (f : ℕ → ℕ). f q) same.rights ∙ old.rights;
        local = ap (λ (f : ℕ → SlotData). f q) same.local ∙ old.local;
        depth = ap (λ (f : ℕ → ℕ). f q) same.depth ∙ old.depth;
      }
