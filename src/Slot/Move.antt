-- ===== src/Slot/Move.antt =====
-- `try_move_capability_slot` of capability_component.hpp.
use a9n.Base.{
  ℕ, ◌≡◌, ◌≢◌, refl, sym, ◌∙◌, true, false, none, some, List, ◌∷◌, ◌++◌, arith, elem, inl, inr,
  Bool-cases, Distinct, Distinct-append, Distinct-replace, elem-append, elem-middle,
}
use a9n.Base.Result.{Result, ok, err, KernelError, init_first}
use a9n.CapabilityTypes.{CapabilityType, is_none, zero_data}
use a9n.Dll.{front, back, Seg-split, Seg-replace, elem-apart, back-none-elem, front-elem}
use a9n.Slot.{Slots, init, copy_content, take_over, try_move_capability_slot}
use a9n.Slot.Chain.{Chain}
use a9n.Slot.Copy.{Holds}

-- A slot as `init` leaves it.
pub record Cleared (s : Slots) (p : ℕ) : Type 0 where
  pub component : s.component p ≡ none
  pub type : s.type p ≡ CapabilityType.none
  pub rights : s.rights p ≡ 0
  pub reclaiming : s.reclaiming p ≡ false
  pub local : s.local p ≡ zero_data
  pub next_slot : s.next_slot p ≡ none
  pub preview_slot : s.preview_slot p ≡ none
  pub depth : s.depth p ≡ 0

pub init-Cleared : (s : Slots) (p : ℕ) → Cleared (init s p) p
unfolding init
init-Cleared s p = record {
  component = ground arith;
  type = ground arith;
  rights = ground arith;
  reclaiming = ground arith;
  local = ground arith;
  next_slot = ground arith;
  preview_slot = ground arith;
  depth = ground arith;
}

-- The slots after a move to `d` from `p`.
module _ (s : Slots) (d p : ℕ) (ne : d ≢ p) where
  abbrev pub moved : Slots
  moved = init (take_over (copy_content (init s d) d p) d p) p

  moved-next :
      (q : ℕ) → d ≢ q → p ≢ q → s.preview_slot p ≢ some q → moved.next_slot q ≡ s.next_slot q
  unfolding init take_over copy_content
  moved-next q nd np off = ground (arith, ne)

  moved-next_before :
      (q : ℕ) → d ≢ q → p ≢ q → s.preview_slot p ≡ some q → moved.next_slot q ≡ some d
  unfolding init take_over copy_content
  moved-next_before q nd np e = ground (arith, ne)

  moved-next_self : s.preview_slot p ≢ some d → moved.next_slot d ≡ s.next_slot p
  unfolding init take_over copy_content
  moved-next_self off = ground (arith, ne)

  moved-preview :
      (q : ℕ) → d ≢ q → p ≢ q → s.next_slot p ≢ some q → moved.preview_slot q ≡ s.preview_slot q
  unfolding init take_over copy_content
  moved-preview q nd np off = ground (arith, ne)

  moved-preview_next :
      (q : ℕ)
      → d ≢ q
      → p ≢ q
      → s.preview_slot p ≢ some d
      → s.next_slot p ≡ some q
      → moved.preview_slot q ≡ some d
  unfolding init take_over copy_content
  moved-preview_next q nd np off e = ground (arith, ne)

  moved-preview_self : s.next_slot p ≢ some d → moved.preview_slot d ≡ s.preview_slot p
  unfolding init take_over copy_content
  moved-preview_self off = ground (arith, ne)

  moved-Holds : Holds s p moved d
  unfolding init take_over copy_content
  moved-Holds = record {
    component = ground (arith, ne);
    type = ground (arith, ne);
    rights = ground (arith, ne);
    local = ground (arith, ne);
    depth = ground (arith, ne);
  }

  moved-reclaiming : moved.reclaiming d ≡ false
  unfolding init take_over copy_content
  moved-reclaiming = ground (arith, ne)

  moved-others : (q : ℕ) → d ≢ q → p ≢ q → Holds s q moved q
  unfolding init take_over copy_content
  moved-others q nd np = record {
    component = ground (arith, ne);
    type = ground (arith, ne);
    rights = ground (arith, ne);
    local = ground (arith, ne);
    depth = ground (arith, ne);
  }

-- What a move may do, for a destination outside the chain of the source: put the destination in the
-- source's place, with the source cleared, or refuse an occupied slot.
pub data Moved (s : Slots) (us vs : List ℕ) (destination source : ℕ)
    : Result (Unit {0}) KernelError × Slots → Type 0 where
  moves :
      {s' : Slots}
      → is_none (s.type destination) ≡ true
      → Chain s' (us ++ destination ∷ vs)
      → Holds s source s' destination
      → s'.reclaiming destination ≡ false
      → Cleared s' source
      → ((q : ℕ) → destination ≢ q → source ≢ q → Holds s q s' q)
      → Moved s us vs destination source (ok tt, s')
  refuses :
      is_none (s.type destination) ≡ false → Moved s us vs destination source (err init_first, s)

module _ (s : Slots) (us vs : List ℕ) (d p : ℕ) (h : Chain s (us ++ p ∷ vs))
    (out : elem d (us ++ p ∷ vs) ≡ false) where
  move_apart : d ≢ p
  move_apart = elem-apart d p (us ++ p ∷ vs) out (elem-middle p us vs)

  out_of : (elem d us ≡ false) × (elem d vs ≡ false)
  out_of = ground (arith, elem-append d us (p ∷ vs))

  move_parts :
      Distinct us × Distinct (p ∷ vs) × ((q : ℕ) → elem q us ≡ true → elem q (p ∷ vs) ≡ false)
  move_parts = Distinct-append us (p ∷ vs) h.distinct

  move_links : (s.preview_slot p ≡ back none us) × (s.next_slot p ≡ front vs none)
  move_links =
      let seg = (Seg-split s.next_slot s.preview_slot none none us (p ∷ vs) h.links).1 in
      (seg.0, seg.1)

  source_out_us : elem p us ≡ false
  source_out_us = elim (Bool-cases (elem p us)) [
    | inl m ↦ let e = move_parts.2 p m in absurd (ground arith)
    | inr o ↦ o
  ]

  cross : (q : ℕ) → elem q us ≡ true → elem q vs ≡ false
  cross q m = let e = move_parts.2 q m in ground arith

  before_in : (q : ℕ) → s.preview_slot p ≡ some q → elem q us ≡ true
  before_in q e = back-none-elem us q (sym move_links.0 ∙ e)

  ahead_in : (q : ℕ) → s.next_slot p ≡ some q → elem q vs ≡ true
  ahead_in q e = front-elem vs q (sym move_links.1 ∙ e)

  not_before : s.preview_slot p ≢ some d
  not_before e = elem-apart d d us out_of.0 (before_in d e) refl

  moved-Chain : Chain (moved s d p move_apart) (us ++ d ∷ vs)
  moved-Chain = record {
    links =
        Seg-replace (moved s d p move_apart).next_slot (moved s d p move_apart).preview_slot us vs p
          move_parts.0 move_parts.1.1
          (λ q m.
            moved-preview s d p move_apart q (elem-apart d q us out_of.0 m)
              (elem-apart p q us source_out_us m)
              (λ e. elem-apart q q vs (cross q m) (ahead_in q e) refl))
          (λ q m off.
            moved-next s d p move_apart q (elem-apart d q us out_of.0 m)
              (elem-apart p q us source_out_us m) (λ e. off (sym move_links.0 ∙ e)))
          (λ q m off.
            moved-preview s d p move_apart q (elem-apart d q vs out_of.1 m)
              (elem-apart p q vs move_parts.1.0 m) (λ e. off (sym move_links.1 ∙ e)))
          (λ q m.
            moved-next s d p move_apart q (elem-apart d q vs out_of.1 m)
              (elem-apart p q vs move_parts.1.0 m)
              (λ e. elem-apart q q vs (cross q (before_in q e)) m refl))
          d h.links
          (λ q e.
            let m = back-none-elem us q e in
            moved-next_before s d p move_apart q (elem-apart d q us out_of.0 m)
              (elem-apart p q us source_out_us m) (move_links.0 ∙ e))
          (λ q e.
            let m = front-elem vs q e in
            moved-preview_next s d p move_apart q (elem-apart d q vs out_of.1 m)
              (elem-apart p q vs move_parts.1.0 m) not_before (move_links.1 ∙ e))
          (moved-preview_self s d p move_apart (λ e. elem-apart d d vs out_of.1 (ahead_in d e) refl)
            ∙ move_links.0)
          (moved-next_self s d p move_apart not_before ∙ move_links.1);
    distinct = Distinct-replace us vs p d h.distinct out;
  }

  -- `try_move_capability_slot` puts the destination in the source's place of the chain with the
  -- source's content and clears the source, or refuses an occupied destination.
  pub try_move-Moved : Moved s us vs d p (try_move_capability_slot s d p)
  unfolding try_move_capability_slot
  try_move-Moved = elim (Bool-cases (is_none (s.type d))) [
    | inl e ↦ rw e (
        moves e moved-Chain (moved-Holds s d p move_apart) (moved-reclaiming s d p move_apart)
          (init-Cleared (take_over (copy_content (init s d) d p) d p) p)
          (moved-others s d p move_apart))
    | inr e ↦ rw e (refuses e)
  ]
