-- ===== src/Slot/Unlink.antt =====
-- `remove_from_dependency_node` and `init` of capability_component.hpp, as the node layer applies them
-- to a slot that it removes.
use a9n.Base.{
  ℕ, ◌≡◌, ◌≢◌, refl, sym, ◌∙◌, true, false, none, some, List, ◌∷◌, ◌++◌, arith, elem, inl, inr,
  Bool-cases, Distinct, Distinct-append, elem-append, elem-middle, subst, erase-append,
  erase-Distinct,
}
use a9n.Dll.{front, back, Seg-split, Seg-unlink, elem-apart, back-none-elem, front-elem}
use a9n.Slot.{Slots, init, remove_from_dependency_node}
use a9n.Slot.Chain.{Chain}
use a9n.Slot.Move.{Cleared, init-Cleared}

-- Slot `q` is the same in both, but for its links.
pub record Kept (s s' : Slots) (q : ℕ) : Type 0 where
  pub component : s'.component q ≡ s.component q
  pub type : s'.type q ≡ s.type q
  pub rights : s'.rights q ≡ s.rights q
  pub reclaiming : s'.reclaiming q ≡ s.reclaiming q
  pub local : s'.local q ≡ s.local q
  pub depth : s'.depth q ≡ s.depth q

-- Its links are the same, too.
pub record Untouched (s s' : Slots) (q : ℕ) : Type 0 where
  pub next_slot : s'.next_slot q ≡ s.next_slot q
  pub preview_slot : s'.preview_slot q ≡ s.preview_slot q

-- The slots without `p`.
abbrev pub clear : Slots → ℕ → Slots
clear s p = init (remove_from_dependency_node s p) p

module _ (s : Slots) (p : ℕ) where
  clear-next : (q : ℕ) → p ≢ q → s.preview_slot p ≢ some q → (clear s p).next_slot q ≡ s.next_slot q
  unfolding init remove_from_dependency_node
  clear-next q ne off = ground arith

  clear-next_before :
      (q : ℕ) → p ≢ q → s.preview_slot p ≡ some q → (clear s p).next_slot q ≡ s.next_slot p
  unfolding init remove_from_dependency_node
  clear-next_before q ne e = ground arith

  clear-preview :
      (q : ℕ) → p ≢ q → s.next_slot p ≢ some q → (clear s p).preview_slot q ≡ s.preview_slot q
  unfolding init remove_from_dependency_node
  clear-preview q ne off = ground arith

  clear-preview_next :
      (q : ℕ)
      → p ≢ q
      → s.preview_slot p ≢ some p
      → s.next_slot p ≡ some q
      → (clear s p).preview_slot q ≡ s.preview_slot p
  unfolding init remove_from_dependency_node
  clear-preview_next q ne off e = ground arith

  pub clear-Kept : (q : ℕ) → p ≢ q → Kept s (clear s p) q
  unfolding init remove_from_dependency_node
  clear-Kept q ne = record {
    component = ground arith;
    type = ground arith;
    rights = ground arith;
    reclaiming = ground arith;
    local = ground arith;
    depth = ground arith;
  }

  pub clear-Cleared : Cleared (clear s p) p
  clear-Cleared = init-Cleared (remove_from_dependency_node s p) p

-- `p` stands between `us` and `vs`.
module _ (s : Slots) (us vs : List ℕ) (p : ℕ) (h : Chain s (us ++ p ∷ vs)) where
  unlink_parts :
      Distinct us × Distinct (p ∷ vs) × ((q : ℕ) → elem q us ≡ true → elem q (p ∷ vs) ≡ false)
  unlink_parts = Distinct-append us (p ∷ vs) h.distinct

  pub unlink_links : (s.preview_slot p ≡ back none us) × (s.next_slot p ≡ front vs none)
  unlink_links =
      let seg = (Seg-split s.next_slot s.preview_slot none none us (p ∷ vs) h.links).1 in
      (seg.0, seg.1)

  pub out_front : elem p us ≡ false
  out_front = elim (Bool-cases (elem p us)) [
    | inl m ↦ let e = unlink_parts.2 p m in absurd (ground arith)
    | inr o ↦ o
  ]

  pub out_rest : elem p (us ++ vs) ≡ false
  out_rest = let o = unlink_parts.1.0 in ground (arith, elem-append p us vs, out_front)

  cross : (q : ℕ) → elem q us ≡ true → elem q vs ≡ false
  cross q m = let e = unlink_parts.2 q m in ground arith

  before_in : (q : ℕ) → s.preview_slot p ≡ some q → elem q us ≡ true
  before_in q e = back-none-elem us q (sym unlink_links.0 ∙ e)

  ahead_in : (q : ℕ) → s.next_slot p ≡ some q → elem q vs ≡ true
  ahead_in q e = front-elem vs q (sym unlink_links.1 ∙ e)

  -- The removal of a slot takes it, and it alone, out of the chain.
  pub clear-Chain : Chain (clear s p) (us ++ vs)
  clear-Chain = record {
    links =
        Seg-unlink (clear s p).next_slot (clear s p).preview_slot us vs p unlink_parts.0
          unlink_parts.1.1
          (λ q m.
            clear-preview s p q (elem-apart p q us out_front m)
              (λ e. elem-apart q q vs (cross q m) (ahead_in q e) refl))
          (λ q m off.
            clear-next s p q (elem-apart p q us out_front m) (λ e. off (sym unlink_links.0 ∙ e)))
          (λ q m off.
            clear-preview s p q (elem-apart p q vs unlink_parts.1.0 m)
              (λ e. off (sym unlink_links.1 ∙ e)))
          (λ q m.
            clear-next s p q (elem-apart p q vs unlink_parts.1.0 m)
              (λ e. elem-apart q q vs (cross q (before_in q e)) m refl))
          h.links
          (λ q e.
            clear-next_before s p q (elem-apart p q us out_front (back-none-elem us q e))
              (unlink_links.0 ∙ e)
            ∙ unlink_links.1)
          (λ q e.
            clear-preview_next s p q (elem-apart p q vs unlink_parts.1.0 (front-elem vs q e))
              (λ e'. elem-apart p p us out_front (before_in p e') refl) (unlink_links.1 ∙ e)
            ∙ unlink_links.0);
    distinct =
        subst Distinct (erase-append us vs p out_front)
          (erase-Distinct p (us ++ p ∷ vs) h.distinct);
  }

  pub clear-Untouched : (q : ℕ) → elem q (us ++ p ∷ vs) ≡ false → Untouched s (clear s p) q
  clear-Untouched q out =
      let ne : p ≢ q = λ e. elem-apart q p (us ++ p ∷ vs) out (elem-middle p us vs) (sym e) in
      let (ou, ov) : (elem q us ≡ false) × (elem q vs ≡ false) =
        ground (arith, elem-append q us (p ∷ vs)) in
      record {
        next_slot = clear-next s p q ne (λ e. elem-apart q q us ou (before_in q e) refl);
        preview_slot = clear-preview s p q ne (λ e. elem-apart q q vs ov (ahead_in q e) refl);
      }
