-- ===== src/Slot/Chain.antt =====
-- The dependency chain of capability_component.hpp as a list of slots: what `insert` and
-- `remove_from_dependency_node` do to it.
use a9n.Base.{
  ℕ, ◌≡◌, ◌≢◌, refl, sym, ap, ◌∙◌, true, false, none, some, List, ◌∷◌, ◌++◌, arith, elem, Distinct,
  Distinct-append, Distinct-insert, elem-append, some_inj,
}
use a9n.Dll.{
  front, back, Seg, Seg-split, Seg-insert, Seg-frame, elem-apart, front-elem, back-none-elem,
  back-next,
}
use a9n.Slot.{Slots, insert}

-- The slots `xs` are one chain, from its first slot to its last.
pub record Chain (s : Slots) (xs : List ℕ) : Type 0 where
  pub links : Seg s.next_slot s.preview_slot none xs none
  pub distinct : Distinct xs

module _ (s : Slots) (p c : ℕ) where
  insert-next : (q : ℕ) → p ≢ q → c ≢ q → (insert s p c).next_slot q ≡ s.next_slot q
  unfolding insert
  insert-next q ne ne' = ground arith

  pub insert-next_self : p ≢ c → (insert s p c).next_slot p ≡ some c
  unfolding insert
  insert-next_self ne = ground arith

  pub insert-next_new : (insert s p c).next_slot c ≡ s.next_slot p
  unfolding insert
  insert-next_new = ground arith

  pub insert-preview :
      (q : ℕ) → c ≢ q → s.next_slot p ≢ some q → (insert s p c).preview_slot q ≡ s.preview_slot q
  unfolding insert
  insert-preview q ne off = ground arith

  insert-preview_new : s.next_slot p ≢ some c → (insert s p c).preview_slot c ≡ some p
  unfolding insert
  insert-preview_new off = ground arith

  insert-preview_next : (q : ℕ) → s.next_slot p ≡ some q → (insert s p c).preview_slot q ≡ some c
  unfolding insert
  insert-preview_next q e = rw (e, insert) (ground arith)

-- The chain `us ++ vs`, where `p` is the last slot of `us`.
module _ (s : Slots) (us vs : List ℕ) (p : ℕ) (last : back none us ≡ some p)
    (h : Chain s (us ++ vs)) where
  chain_parts : Distinct us × Distinct vs × ((q : ℕ) → elem q us ≡ true → elem q vs ≡ false)
  chain_parts = Distinct-append us vs h.distinct

  last-next : s.next_slot p ≡ front vs none
  last-next =
      back-next s.next_slot s.preview_slot none (front vs none) us p
        (Seg-split s.next_slot s.preview_slot none none us vs h.links).0 last

  last-elem : elem p us ≡ true
  last-elem = back-none-elem us p last

  next-elem : (q : ℕ) → s.next_slot p ≡ some q → elem q vs ≡ true
  next-elem q e = front-elem vs q (sym last-next ∙ e)

  module _ (c : ℕ) (out : elem c (us ++ vs) ≡ false) where
    out_of : (elem c us ≡ false) × (elem c vs ≡ false)
    out_of = ground (arith, elem-append c us vs)

    insert-links : Seg (insert s p c).next_slot (insert s p c).preview_slot none (us ++ c ∷ vs) none
    insert-links =
        let apart : p ≢ c = λ e. elem-apart c p us out_of.0 last-elem (sym e) in
        Seg-insert (insert s p c).next_slot (insert s p c).preview_slot us vs c chain_parts.0
          chain_parts.1
          (λ q m.
            insert-preview s p c q (elem-apart c q us out_of.0 m)
              (λ e. elem-apart q q vs (chain_parts.2 q m) (next-elem q e) refl))
          (λ q m ne.
            insert-next s p c q (λ e. ne (last ∙ ap some e)) (elem-apart c q us out_of.0 m))
          (λ q m ne.
            insert-preview s p c q (elem-apart c q vs out_of.1 m) (λ e. ne (sym last-next ∙ e)))
          (λ q m.
            insert-next s p c q
              (λ e.
                elem-apart q q vs (chain_parts.2 q (ap (λ (k : ℕ). elem k us) (sym e) ∙ last-elem))
                  m refl)
              (elem-apart c q vs out_of.1 m))
          h.links
          (λ q e.
            ap (insert s p c).next_slot (some_inj (sym e ∙ last)) ∙ insert-next_self s p c apart)
          (λ q e. insert-preview_next s p c q (last-next ∙ e))
          (insert-preview_new s p c (λ e. elem-apart c c vs out_of.1 (next-elem c e) refl)
            ∙ sym last)
          (insert-next_new s p c ∙ last-next)

    -- `insert` puts a slot from outside right behind `p`.
    pub insert-Chain : Chain (insert s p c) (us ++ c ∷ vs)
    insert-Chain = record {
      links = insert-links;
      distinct = Distinct-insert us vs c h.distinct out;
    }

pub Chain-frame :
    {s s' : Slots} {xs : List ℕ}
    → Chain s xs
    → ((q : ℕ) → elem q xs ≡ true → s'.next_slot q ≡ s.next_slot q)
    → ((q : ℕ) → elem q xs ≡ true → s'.preview_slot q ≡ s.preview_slot q)
    → Chain s' xs
Chain-frame {s} {s'} {xs} h n p = record {
  links = Seg-frame s'.next_slot s'.preview_slot none none xs h.links n p;
  distinct = h.distinct;
}

pub in_chain : (us vs : List ℕ) (p : ℕ) → back none us ≡ some p → elem p (us ++ vs) ≡ true
in_chain us vs p last = ground (arith, elem-append p us vs, back-none-elem us p last)

-- The fields of the slots, but their links, are equal.
pub record Content (s s' : Slots) : Type 0 where
  pub component : s'.component ≡ s.component
  pub type : s'.type ≡ s.type
  pub rights : s'.rights ≡ s.rights
  pub reclaiming : s'.reclaiming ≡ s.reclaiming
  pub local : s'.local ≡ s.local
  pub depth : s'.depth ≡ s.depth

pub insert-Content : (s : Slots) (p c : ℕ) → Content s (insert s p c)
unfolding insert
insert-Content s p c = record {
  component = ground arith;
  type = ground arith;
  rights = ground arith;
  reclaiming = ground arith;
  local = ground arith;
  depth = ground arith;
}
