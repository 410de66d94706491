-- ===== src/Slot/Alias.antt =====
-- The alias group of a slot in capability_component.hpp: `last_alias_in_group`, `has_child` and
-- `insert_child`.
use a9n.Base.{
  Option-cases, some_inj, ℕ, zero, suc, ◌+◌, ◌≡◌, ◌<◌, ◌≢◌, refl, sym, ap, ◌∙◌, true, false, Bool,
  none, some, List, [], ◌∷◌, ◌++◌, arith, elem, length, inl, inr, Bool-cases, elem-append, ◌==◌,
  write-ne, write_self, if◌then◌else◌, subst, not, ◌||◌, is_some, same_pointer,
}
use mathlib.Core.List.{append_assoc, append-nil}
use a9n.Dll.{front, back, Seg-split, elem-apart, back-next, back-none-elem, back-push}
use a9n.CapabilityTypes.{CapabilityType, type_code, is_none}
use a9n.Slot.{
  last_alias_in_group, Slots, is_peer, is_same_object, last_alias, has_child, is_deeper,
  insert_child, insert, set_depth, component_is_same_object,
}
use a9n.Slot.Chain.{Chain, insert-Chain, Chain-frame, insert-Content}

-- The aliases of `p` at the front of a list, and what follows them.
abbrev pub peers : Slots → ℕ → List ℕ → List ℕ
peers s p [] = []
peers s p (q ∷ qs) = let further = peers s p qs in if is_peer s p q then q ∷ further else []

abbrev pub beyond : Slots → ℕ → List ℕ → List ℕ
beyond s p [] = []
beyond s p (q ∷ qs) = let further = beyond s p qs in if is_peer s p q then further else q ∷ qs

pub peers-beyond : (s : Slots) (p : ℕ) (vs : List ℕ) → peers s p vs ++ beyond s p vs ≡ vs
peers-beyond s p [] = refl
peers-beyond s p (q ∷ qs) = elim (Bool-cases (is_peer s p q)) [
  | inl e ↦ rw e (ap (λ l. q ∷ l) (peers-beyond s p qs))
  | inr e ↦ rw e refl
]

-- The slot behind the last one of a part of a chain.
pub Chain-next :
    (s : Slots) (us vs : List ℕ) (p : ℕ)
    → back none us ≡ some p
    → Chain s (us ++ vs)
    → s.next_slot p ≡ front vs none
Chain-next s us vs p last h =
    back-next s.next_slot s.preview_slot none (front vs none) us p
      (Seg-split s.next_slot s.preview_slot none none us vs h.links).0 last

-- The walk to the last alias ends, with fuel for the slots behind it, at the end of the group.
pub last_alias_lem :
    (fuel : ℕ) (s : Slots) (p : ℕ) (us vs : List ℕ) (last : ℕ)
    → back none us ≡ some last
    → Chain s (us ++ vs)
    → length vs < fuel
    → (l : ℕ) × (last_alias fuel s p last ≡ some l) × (back none (us ++ peers s p vs) ≡ some l)
unfolding last_alias
last_alias_lem zero s p us vs last e h enough = absurd (omega arith)
last_alias_lem (suc fuel) s p us [] last e h enough =
    let next = Chain-next s us [] last e h in
    (last, rw (next, last_alias) refl, ap (back none) (append-nil us) ∙ e)
last_alias_lem (suc fuel) s p us (q ∷ qs) last e h enough =
    let next = Chain-next s us (q ∷ qs) last e h in
    elim (Bool-cases (is_peer s p q)) [
      | inl peer ↦
          let (l, found, end) =
            last_alias_lem fuel s p (us ++ q ∷ []) qs q (back-push us q)
              (subst (Chain s) (sym (append_assoc us (q ∷ []) qs)) h) (omega arith) in
          (
            l,
            rw (next, last_alias, peer) found,
            rw peer (ap (back none) (sym (append_assoc us (q ∷ []) (peers s p qs))) ∙ end),
          )
      | inr other ↦
          (last, rw (next, last_alias, other) refl, rw other (ap (back none) (append-nil us) ∙ e))
    ]

-- `has_child` looks at the slot behind the group.
pub has_child_lem :
    (fuel : ℕ) (s : Slots) (us vs : List ℕ) (p : ℕ)
    → back none us ≡ some p
    → Chain s (us ++ vs)
    → length vs < fuel
    → has_child fuel s p ≡ some (is_deeper s p (front (beyond s p vs) none))
unfolding has_child
has_child_lem fuel s us vs p e h enough =
    let (l, found, end) = last_alias_lem fuel s p us vs p e h enough in
    let whole =
      append_assoc us (peers s p vs) (beyond s p vs) ∙ ap (λ l. us ++ l) (peers-beyond s p vs) in
    let next =
      Chain-next s (us ++ peers s p vs) (beyond s p vs) l end (subst (Chain s) (sym whole) h) in
    rw (found, has_child, next) refl

-- With any fuel, what the walk returns is the end of the group.
pub last_alias-end :
    (fuel : ℕ) (s : Slots) (p : ℕ) (us vs : List ℕ) (last l : ℕ)
    → back none us ≡ some last
    → Chain s (us ++ vs)
    → last_alias fuel s p last ≡ some l
    → back none (us ++ peers s p vs) ≡ some l
unfolding last_alias
last_alias-end zero s p us vs last l e h r = absurd (ground arith)
last_alias-end (suc fuel) s p us [] last l e h r =
    let next = Chain-next s us [] last e h in
    let here : last_alias (suc fuel) s p last ≡ some last = rw (next, last_alias) refl in
    ap (back none) (append-nil us) ∙ e ∙ sym here ∙ r
last_alias-end (suc fuel) s p us (q ∷ qs) last l e h r =
    let next = Chain-next s us (q ∷ qs) last e h in
    elim (Bool-cases (is_peer s p q)) [
      | inl peer ↦
          let on : last_alias (suc fuel) s p last ≡ last_alias fuel s p q =
            rw (next, last_alias, peer) refl in
          rw peer (
            ap (back none) (sym (append_assoc us (q ∷ []) (peers s p qs)))
            ∙ last_alias-end fuel s p (us ++ q ∷ []) qs q l (back-push us q)
                (subst (Chain s) (sym (append_assoc us (q ∷ []) qs)) h) (sym on ∙ r))
      | inr other ↦
          let here : last_alias (suc fuel) s p last ≡ some last =
            rw (next, last_alias, other) refl in
          rw other (ap (back none) (append-nil us) ∙ e ∙ sym here ∙ r)
    ]

-- With any fuel, `has_child` looks at the slot behind the group.
pub has_child-end :
    (fuel : ℕ) (s : Slots) (us vs : List ℕ) (p : ℕ) (b : Bool)
    → back none us ≡ some p
    → Chain s (us ++ vs)
    → has_child fuel s p ≡ some b
    → b ≡ is_deeper s p (front (beyond s p vs) none)
unfolding has_child
has_child-end fuel s us vs p b e h r = elim (Option-cases (last_alias_in_group fuel s p)) [
  | inl off ↦ let no : has_child fuel s p ≡ none = rw (off, has_child) refl in absurd (ground arith)
  | inr (l, found) ↦
      let end = last_alias-end fuel s p us vs p l e h found in
      let whole =
        append_assoc us (peers s p vs) (beyond s p vs) ∙ ap (λ l. us ++ l) (peers-beyond s p vs) in
      let next =
        Chain-next s (us ++ peers s p vs) (beyond s p vs) l end (subst (Chain s) (sym whole) h) in
      let at : has_child fuel s p ≡ some (is_deeper s p (front (beyond s p vs) none)) =
        rw (found, has_child, next) refl in
      some_inj (sym r ∙ at)
]

-- A child is new, so the writes of its own depth leave the group of `p` as it is.
pub peers-same :
    (s s' : Slots) (p : ℕ) (vs : List ℕ)
    → ((q : ℕ) → elem q vs ≡ true → is_peer s' p q ≡ is_peer s p q)
    → (peers s' p vs ≡ peers s p vs) × (beyond s' p vs ≡ beyond s p vs)
peers-same s s' p [] same = (refl, refl)
peers-same s s' p (q ∷ qs) same =
    let rest = peers-same s s' p qs (λ r m. same r (ground arith)) in
    rw (same q (ground arith), rest.0, rest.1) (refl, refl)

depth-component :
    (s : Slots) (t : CapabilityType) (c d p q : ℕ)
    → component_is_same_object (set_depth s c d) t p q ≡ component_is_same_object s t p q
unfolding component_is_same_object
depth-component s CapabilityType.generic c d p q = refl
depth-component s _ c d p q = refl

depth-is_same_object :
    (s : Slots) (c d p q : ℕ) → is_same_object (set_depth s c d) p q ≡ is_same_object s p q
unfolding is_same_object component_is_same_object
depth-is_same_object s c d p q =
    ap
      (λ (b : Bool).
        if is_none (s.type p)
          || not (type_code (s.type p) == type_code (s.type q))
          || not (is_some (s.component p))
          || not (same_pointer (s.component p) (s.component q))
        then false
        else b)
      (depth-component s (s.type p) c d p q)

-- `insert_child` ends, gives the child the depth below `p`, and puts it behind all aliases of `p`.
pub insert_child_lem :
    (fuel : ℕ) (s : Slots) (us vs : List ℕ) (p c : ℕ)
    → back none us ≡ some p
    → Chain s (us ++ vs)
    → elem c (us ++ vs) ≡ false
    → length vs < fuel
    → (s' : Slots) × (insert_child fuel s p c ≡ some s')
      × Chain s' ((us ++ peers s p vs) ++ c ∷ beyond s p vs)
      × (s'.depth c ≡ s.depth p + 1)
unfolding insert_child
insert_child_lem fuel s us vs p c e h out enough =
    let s1 = set_depth s c (s.depth p + 1) in
    let apart : (q : ℕ) → elem q (us ++ vs) ≡ true → c ≢ q =
      λ q m. elem-apart c q (us ++ vs) out m in
    let mine : elem p (us ++ vs) ≡ true =
      ground (arith, elem-append p us vs, back-none-elem us p e) in
    let same = peers-same s s1 p vs (λ q m.
      let at_q =
        write-ne s.depth c (s.depth p + 1) (apart q (ground (arith, elem-append q us vs))) in
      let at_p = write-ne s.depth c (s.depth p + 1) (apart p mine) in
      rw (at_q, at_p, depth-is_same_object s c (s.depth p + 1) p q) refl) in
    let h1 : Chain s1 (us ++ vs) = Chain-frame h (λ q m. refl) (λ q m. refl) in
    let (l, found, end) = last_alias_lem fuel s1 p us vs p e h1 enough in
    let whole =
      append_assoc us (peers s p vs) (beyond s p vs) ∙ ap (λ l. us ++ l) (peers-beyond s p vs) in
    (
      insert s1 l c,
      rw (found, insert_child) refl,
      insert-Chain s1 (us ++ peers s p vs) (beyond s p vs) l
          (ap (λ z. back none (us ++ z)) (sym same.0) ∙ end) (subst (Chain s1) (sym whole) h1) c
          (ap (elem c) whole ∙ out),
      ap (λ (f : ℕ → ℕ). f c) (insert-Content s1 l c).depth ∙ write_self s.depth c (s.depth p + 1),
    )
