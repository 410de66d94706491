-- ===== src/Reclamation/Revoke.antt =====
-- What `revoke_slot` and `remove_slot` of capability_node_reclamation.cpp do to a dependency chain.
use a9n.Base.{
  ℕ, suc, ◌*◌, ◌≡◌, ◌≢◌, ◌<◌, refl, sym, ap, ◌∙◌, true, false, Bool, none, some, List, ◌∷◌, ◌++◌,
  arith, elem, inl, inr, Bool-cases, Distinct, Distinct-append, elem-append, subst, length,
  length-append, is_some, not, ◌||◌, write_self, write-ne,
}
use mathlib.Core.List.{append_assoc}
use a9n.Base.Result.{ok}
use a9n.CapabilityTypes.{CapabilityType, SlotData, is_none}
use a9n.Dll.{front, back, back-none-elem, elem-apart}
use a9n.Slot.{Slots, set_reclaiming, set_local, has_child, is_deeper, last_alias_in_group}
use a9n.Slot.Alias.{peers, beyond, peers-beyond, last_alias_lem, peers-same}
use a9n.Slot.Alike.{Alike, Alike-trans, Kept-Alike, is_peer-Alike}
use a9n.Slot.Chain.{Chain}
use a9n.Slot.Unlink.{Kept}
use a9n.Reclamation.{Objects, revoke_slot, remove_children}
use a9n.Reclamation.Dropped.{Dropped, Tweak, Tweak-Chain}
use a9n.Reclamation.Grouped.{
  deeper, shallower, Grouped, Grouped-suffix, Grouped-Alike, beyond-elem, not_deeper,
  shallower-elem,
}
use a9n.Reclamation.Groups.{peers-elem, beyond-append, shallower-front, has_child-false}

-- The objects whose teardown is local: for a slot of a `leaf` type with no slot below it, the object's
-- `revoke` succeeds and of all slots changes at most the words of this one.
pub record IsLocal {O : Type 0} (objects : Objects O) (leaf : CapabilityType → Bool) : Type 0 where
  pub revokes :
      (s : Slots) (o : O) (p : ℕ)
      → leaf (s.type p) ≡ true
      → ((fuel : ℕ) → has_child fuel s p ≢ some true)
      → (d : SlotData) × (o' : O) × (objects.revoke s o p ≡ (true, set_local s p d, o'))

-- A slot that no reclamation holds, with an object of a leaf type.
pub record Quiet (leaf : CapabilityType → Bool) (s : Slots) (q : ℕ) : Type 0 where
  pub idle : s.reclaiming q ≡ false
  pub of_leaf : leaf (s.type q) ≡ true

pub Quiet-Kept :
    {leaf : CapabilityType → Bool} {s s' : Slots} {q : ℕ}
    → Kept s s' q
    → Quiet leaf s q
    → Quiet leaf s' q
Quiet-Kept {leaf} k h = record {
  idle = k.reclaiming ∙ h.idle;
  of_leaf = ap leaf k.type ∙ h.of_leaf;
}

pub set_reclaiming-Tweak : (s : Slots) (p : ℕ) (b : Bool) → Tweak s (set_reclaiming s p b) p
set_reclaiming-Tweak s p b = record {
  next_slot = refl;
  preview_slot = refl;
  others = λ r ne. record {
    component = refl;
    type = refl;
    rights = refl;
    reclaiming = write-ne s.reclaiming p b ne;
    local = refl;
    depth = refl;
  };
}

ending-Tweak :
    (s : Slots) (p : ℕ) (d : SlotData) → Tweak s (set_reclaiming (set_local s p d) p false) p
ending-Tweak s p d = record {
  next_slot = refl;
  preview_slot = refl;
  others = λ r ne. record {
    component = refl;
    type = refl;
    rights = refl;
    reclaiming = write-ne s.reclaiming p false ne;
    local = write-ne s.local p d ne;
    depth = refl;
  };
}

module _ {O : Type 0} (objects : Objects O) (leaf : CapabilityType → Bool)
    (law : IsLocal objects leaf) where
  -- What the loop of `revoke_slot` does with a given fuel: it ends, and takes out what is deeper than
  -- `p` behind `last`.
  abbrev pub Drops : ℕ → Type 0
  Drops fuel =
      (s : Slots) (o : O) (us vs : List ℕ) (p last : ℕ)
      → back none us ≡ some last
      → Chain s (us ++ vs)
      → elem p us ≡ true
      → Grouped s vs
      → ((q : ℕ) → elem q vs ≡ true → Quiet leaf s q)
      → 3 * length vs < fuel
      → (s' : Slots) × (o' : O) × (remove_children objects fuel s o p last ≡ some (ok tt, s', o'))
        × Dropped s s' us (deeper s.depth (s.depth p) vs) (shallower s.depth (s.depth p) vs)

  revoke_slot_step :
      (fuel : ℕ) (s u v : Slots) (o o2 o3 : O) (p last : ℕ)
      → (is_none (s.type p) || not (is_some (s.component p)) || s.reclaiming p) ≡ false
      → last_alias_in_group fuel (set_reclaiming s p true) p ≡ some last
      → remove_children objects fuel (set_reclaiming s p true) o p last ≡ some (ok tt, u, o2)
      → objects.revoke u o2 p ≡ (true, v, o3)
      → revoke_slot objects (suc fuel) s o p ≡ some (ok tt, set_reclaiming v p false, o3)
  unfolding revoke_slot
  revoke_slot_step fuel s u v o o2 o3 p last guard found ran done =
      rw (guard, revoke_slot, found, ran, done) refl

  -- How `revoke_slot` runs on a slot `p` at the end of `us`.
  pub record Run (fuel : ℕ) (s : Slots) (o : O) (us vs : List ℕ) (p : ℕ) : Type 0 where
    pub u : Slots
    pub s' : Slots
    pub o' : O
    pub returns : revoke_slot objects (suc fuel) s o p ≡ some (ok tt, s', o')
    pub drop :
        Dropped
          (set_reclaiming s p true)
          u
          (us ++ peers s p vs)
          (deeper s.depth (s.depth p) (beyond s p vs))
          (shallower s.depth (s.depth p) (beyond s p vs))
    pub last : Tweak u s' p
    pub idle : s'.reclaiming p ≡ false
    pub rights : s'.rights p ≡ s.rights p
    pub alike_type : s'.type p ≡ s.type p

  module _ (fuel : ℕ) (ih : Drops fuel) (s : Slots) (o : O) (us vs : List ℕ) (p : ℕ)
      (e : back none us ≡ some p) (h : Chain s (us ++ vs)) (quiet : Quiet leaf s p)
      (guard : (is_none (s.type p) || not (is_some (s.component p)) || s.reclaiming p) ≡ false)
      (grouped : Grouped s (p ∷ vs)) (quiets : (q : ℕ) → elem q vs ≡ true → Quiet leaf s q)
      (enough : 3 * length vs < fuel) where
    abbrev t : Slots
    t = set_reclaiming s p true

    abbrev ps : List ℕ
    ps = peers s p vs

    abbrev bs : List ℕ
    bs = beyond s p vs

    abbrev gone : List ℕ
    gone = deeper s.depth (s.depth p) bs

    abbrev rest : List ℕ
    rest = shallower s.depth (s.depth p) bs

    marked : (q : ℕ) → Alike s t q
    marked q = record { component = refl; type = refl; local = refl; depth = refl }

    same_group : (peers t p vs ≡ ps) × (beyond t p vs ≡ bs)
    same_group = peers-same s t p vs (λ q m. is_peer-Alike s t p q (marked p) (marked q))

    whole : (us ++ ps) ++ bs ≡ us ++ vs
    whole = append_assoc us ps bs ∙ ap (λ l. us ++ l) (peers-beyond s p vs)

    apart : Distinct us × Distinct vs × ((q : ℕ) → elem q us ≡ true → elem q vs ≡ false)
    apart = Distinct-append us vs h.distinct

    out_vs : elem p vs ≡ false
    out_vs = apart.2 p (back-none-elem us p e)

    in_vs : (q : ℕ) → (elem q vs ≡ false) → elem q bs ≡ false
    in_vs q o = elim (Bool-cases (elem q bs)) [
      | inl i ↦ let m = beyond-elem s p q vs i in absurd (ground arith)
      | inr out ↦ out
    ]

    parts : Distinct ps × Distinct bs × ((q : ℕ) → elem q ps ≡ true → elem q bs ≡ false)
    parts = Distinct-append ps bs (subst Distinct (sym (peers-beyond s p vs)) apart.1)

    run :
        (last : ℕ)
        → back none (us ++ ps) ≡ some last
        → (u : Slots) × (o2 : O) × (remove_children objects fuel t o p last ≡ some (ok tt, u, o2))
          × Dropped t u (us ++ ps) gone rest
    run last end =
        ih t o (us ++ ps) bs p last end
          (Tweak-Chain (set_reclaiming-Tweak s p true) (subst (Chain s) (sym whole) h))
          (ground (arith, elem-append p us ps, back-none-elem us p e))
          (Grouped-Alike s t bs (λ q m. marked q)
            (Grouped-suffix s ps bs (subst (Grouped s) (sym (peers-beyond s p vs)) grouped.1)))
          (λ q m.
            let m' = beyond-elem s p q vs m in
            Quiet-Kept ((set_reclaiming-Tweak s p true).others q (elem-apart p q vs out_vs m'))
              (quiets q m'))
          (omega (arith, length-append ps bs, ap length (peers-beyond s p vs)))

    module _ (u : Slots) (drop : Dropped t u (us ++ ps) gone rest) where
      -- A slot that was not removed has its fields.
      held : (q : ℕ) → elem q gone ≡ false → Alike s u q
      held q out = Alike-trans (marked q) (Kept-Alike (drop.kept q out))

      held_p : Alike s u p
      held_p = held p (not_deeper s.depth (s.depth p) p bs (in_vs p out_vs))

      regrouped : beyond u p (ps ++ rest) ≡ rest
      regrouped =
          beyond-append u p ps rest
            (λ q m.
              is_peer-Alike s u p q held_p
                (held q (not_deeper s.depth (s.depth p) q bs (parts.2 q m)))
              ∙ peers-elem s p q vs m)
            (λ q m.
              let (out, i) = shallower-elem s.depth (s.depth p) q bs parts.1 m in
              is_peer-Alike s u p q held_p (held q out) ∙ grouped.0 q i)

      childless : (f : ℕ) → has_child f u p ≢ some true
      childless f =
          has_child-false f u us (ps ++ rest) p e
            (subst (Chain u) (append_assoc us ps rest) drop.chain)
            (ap (λ l. is_deeper u p (front l none)) regrouped
              ∙ shallower-front u p s.depth (s.depth p) bs held_p.depth
                  (λ q m. (held q (shallower-elem s.depth (s.depth p) q bs parts.1 m).0).depth))

    pub revoke_slot-Run : Run fuel s o us vs p
    revoke_slot-Run =
        let (l, found, end) =
          last_alias_lem fuel t p us vs p e (Tweak-Chain (set_reclaiming-Tweak s p true) h)
            (omega arith) in
        let (u, o2, ran, drop) = run l (ap (λ g. back none (us ++ g)) (sym same_group.0) ∙ end) in
        let (d, o3, done) =
          law.revokes u o2 p (ap leaf (held_p u drop).type ∙ quiet.of_leaf) (childless u drop) in
        record {
          u = u;
          s' = set_reclaiming (set_local u p d) p false;
          o' = o3;
          returns = revoke_slot_step fuel s u (set_local u p d) o o2 o3 p l guard found ran done;
          drop = drop;
          last = ending-Tweak u p d;
          idle = write_self u.reclaiming p false;
          rights = (drop.kept p (not_deeper s.depth (s.depth p) p bs (in_vs p out_vs))).rights;
          alike_type = (held_p u drop).type;
        }
