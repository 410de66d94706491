-- ===== src/Reclamation/Loop.antt =====
-- The loop of `revoke_slot` in capability_node_reclamation.cpp, and the induction on its fuel.
use a9n.Base.{
  ℕ, zero, suc, ◌*◌, ◌≡◌, ◌<◌, ◌≤◌, sym, ap, ◌∙◌, true, false, Bool, none, some, List, [], ◌∷◌,
  ◌++◌, arith, elem, inl, inr, Bool-cases, Distinct, Distinct-append, elem-append, subst, ltb,
  length, length-append, ◌==◌, ==_iff,
}
use a9n.Base.Result.{ok}
use a9n.CapabilityTypes.{CapabilityType}
use a9n.Dll.{back}
use a9n.Slot.{Slots}
use a9n.Slot.Alias.{Chain-next}
use a9n.Slot.Alike.{Kept-Alike}
use a9n.Slot.Chain.{Chain}
use a9n.Slot.Unlink.{Kept}
use a9n.Reclamation.{Objects, remove_children}
use a9n.Reclamation.Dropped.{Dropped, Dropped-none, Dropped-trans}
use a9n.Reclamation.Grouped.{
  deeper, shallower, deeper-shallower, deeper-append, deeper-same, Grouped, Grouped-suffix,
  Grouped-Alike,
}
use a9n.Reclamation.Revoke.{IsLocal, Quiet, Quiet-Kept, Drops}
use a9n.Reclamation.Remove.{Gone, remove_slot_run, children_end, children_off, children_on}

module _ {O : Type 0} (objects : Objects O) (leaf : CapabilityType → Bool)
    (law : IsLocal objects leaf) where
  -- After the first slot behind `last` and what went with it, the loop goes on with the others.
  going_on-Drops :
      (fuel : ℕ)
      → Drops objects leaf law fuel
      → (s : Slots) (o : O) (us qs : List ℕ) (q p last f : ℕ) → back none us ≡ some last
      → Chain s (us ++ q ∷ qs)
      → elem p us ≡ true
      → Grouped s (q ∷ qs)
      → ((r : ℕ) → elem r (q ∷ qs) ≡ true → Quiet leaf s r)
      → 3 * length qs < fuel
      → s.depth p < s.depth q
      → (g : Gone objects leaf law f s o us q qs)
      → (s' : Slots) × (o' : O) × (remove_children objects fuel g.s' g.o' p last
          ≡ some (ok tt, s', o'))
        × Dropped s s' us
            (deeper s.depth (s.depth p) (q ∷ qs))
            (shallower s.depth (s.depth p) (q ∷ qs))
  going_on-Drops fuel ih s o us qs q p last f e h m grouped quiets enough deep g =
      let whole : q ∷ qs ≡ (q ∷ g.gone) ++ g.rest = ap (λ l. q ∷ l) g.split in
      let d = subst Distinct (ap (λ l. us ++ l) whole) h.distinct in
      let apart = Distinct-append us ((q ∷ g.gone) ++ g.rest) d in
      let inner = Distinct-append (q ∷ g.gone) g.rest apart.1 in
      let out_gone : (r : ℕ) → elem r g.rest ≡ true → elem r (q ∷ g.gone) ≡ false = λ r i.
        elim (Bool-cases (elem r (q ∷ g.gone))) [
          | inl j ↦ let no = inner.2 r j in absurd (ground arith)
          | inr out ↦ out
        ] in
      let kept_rest : (r : ℕ) → elem r g.rest ≡ true → Kept s g.s' r =
        λ r i. g.dropped.kept r (out_gone r i) in
      let in_whole : (r : ℕ) → elem r g.rest ≡ true → elem r (q ∷ qs) ≡ true =
        λ r i. ap (elem r) whole ∙ ground (arith, elem-append r (q ∷ g.gone) g.rest) in
      let kept_p : Kept s g.s' p =
        let out = apart.2 p m in
        g.dropped.kept p (ground (arith, elem-append p (q ∷ g.gone) g.rest)) in
      let (s', o', ran, drop) =
        ih g.s' g.o' us g.rest p last e g.dropped.chain m
          (Grouped-Alike s g.s' g.rest (λ r i. Kept-Alike (kept_rest r i))
            (Grouped-suffix s (q ∷ g.gone) g.rest (subst (Grouped s) whole grouped)))
          (λ r i. Quiet-Kept (kept_rest r i) (quiets r (in_whole r i)))
          (omega (arith, length-append g.gone g.rest, ap length g.split)) in
      let same =
        deeper-same s.depth g.s'.depth (g.s'.depth p) g.rest (λ r i. (kept_rest r i).depth) in
      let front_all = deeper-append s.depth (s.depth p) (q ∷ g.gone) g.rest (λ r i.
        elim (Bool-cases (q == r)) [
          | inl eq ↦ subst (λ (k : ℕ). s.depth p < s.depth k) ((==_iff q r).0 eq) deep
          | inr ne ↦ let b = g.below r (ground (arith, ne, i)) in omega arith
        ]) in
      let gone_eq : deeper s.depth (s.depth p) (q ∷ qs)
          ≡ (q ∷ g.gone) ++ deeper g.s'.depth (g.s'.depth p) g.rest =
        ap (deeper s.depth (s.depth p)) whole
        ∙ front_all.0
        ∙ ap (λ (k : ℕ). (q ∷ g.gone) ++ deeper s.depth k g.rest) (sym kept_p.depth)
        ∙ ap (λ l. (q ∷ g.gone) ++ l) (sym same.0) in
      let rest_eq : shallower s.depth (s.depth p) (q ∷ qs)
          ≡ shallower g.s'.depth (g.s'.depth p) g.rest =
        ap (shallower s.depth (s.depth p)) whole
        ∙ front_all.1
        ∙ ap (λ (k : ℕ). shallower s.depth k g.rest) (sym kept_p.depth)
        ∙ sym same.1 in
      let both =
        Dropped-trans d (sym (deeper-shallower g.s'.depth (g.s'.depth p) g.rest)) g.dropped drop in
      (
        s',
        o',
        ran,
        subst (λ l. Dropped s s' us l (shallower s.depth (s.depth p) (q ∷ qs))) (sym gone_eq)
            (subst (Dropped s s' us _) (sym rest_eq) both),
      )

  drops_none :
      (fuel : ℕ) (s : Slots) (o : O) (us : List ℕ) (p last : ℕ)
      → back none us ≡ some last
      → Chain s (us ++ [])
      → (s' : Slots) × (o' : O) × (remove_children objects (suc fuel) s o p last
          ≡ some (ok tt, s', o'))
        × Dropped s s' us [] []
  drops_none fuel s o us p last e h = (
    s,
    o,
    children_end objects leaf law fuel s o p last (Chain-next s us [] last e h),
    Dropped-none s us [] h,
  )

  step-Drops :
      (fuel : ℕ)
      → Drops objects leaf law fuel
      → Drops objects leaf law (suc (suc fuel))
      → Drops objects leaf law (suc (suc (suc fuel)))
  step-Drops fuel ih ih' s o us [] p last e h m grouped quiets enough =
      drops_none (suc (suc fuel)) s o us p last e h
  step-Drops fuel ih ih' s o us (q ∷ qs) p last e h m grouped quiets enough =
      let next = Chain-next s us (q ∷ qs) last e h in
      elim (Bool-cases (ltb (s.depth p) (s.depth q))) [
        | inr off ↦ (
          s,
          o,
          children_off objects leaf law (suc (suc fuel)) s o p last q next off,
          rw off (Dropped-none s us (q ∷ qs) h),
        )
        | inl on ↦
            let g =
              remove_slot_run objects leaf law fuel ih s o us qs q h (quiets q (ground arith))
                grouped (λ r i. quiets r (ground arith)) (omega arith) in
            let (s', o', ran, drop) =
              going_on-Drops (suc (suc fuel)) ih' s o us qs q p last (suc (suc fuel)) e h m grouped
                quiets (omega arith) (ground (arith, on)) g in
            (
              s',
              o',
              children_on objects leaf law (suc (suc fuel)) s g.s' o g.o' p last q next on g.returns
                  ∙ ran,
              drop,
            )
      ]

  small-Drops : (fuel : ℕ) → fuel ≤ 3 → Drops objects leaf law fuel
  small-Drops zero small s o us vs p last e h m grouped quiets enough = absurd (omega arith)
  small-Drops (suc fuel) small s o us [] p last e h m grouped quiets enough =
      drops_none fuel s o us p last e h
  small-Drops (suc fuel) small s o us (q ∷ qs) p last e h m grouped quiets enough =
      absurd (omega arith)

  -- Fuel for three calls a slot is enough for the loop.
  pub all_Drops : (fuel : ℕ) → Drops objects leaf law fuel
  all_Drops zero = small-Drops 0 (omega arith)
  all_Drops (suc zero) = small-Drops 1 (omega arith)
  all_Drops (suc (suc zero)) = small-Drops 2 (omega arith)
  all_Drops (suc (suc (suc fuel))) = step-Drops fuel (all_Drops fuel) (all_Drops (suc (suc fuel)))
