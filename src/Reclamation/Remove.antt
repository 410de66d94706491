-- ===== src/Reclamation/Remove.antt =====
-- The mutual recursion of capability_node_reclamation.cpp: `remove_slot` on a slot of a chain, and the
-- loop of `revoke_slot`, on fuel that is enough.
use a9n.Base.{
  ℕ, suc, ◌*◌, ◌≡◌, ◌<◌, refl, sym, ap, ◌∙◌, true, false, Bool, none, some, List, [], ◌∷◌, ◌++◌,
  arith, elem, inl, inr, Bool-cases, Distinct, subst, ltb, length, is_some, not, ◌||◌,
}
use mathlib.Core.List.{append_assoc, append-nil}
use a9n.Base.Result.{ok}
use a9n.CapabilityTypes.{CapabilityType, is_none}
use a9n.Dll.{back-push}
use a9n.Slot.{Slots, has_sibling}
use a9n.Slot.Alias.{peers, beyond, Chain-next}
use a9n.Slot.Alike.{has_sibling-next}
use a9n.Slot.Chain.{Chain}
use a9n.Slot.Unlink.{clear}
use a9n.Reclamation.{Objects, remove_children, remove_slot, revoke_slot, unlink_and_clear_slot}
use a9n.Reclamation.Dropped.{Dropped, Dropped-around, clear-Dropped}
use a9n.Reclamation.Grouped.{deeper, shallower, deeper-shallower, deeper-elem, Grouped}
use a9n.Reclamation.Groups.{peers-none}
use a9n.Reclamation.Revoke.{IsLocal, Quiet, Drops, revoke_slot-Run, set_reclaiming-Tweak}

tidy :
    {t u : Slots} (depth : ℕ → ℕ) (d : ℕ) (us qs ps bs : List ℕ)
    → ps ≡ []
    → bs ≡ qs
    → Dropped t u (us ++ ps) (deeper depth d bs) (shallower depth d bs)
    → Dropped t u us (deeper depth d qs) (shallower depth d qs)
tidy {t} {u} depth d us qs ps bs e e' a =
    subst (λ l. Dropped t u us (deeper depth d l) (shallower depth d l)) e'
      (subst (λ l. Dropped t u l (deeper depth d bs) (shallower depth d bs))
        (ap (λ l. us ++ l) e ∙ append-nil us) a)

module _ {O : Type 0} (objects : Objects O) (leaf : CapabilityType → Bool)
    (law : IsLocal objects leaf) where
  -- How `remove_slot` runs on the slot `q` between `us` and `qs`: with `q` go, at most, slots that are
  -- deeper and right behind it.
  pub record Gone (fuel : ℕ) (s : Slots) (o : O) (us : List ℕ) (q : ℕ) (qs : List ℕ) : Type 0 where
    pub s' : Slots
    pub o' : O
    pub gone : List ℕ
    pub rest : List ℕ
    pub returns : remove_slot objects fuel s o q ≡ some (ok tt, s', o')
    pub split : qs ≡ gone ++ rest
    pub below : (r : ℕ) → elem r gone ≡ true → s.depth q < s.depth r
    pub dropped : Dropped s s' us (q ∷ gone) rest

  remove_slot_alias :
      (fuel : ℕ) (s : Slots) (o : O) (q : ℕ)
      → s.reclaiming q ≡ false
      → (is_none (s.type q) || has_sibling s q || not (is_some (s.component q))) ≡ true
      → remove_slot objects (suc fuel) s o q ≡ some (ok tt, clear s q, o)
  unfolding remove_slot unlink_and_clear_slot
  remove_slot_alias fuel s o q idle light = rw (idle, remove_slot, light) refl

  remove_slot_last :
      (fuel : ℕ) (s v : Slots) (o o' : O) (q : ℕ)
      → s.reclaiming q ≡ false
      → (is_none (s.type q) || has_sibling s q || not (is_some (s.component q))) ≡ false
      → revoke_slot objects fuel s o q ≡ some (ok tt, v, o')
      → remove_slot objects (suc fuel) s o q ≡ some (ok tt, clear v q, o')
  unfolding remove_slot unlink_and_clear_slot
  remove_slot_last fuel s v o o' q idle heavy run = rw (idle, remove_slot, heavy, run) refl

  pub remove_slot_run :
      (fuel : ℕ)
      → Drops objects leaf law fuel
      → (s : Slots) (o : O) (us qs : List ℕ) (q : ℕ) → Chain s (us ++ q ∷ qs)
      → Quiet leaf s q
      → Grouped s (q ∷ qs)
      → ((r : ℕ) → elem r qs ≡ true → Quiet leaf s r)
      → 3 * length qs < fuel
      → Gone (suc (suc fuel)) s o us q qs
  remove_slot_run fuel ih s o us qs q h quiet grouped quiets enough = elim (Bool-cases light) [
    | inl e ↦ record {
      s' = clear s q;
      o' = o;
      gone = [];
      rest = qs;
      returns = remove_slot_alias (suc fuel) s o q quiet.idle e;
      split = refl;
      below = λ r m. absurd (ground arith);
      dropped = clear-Dropped s us qs q h;
    }
    | inr e ↦
        let h' : Chain s ((us ++ q ∷ []) ++ qs) =
          subst (Chain s) (sym (append_assoc us (q ∷ []) qs)) h in
        let next = Chain-next s (us ++ q ∷ []) qs q (back-push us q) h' in
        let (no_peers, all) =
          peers-none s q qs (λ x at_x. has_sibling-next s q x (ground (arith, e)) (next ∙ at_x)) in
        let r =
          revoke_slot-Run objects leaf law fuel ih s o (us ++ q ∷ []) qs q (back-push us q) h' quiet
            (let i = quiet.idle in ground (arith, e)) grouped quiets enough in
        let split = deeper-shallower s.depth (s.depth q) qs in
        record {
          s' = clear r.s' q;
          o' = r.o';
          gone = deeper s.depth (s.depth q) qs;
          rest = shallower s.depth (s.depth q) qs;
          returns = remove_slot_last (suc fuel) s r.s' o r.o' q quiet.idle e r.returns;
          split = sym split;
          below = λ x m. deeper-elem s.depth (s.depth q) x qs m;
          dropped =
              Dropped-around (subst Distinct (ap (λ l. us ++ q ∷ l) (sym split)) h.distinct)
                (set_reclaiming-Tweak s q true)
                (tidy s.depth (s.depth q) (us ++ q ∷ []) qs (peers s q qs) (beyond s q qs) no_peers
                  all r.drop)
                r.last;
        }
  ]
    where
      light : Bool
      light = is_none (s.type q) || has_sibling s q || not (is_some (s.component q))

  pub children_end :
      (fuel : ℕ) (s : Slots) (o : O) (p last : ℕ)
      → s.next_slot last ≡ none
      → remove_children objects (suc fuel) s o p last ≡ some (ok tt, s, o)
  unfolding remove_children
  children_end fuel s o p last e = rw (e, remove_children) refl

  pub children_off :
      (fuel : ℕ) (s : Slots) (o : O) (p last q : ℕ)
      → s.next_slot last ≡ some q
      → ltb (s.depth p) (s.depth q) ≡ false
      → remove_children objects (suc fuel) s o p last ≡ some (ok tt, s, o)
  unfolding remove_children
  children_off fuel s o p last q e off = rw (e, remove_children, off) refl

  pub children_on :
      (fuel : ℕ) (s s1 : Slots) (o o1 : O) (p last q : ℕ)
      → s.next_slot last ≡ some q
      → ltb (s.depth p) (s.depth q) ≡ true
      → remove_slot objects fuel s o q ≡ some (ok tt, s1, o1)
      → remove_children objects (suc fuel) s o p last ≡ remove_children objects fuel s1 o1 p last
  unfolding remove_children
  children_on fuel s s1 o o1 p last q e on run = rw (e, remove_children, on, run) refl
