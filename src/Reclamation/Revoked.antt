-- ===== src/Reclamation/Revoked.antt =====
-- The results of capability_node_reclamation.cpp: revocation and removal on a dependency chain.
use a9n.Base.{
  ℕ, zero, suc, ◌+◌, ◌*◌, ◌≡◌, ◌≢◌, ◌<◌, ap, true, false, Bool, some, List, ◌∷◌, ◌++◌, arith, elem,
  length, is_some, none,
}
use a9n.Base.Result.{ok}
use a9n.CapabilityTypes.{CapabilityType, is_none}
use a9n.Dll.{back}
use a9n.Slot.{Slots}
use a9n.Slot.Alias.{peers, beyond}
use a9n.Slot.Chain.{Chain}
use a9n.Slot.Move.{Cleared}
use a9n.Slot.Unlink.{Kept}
use a9n.Reclamation.{Objects, revoke_slot, remove_slot}
use a9n.Reclamation.Dropped.{Dropped, Kept-trans, Cleared-Kept, Tweak-Chain, Tweak-Untouched}
use a9n.Reclamation.Grouped.{deeper, shallower, Grouped, deeper-elem}
use a9n.Reclamation.Revoke.{IsLocal, Quiet, revoke_slot-Run, set_reclaiming-Tweak}
use a9n.Reclamation.Remove.{remove_slot_run}
use a9n.Reclamation.Loop.{all_Drops}

-- What is derived from a slot `p` that `vs` follow: what is deeper, right behind its alias group.
abbrev pub derived : Slots → ℕ → List ℕ → List ℕ
derived s p vs = deeper s.depth (s.depth p) (beyond s p vs)

abbrev pub survivors : Slots → ℕ → List ℕ → List ℕ
survivors s p vs = shallower s.depth (s.depth p) (beyond s p vs)

-- The chain keeps the aliases and what is not derived, every derived slot is cleared, no other slot
-- than `p` differs but for links, and `p` keeps its type and rights and is idle again.
pub record Revoked (s : Slots) (us vs : List ℕ) (p : ℕ) (s' : Slots) : Type 0 where
  pub chain : Chain s' ((us ++ peers s p vs) ++ survivors s p vs)
  pub cleared : (q : ℕ) → elem q (derived s p vs) ≡ true → Cleared s' q
  pub kept : (q : ℕ) → elem q (derived s p vs) ≡ false → p ≢ q → Kept s s' q
  pub type : s'.type p ≡ s.type p
  pub rights : s'.rights p ≡ s.rights p
  pub idle : s'.reclaiming p ≡ false

module _ {O : Type 0} (objects : Objects O) (leaf : CapabilityType → Bool)
    (law : IsLocal objects leaf) where
  -- On a chain of idle slots in alias groups, whose objects have a local teardown, `revoke_slot` ends,
  -- succeeds, and takes out and clears exactly the slots derived from the revoked one: fuel for three
  -- calls a slot is enough.
  pub revoke_slot-Revoked :
      (fuel : ℕ) (s : Slots) (o : O) (us vs : List ℕ) (p : ℕ)
      → back none us ≡ some p
      → Chain s (us ++ vs)
      → is_none (s.type p) ≡ false
      → is_some (s.component p) ≡ true
      → Quiet leaf s p
      → Grouped s (p ∷ vs)
      → ((q : ℕ) → elem q vs ≡ true → Quiet leaf s q)
      → 3 * length vs + 1 < fuel
      → (s' : Slots) × (o' : O) × (revoke_slot objects fuel s o p ≡ some (ok tt, s', o'))
        × Revoked s us vs p s'
  revoke_slot-Revoked zero s o us vs p e h typed object quiet grouped quiets enough =
      absurd (omega arith)
  revoke_slot-Revoked (suc fuel) s o us vs p e h typed object quiet grouped quiets enough =
      let r =
        revoke_slot-Run objects leaf law fuel (all_Drops objects leaf law fuel) s o us vs p e h
          quiet (let i = quiet.idle in ground arith) grouped quiets (omega arith) in
      let apart : (q : ℕ) → elem q (derived s p vs) ≡ true → p ≢ q = λ q m same.
        let below = deeper-elem s.depth (s.depth p) q (beyond s p vs) m in
        let eq = ap s.depth same in omega arith in
      (
        r.s',
        r.o',
        r.returns,
        record {
          chain = Tweak-Chain r.last r.drop.chain;
          cleared = λ q m.
              Cleared-Kept (r.drop.cleared q m) (r.last.others q (apart q m))
                (Tweak-Untouched r.last q);
          kept = λ q o ne.
              Kept-trans ((set_reclaiming-Tweak s p true).others q ne)
                (Kept-trans (r.drop.kept q o) (r.last.others q ne));
          type = r.alike_type;
          rights = r.rights;
          idle = r.idle;
        },
      )

  -- On such a chain `remove_slot` ends, succeeds, and takes out and clears the slot and at most slots
  -- deeper than it right behind it, with all others kept.
  pub remove_slot-Dropped :
      (fuel : ℕ) (s : Slots) (o : O) (us vs : List ℕ) (p : ℕ)
      → Chain s (us ++ p ∷ vs)
      → Quiet leaf s p
      → Grouped s (p ∷ vs)
      → ((q : ℕ) → elem q vs ≡ true → Quiet leaf s q)
      → 3 * length vs + 2 < fuel
      → (s' : Slots) × (o' : O) × (gone : List ℕ) × (rest : List ℕ) × (remove_slot objects fuel s o
            p
          ≡ some (ok tt, s', o'))
        × (vs ≡ gone ++ rest)
        × ((q : ℕ) → elem q gone ≡ true → s.depth p < s.depth q)
        × Dropped s s' us (p ∷ gone) rest
  remove_slot-Dropped zero s o us vs p h quiet grouped quiets enough = absurd (omega arith)
  remove_slot-Dropped (suc zero) s o us vs p h quiet grouped quiets enough = absurd (omega arith)
  remove_slot-Dropped (suc (suc fuel)) s o us vs p h quiet grouped quiets enough =
      let g =
        remove_slot_run objects leaf law fuel (all_Drops objects leaf law fuel) s o us vs p h quiet
          grouped quiets (omega arith) in
      (g.s', g.o', g.gone, g.rest, g.returns, g.split, g.below, g.dropped)
