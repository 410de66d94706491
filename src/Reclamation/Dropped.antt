-- ===== src/Reclamation/Dropped.antt =====
-- What a removal of slots does to a dependency chain, and how removals compose.
use a9n.Base.{
  ℕ, ◌≡◌, ◌≢◌, refl, sym, ap, ◌∙◌, true, false, Option, List, [], ◌∷◌, ◌++◌, arith, elem, inl, inr,
  Bool-cases, Distinct, Distinct-middle, elem-append, subst, ==_false,
}
use native.Mathlib.Decide.{ℕ_discrete}
use mathlib.Core.List.{append_assoc}
use a9n.Dll.{elem-apart}
use a9n.Slot.{Slots}
use a9n.Slot.Chain.{Chain, Chain-frame}
use a9n.Slot.Move.{Cleared}
use a9n.Slot.Unlink.{
  Kept, Untouched, clear, clear-Chain, clear-Kept, clear-Cleared, clear-Untouched,
}

-- From the chain `us ++ gone ++ rest` the slots `gone` are taken out and cleared, with all others
-- kept, and the links of slots outside the chain kept too.
pub record Dropped (s s' : Slots) (us gone rest : List ℕ) : Type 0 where
  pub chain : Chain s' (us ++ rest)
  pub kept : (q : ℕ) → elem q gone ≡ false → Kept s s' q
  pub cleared : (q : ℕ) → elem q gone ≡ true → Cleared s' q
  pub outside : (q : ℕ) → elem q (us ++ (gone ++ rest)) ≡ false → Untouched s s' q

pub Kept-trans : {s t u : Slots} {q : ℕ} → Kept s t q → Kept t u q → Kept s u q
Kept-trans a b = record {
  component = b.component ∙ a.component;
  type = b.type ∙ a.type;
  rights = b.rights ∙ a.rights;
  reclaiming = b.reclaiming ∙ a.reclaiming;
  local = b.local ∙ a.local;
  depth = b.depth ∙ a.depth;
}

pub Untouched-trans : {s t u : Slots} {q : ℕ} → Untouched s t q → Untouched t u q → Untouched s u q
Untouched-trans a b = record {
  next_slot = b.next_slot ∙ a.next_slot;
  preview_slot = b.preview_slot ∙ a.preview_slot;
}

-- A cleared slot that is left alone.
pub Cleared-Kept : {s t : Slots} {q : ℕ} → Cleared s q → Kept s t q → Untouched s t q → Cleared t q
Cleared-Kept c k u = record {
  component = k.component ∙ c.component;
  type = k.type ∙ c.type;
  rights = k.rights ∙ c.rights;
  reclaiming = k.reclaiming ∙ c.reclaiming;
  local = k.local ∙ c.local;
  next_slot = u.next_slot ∙ c.next_slot;
  preview_slot = u.preview_slot ∙ c.preview_slot;
  depth = k.depth ∙ c.depth;
}

pub Dropped-none : (s : Slots) (us rest : List ℕ) → Chain s (us ++ rest) → Dropped s s us [] rest
Dropped-none s us rest h = record {
  chain = h;
  kept = λ q o. record {
    component = refl;
    type = refl;
    rights = refl;
    reclaiming = refl;
    local = refl;
    depth = refl;
  };
  cleared = λ q m. absurd (ground arith);
  outside = λ q o. record { next_slot = refl; preview_slot = refl };
}

-- Two removals, the second from what the first left.
pub Dropped-trans :
    {s t u : Slots} {us g rest g' rest' : List ℕ}
    → Distinct (us ++ (g ++ rest))
    → rest ≡ g' ++ rest'
    → Dropped s t us g rest
    → Dropped t u us g' rest'
    → Dropped s u us (g ++ g') rest'
Dropped-trans {s} {t} {u} {us} {g} {rest} {g'} {rest'} d e a b = record {
  chain = b.chain;
  kept = λ q o.
      Kept-trans (a.kept q (ground (arith, elem-append q g g')))
        (b.kept q (ground (arith, elem-append q g g')));
  cleared = λ q m. elim (Bool-cases (elem q g')) [
    | inl i ↦ b.cleared q i
    | inr o ↦
        let first : elem q g ≡ true = ground (arith, elem-append q g g') in
        let (ou, or) = Distinct-middle us g rest q d first in
        let gone : elem q (us ++ (g' ++ rest')) ≡ false =
          ap (λ l. elem q (us ++ l)) (sym e) ∙ ground (arith, elem-append q us rest) in
        Cleared-Kept (a.cleared q first) (b.kept q o) (b.outside q gone)
  ];
  outside = λ q o.
      let whole : elem q (us ++ (g ++ (g' ++ rest'))) ≡ false =
        ap (λ l. elem q (us ++ l)) (sym (append_assoc g g' rest')) ∙ o in
      let all : elem q (us ++ (g ++ rest)) ≡ false = ap (λ l. elem q (us ++ (g ++ l))) e ∙ whole in
      let left : elem q (us ++ rest) ≡ false =
        ground (arith, elem-append q us rest, elem-append q us (g ++ rest), elem-append q g rest) in
      Untouched-trans (a.outside q all) (b.outside q (ap (λ l. elem q (us ++ l)) (sym e) ∙ left));
}

-- The removal of one slot.
pub clear-Dropped :
    (s : Slots) (us rest : List ℕ) (p : ℕ)
    → Chain s (us ++ p ∷ rest)
    → Dropped s (clear s p) us (p ∷ []) rest
clear-Dropped s us rest p h = record {
  chain = clear-Chain s us rest p h;
  kept = λ q o. clear-Kept s p q (λ e. elem-apart q p (p ∷ []) o (ground arith) (sym e));
  cleared = λ q m. elim (ℕ_discrete p q) [
    | yes e ↦ subst (λ (k : ℕ). Cleared (clear s p) k) e (clear-Cleared s p)
    | no ne ↦ absurd (ground arith)
  ];
  outside = λ q o. clear-Untouched s us rest p h q o;
}

-- `q` alone is changed, and not its links.
pub record Tweak (s s' : Slots) (q : ℕ) : Type 0 where
  pub next_slot : s'.next_slot ≡ s.next_slot
  pub preview_slot : s'.preview_slot ≡ s.preview_slot
  pub others : (r : ℕ) → q ≢ r → Kept s s' r

pub Tweak-Chain : {s s' : Slots} {q : ℕ} {xs : List ℕ} → Tweak s s' q → Chain s xs → Chain s' xs
Tweak-Chain t h =
    Chain-frame h (λ r m. ap (λ (f : ℕ → Option ℕ). f r) t.next_slot)
      (λ r m. ap (λ (f : ℕ → Option ℕ). f r) t.preview_slot)

pub Tweak-Untouched : {s s' : Slots} {q : ℕ} → Tweak s s' q → (r : ℕ) → Untouched s s' r
Tweak-Untouched t r = record {
  next_slot = ap (λ (f : ℕ → Option ℕ). f r) t.next_slot;
  preview_slot = ap (λ (f : ℕ → Option ℕ). f r) t.preview_slot;
}

-- The removal of `q` itself after the slots behind it: what else happened to `q` is forgotten.
pub Dropped-around :
    {s t u v : Slots} {q : ℕ} {us gone rest : List ℕ}
    → Distinct (us ++ (q ∷ (gone ++ rest)))
    → Tweak s t q
    → Dropped t u (us ++ q ∷ []) gone rest
    → Tweak u v q
    → Dropped s (clear v q) us (q ∷ gone) rest
Dropped-around {s} {t} {u} {v} {q} {us} {gone} {rest} d before a after =
    let h : Chain v (us ++ q ∷ rest) =
      subst (Chain v) (append_assoc us (q ∷ []) rest) (Tweak-Chain after a.chain) in
    let last = clear-Dropped v us rest q h in
    record {
      chain = last.chain;
      kept = λ r o.
          let ne : q ≢ r = λ e. elem-apart r q (q ∷ gone) o (ground arith) (sym e) in
          Kept-trans (before.others r ne) (
            Kept-trans (a.kept r (ground arith))
              (Kept-trans (after.others r ne) (last.kept r (ground (arith, ==_false q r ne)))));
      cleared = λ r m. elim (ℕ_discrete q r) [
        | yes e ↦ last.cleared r (ground arith)
        | no ne ↦
            let m' : elem r gone ≡ true = ground arith in
            let (ou, or) = Distinct-middle us (q ∷ gone) rest r d m in
            let c = Cleared-Kept (a.cleared r m') (after.others r ne) (Tweak-Untouched after r) in
            let o : elem r (us ++ q ∷ rest) ≡ false =
              ground (arith, elem-append r us (q ∷ rest), ==_false q r ne) in
            Cleared-Kept c (last.kept r (ground (arith, ==_false q r ne))) (last.outside r o)
      ];
      outside = λ r o.
          let apart : elem r (us ++ q ∷ rest) ≡ false = ground (
            arith,
            elem-append r us (q ∷ rest),
            elem-append r us (q ∷ (gone ++ rest)),
            elem-append r gone rest,
          ) in
          let all : elem r ((us ++ q ∷ []) ++ (gone ++ rest)) ≡ false =
            ap (elem r) (append_assoc us (q ∷ []) (gone ++ rest)) ∙ o in
          Untouched-trans (Tweak-Untouched before r) (
            Untouched-trans (a.outside r all)
              (Untouched-trans (Tweak-Untouched after r) (last.outside r apart)));
    }
