-- ===== src/Reclamation/Groups.antt =====
-- The alias group of a slot after the slots below it are gone.
use a9n.Base.{
  ℕ, ◌≡◌, ◌≢◌, refl, sym, ap, ◌∙◌, true, false, none, some, List, [], ◌∷◌, ◌++◌, arith, elem, inl,
  inr, Bool-cases, ltb, ◌==◌, ==_iff,
}
use a9n.Dll.{front, back}
use a9n.Slot.{Slots, is_peer, is_deeper, has_child}
use a9n.Slot.Alias.{beyond, peers, has_child-end}
use a9n.Slot.Chain.{Chain}
use a9n.Reclamation.Grouped.{shallower}

pub peers-elem :
    (s : Slots) (p q : ℕ) (xs : List ℕ) → elem q (peers s p xs) ≡ true → is_peer s p q ≡ true
peers-elem s p q [] m = absurd (ground arith)
peers-elem s p q (x ∷ xs) m = elim (Bool-cases (is_peer s p x)) [
  | inl e ↦ elim (Bool-cases (x == q)) [
    | inl same ↦ ap (is_peer s p) (sym ((==_iff x q).0 same)) ∙ e
    | inr ne ↦ peers-elem s p q xs (ground (arith, e, ne, m))
  ]
  | inr e ↦ absurd (ground (arith, e, m))
]

pub beyond-append :
    (s : Slots) (p : ℕ) (ps xs : List ℕ)
    → ((q : ℕ) → elem q ps ≡ true → is_peer s p q ≡ true)
    → ((q : ℕ) → elem q xs ≡ true → is_peer s p q ≡ false)
    → beyond s p (ps ++ xs) ≡ xs
beyond-append s p [] [] h g = refl
beyond-append s p [] (x ∷ xs) h g = rw (g x (ground arith)) refl
beyond-append s p (y ∷ ps) xs h g =
    rw (h y (ground arith)) (beyond-append s p ps xs (λ q m. h q (ground arith)) g)

pub peers-none :
    (s : Slots) (p : ℕ) (xs : List ℕ)
    → ((q : ℕ) → front xs none ≡ some q → is_peer s p q ≡ false)
    → (peers s p xs ≡ []) × (beyond s p xs ≡ xs)
peers-none s p [] h = (refl, refl)
peers-none s p (x ∷ xs) h = rw (h x refl) (refl, refl)

pub shallower-front :
    (s : Slots) (p : ℕ) (depth : ℕ → ℕ) (d : ℕ) (xs : List ℕ)
    → s.depth p ≡ d
    → ((q : ℕ) → elem q (shallower depth d xs) ≡ true → s.depth q ≡ depth q)
    → is_deeper s p (front (shallower depth d xs) none) ≡ false
shallower-front s p depth d [] e h = refl
shallower-front s p depth d (x ∷ xs) e h = elim (Bool-cases (ltb d (depth x))) [
  | inl deep ↦ rw deep (shallower-front s p depth d xs e (λ q m. h q (ground (arith, deep, m))))
  | inr off ↦ let at_x : s.depth x ≡ depth x = h x (ground (arith, off)) in rw (off, e, at_x) off
]

-- No slot below: whatever the fuel, `has_child` does not say yes.
pub has_child-false :
    (fuel : ℕ) (s : Slots) (us vs : List ℕ) (p : ℕ)
    → back none us ≡ some p
    → Chain s (us ++ vs)
    → is_deeper s p (front (beyond s p vs) none) ≡ false
    → has_child fuel s p ≢ some true
has_child-false fuel s us vs p e h off yes' =
    let same = has_child-end fuel s us vs p true e h yes' in ground (arith, same, off)
