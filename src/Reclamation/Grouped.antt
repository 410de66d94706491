-- ===== src/Reclamation/Grouped.antt =====
-- Alias groups and depths along a dependency chain, as the reclamation meets them.
use a9n.Base.{
  Distinct, Distinct-append, subst, ℕ, ◌≡◌, ◌<◌, ◌≤◌, refl, sym, ap, ◌∙◌, true, false, List, [],
  ◌∷◌, ◌++◌, arith, elem, inl, inr, Bool-cases, ltb, ◌==◌, length, length-append, elem-append,
  if◌then◌else◌,
}
use a9n.Slot.{Slots, is_peer}
use a9n.Slot.Alias.{beyond}
use a9n.Slot.Alike.{Alike, is_peer-Alike}

-- The slots deeper than `d` at the front of a list, and what follows them.
abbrev pub deeper : (ℕ → ℕ) → ℕ → List ℕ → List ℕ
deeper depth d [] = []
deeper depth d (q ∷ qs) =
    let further = deeper depth d qs in if ltb d (depth q) then q ∷ further else []

abbrev pub shallower : (ℕ → ℕ) → ℕ → List ℕ → List ℕ
shallower depth d [] = []
shallower depth d (q ∷ qs) =
    let further = shallower depth d qs in if ltb d (depth q) then further else q ∷ qs

pub deeper-shallower :
    (depth : ℕ → ℕ) (d : ℕ) (xs : List ℕ) → deeper depth d xs ++ shallower depth d xs ≡ xs
deeper-shallower depth d [] = refl
deeper-shallower depth d (q ∷ qs) = elim (Bool-cases (ltb d (depth q))) [
  | inl e ↦ rw e (ap (λ l. q ∷ l) (deeper-shallower depth d qs))
  | inr e ↦ rw e refl
]

-- The removed front of a list belongs to what is deeper.
pub deeper-append :
    (depth : ℕ → ℕ) (d : ℕ) (gone rest : List ℕ)
    → ((q : ℕ) → elem q gone ≡ true → d < depth q)
    → (deeper depth d (gone ++ rest) ≡ gone ++ deeper depth d rest)
      × (shallower depth d (gone ++ rest) ≡ shallower depth d rest)
deeper-append depth d [] rest h = (refl, refl)
deeper-append depth d (g ∷ gone) rest h =
    let (e, e') = deeper-append depth d gone rest (λ q m. h q (ground arith)) in
    let this : ltb d (depth g) ≡ true = ground (arith, h g (ground arith)) in
    rw (this, e, e') (refl, refl)

pub deeper-same :
    (depth depth' : ℕ → ℕ) (d : ℕ) (xs : List ℕ)
    → ((q : ℕ) → elem q xs ≡ true → depth' q ≡ depth q)
    → (deeper depth' d xs ≡ deeper depth d xs) × (shallower depth' d xs ≡ shallower depth d xs)
deeper-same depth depth' d [] h = (refl, refl)
deeper-same depth depth' d (q ∷ qs) h =
    let (e, e') = deeper-same depth depth' d qs (λ r m. h r (ground arith)) in
    rw (h q (ground arith), e, e') (refl, refl)

pub deeper-elem :
    (depth : ℕ → ℕ) (d q : ℕ) (xs : List ℕ) → elem q (deeper depth d xs) ≡ true → d < depth q
deeper-elem depth d q [] m = absurd (ground arith)
deeper-elem depth d q (x ∷ xs) m = elim (Bool-cases (ltb d (depth x))) [
  | inl e ↦ elim (Bool-cases (x == q)) [
    | inl same ↦ ground (arith, e, same)
    | inr ne ↦ deeper-elem depth d q xs (ground (arith, e, ne, m))
  ]
  | inr e ↦ absurd (ground (arith, e, m))
]

-- No slot has a peer behind its alias group.
abbrev pub Grouped : Slots → List ℕ → Type 0
Grouped s [] = Unit {0}
Grouped s (x ∷ xs) =
    ((q : ℕ) → elem q (beyond s x xs) ≡ true → is_peer s x q ≡ false) × Grouped s xs

pub Grouped-suffix : (s : Slots) (xs ys : List ℕ) → Grouped s (xs ++ ys) → Grouped s ys
Grouped-suffix s [] ys g = g
Grouped-suffix s (x ∷ xs) ys g = Grouped-suffix s xs ys g.1

beyond-Alike :
    (s s' : Slots) (x : ℕ) (xs : List ℕ)
    → Alike s s' x
    → ((q : ℕ) → elem q xs ≡ true → Alike s s' q)
    → beyond s' x xs ≡ beyond s x xs
beyond-Alike s s' x [] a h = refl
beyond-Alike s s' x (q ∷ qs) a h =
    rw
      (
        is_peer-Alike s s' x q a (h q (ground arith)),
        beyond-Alike s s' x qs a (λ r m. h r (ground arith)),
      )
      refl

pub beyond-elem :
    (s : Slots) (x q : ℕ) (xs : List ℕ) → elem q (beyond s x xs) ≡ true → elem q xs ≡ true
beyond-elem s x q [] m = m
beyond-elem s x q (y ∷ ys) m = elim (Bool-cases (is_peer s x y)) [
  | inl e ↦ ground (arith, e, m, beyond-elem s x q ys (ground (arith, e, m)))
  | inr e ↦ ground (arith, e, m)
]

pub Grouped-Alike :
    (s s' : Slots) (xs : List ℕ)
    → ((q : ℕ) → elem q xs ≡ true → Alike s s' q)
    → Grouped s xs
    → Grouped s' xs
Grouped-Alike s s' [] h g = tt
Grouped-Alike s s' (x ∷ xs) h g =
    let later : (q : ℕ) → elem q xs ≡ true → Alike s s' q = λ q m. h q (ground arith) in
    let same = beyond-Alike s s' x xs (h x (ground arith)) later in
    (
      λ q m.
          let m' : elem q (beyond s x xs) ≡ true = ap (elem q) (sym same) ∙ m in
          is_peer-Alike s s' x q (h x (ground arith)) (later q (beyond-elem s x q xs m'))
          ∙ g.0 q m',
      Grouped-Alike s s' xs later g.1,
    )

-- A list apart from another one is apart from its deeper front, and so is the rest of a list.
pub not_deeper :
    (depth : ℕ → ℕ) (d q : ℕ) (xs : List ℕ) → elem q xs ≡ false → elem q (deeper depth d xs) ≡ false
not_deeper depth d q xs o =
    let same = ap (elem q) (deeper-shallower depth d xs) in
    ground (arith, elem-append q (deeper depth d xs) (shallower depth d xs), same)

pub shallower-elem :
    (depth : ℕ → ℕ) (d q : ℕ) (xs : List ℕ)
    → Distinct xs
    → elem q (shallower depth d xs) ≡ true
    → (elem q (deeper depth d xs) ≡ false) × (elem q xs ≡ true)
shallower-elem depth d q xs dx m =
    let e = deeper-shallower depth d xs in
    let parts =
      Distinct-append (deeper depth d xs) (shallower depth d xs) (subst Distinct (sym e) dx) in
    let same = ap (elem q) e in
    (
      elim (Bool-cases (elem q (deeper depth d xs))) [
        | inl i ↦ let no = parts.2 q i in absurd (ground arith)
        | inr o ↦ o
      ],
      ground (arith, elem-append q (deeper depth d xs) (shallower depth d xs), same),
    )

pub length-shallower :
    (depth : ℕ → ℕ) (d : ℕ) (xs : List ℕ) → length (shallower depth d xs) ≤ length xs
length-shallower depth d xs = omega (
  arith,
  length-append (deeper depth d xs) (shallower depth d xs),
  ap length (deeper-shallower depth d xs),
)
