-- ===== src/Base/Lists.antt =====
-- Lists of addresses, measured by native numbers.
use Prim.Native.Nat.{ℕ, suc, ◌+◌}
use mathlib.Core.Path.{◌≡◌, refl}
use mathlib.Core.Bool.{Bool, true, false, ◌||◌}
use mathlib.Core.Logic.{◌⊎◌, ◌≢◌, inl, inr}
use mathlib.Core.List.{List, [], ◌∷◌, ◌++◌}
use native.Mathlib.Omega.{arith}
use a9n.Base.Tests.{◌==◌, if◌then◌else◌, Bool-cases, ==_iff}

module _ {ℓ} {A : Type ℓ} where
  abbrev pub length : List A → ℕ
  length [] = 0
  length (x ∷ xs) = suc (length xs)

  pub length-append : (xs ys : List A) → length (xs ++ ys) ≡ length xs + length ys
  length-append [] ys = omega arith
  length-append (x ∷ xs) ys = omega (arith, length-append xs ys)

-- Membership as a test, and lists without repetition.
abbrev pub elem : ℕ → List ℕ → Bool
elem a [] = false
elem a (x ∷ xs) = (x == a) || elem a xs

abbrev pub Distinct : List ℕ → Type 0
Distinct [] = Unit {0}
Distinct (x ∷ xs) = (elem x xs ≡ false) × Distinct xs

-- The list without the first `a`.
abbrev pub erase : ℕ → List ℕ → List ℕ
erase a [] = []
erase a (x ∷ xs) = if x == a then xs else x ∷ erase a xs

pub elem-append : (a : ℕ) (xs ys : List ℕ) → elem a (xs ++ ys) ≡ (elem a xs || elem a ys)
elem-append a [] ys = refl
elem-append a (x ∷ xs) ys = ground (arith, elem-append a xs ys)

pub elem-erase_ne : (a b : ℕ) (xs : List ℕ) → (a == b) ≡ false → elem b (erase a xs) ≡ elem b xs
elem-erase_ne a b [] ne = refl
elem-erase_ne a b (x ∷ xs) ne = ground (arith, elem-erase_ne a b xs)

pub elem-erase_self : (a : ℕ) (xs : List ℕ) → Distinct xs → elem a (erase a xs) ≡ false
elem-erase_self a [] d = refl
elem-erase_self a (x ∷ xs) d = ground (arith, elem-erase_self a xs d.1)

pub erase-not_elem : (a : ℕ) (xs : List ℕ) → elem a xs ≡ false → erase a xs ≡ xs
erase-not_elem a [] out = refl
erase-not_elem a (x ∷ xs) out = ground (arith, erase-not_elem a xs)

pub erase-Distinct : (a : ℕ) (xs : List ℕ) → Distinct xs → Distinct (erase a xs)
erase-Distinct a [] d = tt
erase-Distinct a (x ∷ xs) d = ground (arith, erase-Distinct a xs d.1, elem-erase_ne a x xs)

pub append-Distinct :
    (xs : List ℕ) (p : ℕ) → Distinct xs → elem p xs ≡ false → Distinct (xs ++ p ∷ [])
append-Distinct [] p d out = ground arith
append-Distinct (x ∷ xs) p d out =
    ground (arith, append-Distinct xs p d.1, elem-append x xs (p ∷ []))

-- `as` is the part before an element, which a search has passed.
pub erase-append : (xs ys : List ℕ) (p : ℕ) → elem p xs ≡ false → erase p (xs ++ p ∷ ys) ≡ xs ++ ys
erase-append [] ys p out = ground arith
erase-append (x ∷ xs) ys p out = ground (arith, erase-append xs ys p)

pub elem-push :
    (a p : ℕ) (xs : List ℕ) → elem a (xs ++ p ∷ []) ≡ true → (elem a xs ≡ true) ⊎ (p ≡ a)
elem-push a p [] m = inr (ground arith)
elem-push a p (x ∷ xs) m = ground (arith, elem-push a p xs)

pub elem-push_self : (p : ℕ) (xs : List ℕ) → elem p (xs ++ p ∷ []) ≡ true
elem-push_self p [] = ground arith
elem-push_self p (x ∷ xs) = ground (arith, elem-push_self p xs)

pub elem-push_old : (a p : ℕ) (xs : List ℕ) → elem a xs ≡ true → elem a (xs ++ p ∷ []) ≡ true
elem-push_old a p (x ∷ xs) m = ground (arith, elem-push_old a p xs)
elem-push_old a p [] m = cc

pub elem-here : (a : ℕ) (xs : List ℕ) → elem a (a ∷ xs) ≡ true
elem-here a xs = ground arith

pub elem-later : (a x : ℕ) (xs : List ℕ) → elem a xs ≡ true → elem a (x ∷ xs) ≡ true
elem-later a x xs m = ground arith

pub elem-tail : (a x : ℕ) (xs : List ℕ) → x ≢ a → elem a (x ∷ xs) ≡ true → elem a xs ≡ true
elem-tail a x xs ne m = ground arith

pub List-cases {ℓ} : {A : Type ℓ} (l : List A) → (l ≡ []) ⊎ ((x : A) × (xs : List A) × (l ≡ x ∷ xs))
List-cases [] = inl refl
List-cases (x ∷ xs) = inr (x, xs, refl)

-- The list around the first `a`.
pub elem-split :
    (a : ℕ) (xs : List ℕ)
    → elem a xs ≡ true
    → (us vs : List ℕ) × (xs ≡ us ++ a ∷ vs) × (elem a us ≡ false)
elem-split a [] m = absurd (ground arith)
elem-split a (x ∷ xs) m = elim (Bool-cases (x == a)) [
  | inl e ↦ ([], xs, rw ((==_iff x a).0 e), refl)
  | inr ne ↦
      let (us, vs, split, out) = elem-split a xs (ground arith) in
      (x ∷ us, vs, rw split, ground arith)
]

pub Distinct-append :
    (xs ys : List ℕ)
    → Distinct (xs ++ ys)
    → Distinct xs × Distinct ys × ((q : ℕ) → elem q xs ≡ true → elem q ys ≡ false)
Distinct-append [] ys d = (tt, d, λ q m. absurd (ground arith))
Distinct-append (x ∷ xs) ys d =
    let (dx, dy, apart) = Distinct-append xs ys d.1 in
    (
      (ground (arith, elem-append x xs ys), dx),
      dy,
      λ q m. elim (Bool-cases (x == q)) [
        | inl e ↦ rw (← (==_iff x q).0 e) (ground (arith, elem-append x xs ys))
        | inr ne ↦ apart q (ground arith)
      ],
    )

pub elem-around :
    (a p : ℕ) (us vs : List ℕ) → elem a (us ++ vs) ≡ true → elem a (us ++ p ∷ vs) ≡ true
elem-around a p us vs m = ground (arith, elem-append a us vs, elem-append a us (p ∷ vs))

pub elem-middle : (p : ℕ) (us vs : List ℕ) → elem p (us ++ p ∷ vs) ≡ true
elem-middle p us vs = ground (arith, elem-append p us (p ∷ vs))

pub elem-other :
    (a p : ℕ) (us vs : List ℕ) → p ≢ a → elem a (us ++ p ∷ vs) ≡ true → elem a (us ++ vs) ≡ true
elem-other a p us vs ne m = ground (arith, elem-append a us vs, elem-append a us (p ∷ vs))

-- One element more in the middle.
pub Distinct-insert :
    (us vs : List ℕ) (c : ℕ)
    → Distinct (us ++ vs)
    → elem c (us ++ vs) ≡ false
    → Distinct (us ++ c ∷ vs)
Distinct-insert [] vs c d out = (out, d)
Distinct-insert (u ∷ us) vs c d out = (
  ground (arith, elem-append u us (c ∷ vs), elem-append u us vs, d.0),
  Distinct-insert us vs c d.1 (ground arith),
)

-- Another element in the place of one.
pub Distinct-replace :
    (us vs : List ℕ) (p d : ℕ)
    → Distinct (us ++ p ∷ vs)
    → elem d (us ++ p ∷ vs) ≡ false
    → Distinct (us ++ d ∷ vs)
Distinct-replace [] vs p d h out = (ground arith, h.1)
Distinct-replace (u ∷ us) vs p d h out = (
  ground (arith, elem-append u us (d ∷ vs), elem-append u us (p ∷ vs), h.0),
  Distinct-replace us vs p d h.1 (ground arith),
)

-- The elements of a middle part stand in neither of the others.
pub Distinct-middle :
    (us gs rs : List ℕ) (q : ℕ)
    → Distinct (us ++ (gs ++ rs))
    → elem q gs ≡ true
    → (elem q us ≡ false) × (elem q rs ≡ false)
Distinct-middle us gs rs q d m =
    let (du, dr, apart) = Distinct-append us (gs ++ rs) d in
    let (dg, dr', apart') = Distinct-append gs rs dr in
    (
      elim (Bool-cases (elem q us)) [
        | inl i ↦
            let no = apart q i in
            let yes' : elem q (gs ++ rs) ≡ true = ground (arith, elem-append q gs rs) in
            absurd (ground arith)
        | inr o ↦ o
      ],
      apart' q m,
    )
