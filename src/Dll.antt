-- ===== src/Dll.antt =====
-- Doubly linked lists through two optional pointers of each record, as the kernel's queues and
-- dependency chains use them: scheduler queues (`next`, `preview`), wait queues, capability slots.
-- `next` and `previous` are the fields as functions of the address.
use a9n.Base.{
  ℕ, ◌≡◌, ◌≢◌, refl, sym, ap, ◌∙◌, true, false, Option, none, some, List, [], ◌∷◌, ◌++◌, arith,
  elem, Distinct,
}

-- What a pointer to the front of `xs` holds, where `after` follows `xs`.
abbrev pub front : List ℕ → Option ℕ → Option ℕ
front [] after = after
front (x ∷ xs) after = some x

-- What a pointer to the back of `xs` holds, where `before` precedes `xs`.
abbrev pub back : Option ℕ → List ℕ → Option ℕ
back before [] = before
back before (x ∷ xs) = back (some x) xs

-- From `before` to `after` the pointers run through the records `xs`, both ways.
abbrev pub Seg : (next previous : ℕ → Option ℕ) → Option ℕ → List ℕ → Option ℕ → Type 0
Seg next previous before [] after = Unit {0}
Seg next previous before (x ∷ xs) after =
    (previous x ≡ before) × (next x ≡ front xs after) × Seg next previous (some x) xs after

pub back-append :
    (before : Option ℕ) (xs ys : List ℕ) → back before (xs ++ ys) ≡ back (back before xs) ys
back-append before [] ys = refl
back-append before (x ∷ xs) ys = back-append (some x) xs ys

pub front-append :
    (xs ys : List ℕ) (after : Option ℕ) → front (xs ++ ys) after ≡ front xs (front ys after)
front-append [] ys after = refl
front-append (x ∷ xs) ys after = refl

module _ (next previous : ℕ → Option ℕ) where
  pub Seg-append :
      (before after : Option ℕ) (xs ys : List ℕ)
      → Seg next previous before xs (front ys after)
      → Seg next previous (back before xs) ys after
      → Seg next previous before (xs ++ ys) after
  Seg-append before after [] ys s t = t
  Seg-append before after (x ∷ xs) ys s t =
      (s.0, s.1 ∙ sym (front-append xs ys after), Seg-append (some x) after xs ys s.2 t)

  pub Seg-split :
      (before after : Option ℕ) (xs ys : List ℕ)
      → Seg next previous before (xs ++ ys) after
      → Seg next previous before xs (front ys after) × Seg next previous (back before xs) ys after
  Seg-split before after [] ys s = (tt, s)
  Seg-split before after (x ∷ xs) ys s =
      let rest = Seg-split (some x) after xs ys s.2 in
      ((s.0, s.1 ∙ front-append xs ys after, rest.0), rest.1)

pub back-elem : (x : ℕ) (xs : List ℕ) (q : ℕ) → back (some x) xs ≡ some q → elem q (x ∷ xs) ≡ true
back-elem x [] q e = ground arith
back-elem x (y ∷ xs) q e = ground (arith, back-elem y xs q)

pub elem-apart : (x q : ℕ) (xs : List ℕ) → elem x xs ≡ false → elem q xs ≡ true → x ≢ q
elem-apart x q xs out i e = let h = ap (λ (a : ℕ). elem a xs) e in cc

pub front-elem : (xs : List ℕ) (q : ℕ) → front xs none ≡ some q → elem q xs ≡ true
front-elem [] q e = cc
front-elem (x ∷ xs) q e = ground arith

pub back-none-elem : (xs : List ℕ) (q : ℕ) → back none xs ≡ some q → elem q xs ≡ true
back-none-elem [] q e = cc
back-none-elem (x ∷ xs) q e = back-elem x xs q e

-- The ends of a list that has a record more at its end.
pub front-push :
    (xs : List ℕ) (t p : ℕ) → elem t xs ≡ true → front (xs ++ p ∷ []) none ≡ front xs none
front-push [] t p m = cc
front-push (x ∷ xs) t p m = refl

pub back-push : (xs : List ℕ) (p : ℕ) → back none (xs ++ p ∷ []) ≡ some p
back-push xs p = back-append none xs (p ∷ [])

-- A list that is not empty has a last record.
pub back-some : (x : ℕ) (xs : List ℕ) → (t : ℕ) × (back (some x) xs ≡ some t)
back-some x [] = (x, refl)
back-some x (y ∷ xs) = back-some y xs

module _ (next previous : ℕ → Option ℕ) where
  -- The ends of a segment hold the pointers to its surroundings.
  pub front-previous :
      (before after : Option ℕ) (xs : List ℕ) (q : ℕ)
      → Seg next previous before xs after
      → front xs none ≡ some q
      → previous q ≡ before
  front-previous before after [] q s e = cc
  front-previous before after (x ∷ xs) q s e = ground arith

  pub back-next :
      (before after : Option ℕ) (xs : List ℕ) (q : ℕ)
      → Seg next previous before xs after
      → back none xs ≡ some q
      → next q ≡ after
  back-next before after [] q s e = cc
  back-next before after (x ∷ []) q s e = ground arith
  back-next before after (x ∷ y ∷ xs) q s e = back-next (some x) after (y ∷ xs) q s.2 e

-- A segment under new pointers that differ only where it meets its surroundings: in `previous` of
-- its first record and in `next` of its last.
pub Seg-relink :
    {next previous : ℕ → Option ℕ} (next' previous' : ℕ → Option ℕ)
    (before after before' after' : Option ℕ) (xs : List ℕ)
    → Distinct xs
    → Seg next previous before xs after
    → ((q : ℕ) → elem q xs ≡ true → front xs none ≢ some q → previous' q ≡ previous q)
    → ((q : ℕ) → elem q xs ≡ true → back none xs ≢ some q → next' q ≡ next q)
    → ((q : ℕ) → front xs none ≡ some q → previous' q ≡ before')
    → ((q : ℕ) → back none xs ≡ some q → next' q ≡ after')
    → Seg next' previous' before' xs after'
Seg-relink next' previous' before after before' after' [] d s p n f b = tt
Seg-relink next' previous' before after before' after' (x ∷ []) d s p n f b =
    (f x refl, b x refl, tt)
Seg-relink next' previous' before after before' after' (x ∷ y ∷ xs) d s p n f b = (
  f x refl,
  n x (ground arith) (λ e. ground (arith, back-elem y xs x e)) ∙ s.1,
  Seg-relink next' previous' (some x) after (some x) after' (y ∷ xs) d.1 s.2
      (λ q i ne. p q (ground arith) (λ e. ground (arith, elem-apart x q (y ∷ xs))))
      (λ q i ne. n q (ground arith) ne)
      (λ q e. p q (ground arith) (λ h. ground (arith, elem-apart x q (y ∷ xs))) ∙ ground arith) b,
)

-- A segment whose own pointers are unchanged.
pub Seg-frame :
    {next previous : ℕ → Option ℕ} (next' previous' : ℕ → Option ℕ) (before after : Option ℕ)
    (xs : List ℕ)
    → Seg next previous before xs after
    → ((q : ℕ) → elem q xs ≡ true → next' q ≡ next q)
    → ((q : ℕ) → elem q xs ≡ true → previous' q ≡ previous q)
    → Seg next' previous' before xs after
Seg-frame next' previous' before after [] s n p = tt
Seg-frame next' previous' before after (x ∷ xs) s n p = (
  p x (ground arith) ∙ s.0,
  n x (ground arith) ∙ s.1,
  Seg-frame next' previous' (some x) after xs s.2 (λ q i. n q (ground arith))
      (λ q i. p q (ground arith)),
)

-- The edits of a whole list, from null to null. `next'` and `previous'` are the pointers after the
-- edit, known by what the edit writes and what it leaves alone.
module _ {next previous : ℕ → Option ℕ} (next' previous' : ℕ → Option ℕ) where
  -- `p` behind the last record.
  pub Seg-push :
      (xs : List ℕ) (p : ℕ)
      → Distinct xs
      → Seg next previous none xs none
      → ((q : ℕ) → elem q xs ≡ true → previous' q ≡ previous q)
      → ((q : ℕ) → elem q xs ≡ true → back none xs ≢ some q → next' q ≡ next q)
      → ((q : ℕ) → back none xs ≡ some q → next' q ≡ some p)
      → previous' p ≡ back none xs
      → next' p ≡ none
      → Seg next' previous' none (xs ++ p ∷ []) none
  Seg-push xs p d s same n link pp np =
      Seg-append next' previous' none none xs (p ∷ [])
        (Seg-relink next' previous' none none none (some p) xs d s (λ q i ne. same q i) n
          (λ q e. same q (front-elem xs q e) ∙ front-previous next previous none none xs q s e)
          link)
        (pp, np, tt)

  -- Without the first record.
  pub Seg-pop :
      (x : ℕ) (xs : List ℕ)
      → Distinct (x ∷ xs)
      → Seg next previous none (x ∷ xs) none
      → ((q : ℕ) → elem q xs ≡ true → front xs none ≢ some q → previous' q ≡ previous q)
      → ((q : ℕ) → elem q xs ≡ true → next' q ≡ next q)
      → ((q : ℕ) → front xs none ≡ some q → previous' q ≡ none)
      → Seg next' previous' none xs none
  Seg-pop x xs d s p n f =
      Seg-relink next' previous' (some x) none none none xs d.1 s.2 p (λ q i ne. n q i) f
        (λ q e. n q (back-none-elem xs q e) ∙ back-next next previous (some x) none xs q s.2 e)

  module _ (xs ys : List ℕ) (p : ℕ) (dx : Distinct xs) (dy : Distinct ys)
      (px : (q : ℕ) → elem q xs ≡ true → previous' q ≡ previous q)
      (nx : (q : ℕ) → elem q xs ≡ true → back none xs ≢ some q → next' q ≡ next q)
      (py : (q : ℕ) → elem q ys ≡ true → front ys none ≢ some q → previous' q ≡ previous q)
      (ny : (q : ℕ) → elem q ys ≡ true → next' q ≡ next q) where
    -- Without `p` in the middle.
    pub Seg-unlink :
        Seg next previous none (xs ++ p ∷ ys) none
        → ((q : ℕ) → back none xs ≡ some q → next' q ≡ front ys none)
        → ((q : ℕ) → front ys none ≡ some q → previous' q ≡ back none xs)
        → Seg next' previous' none (xs ++ ys) none
    Seg-unlink s b f =
        let parts = Seg-split next previous none none xs (p ∷ ys) s in
        Seg-append next' previous' none none xs ys
          (Seg-relink next' previous' none (some p) none (front ys none) xs dx parts.0
            (λ q i ne. px q i) nx
            (λ q e.
              px q (front-elem xs q e) ∙ front-previous next previous none (some p) xs q parts.0 e)
            b)
          (Seg-relink next' previous' (some p) none (back none xs) none ys dy parts.1.2 py
            (λ q i ne. ny q i) f
            (λ q e.
              ny q (back-none-elem ys q e)
              ∙ back-next next previous (some p) none ys q parts.1.2 e))

    -- With `p` put between two parts.
    pub Seg-insert :
        Seg next previous none (xs ++ ys) none
        → ((q : ℕ) → back none xs ≡ some q → next' q ≡ some p)
        → ((q : ℕ) → front ys none ≡ some q → previous' q ≡ some p)
        → previous' p ≡ back none xs
        → next' p ≡ front ys none
        → Seg next' previous' none (xs ++ p ∷ ys) none
    Seg-insert s b f pp np =
        let parts = Seg-split next previous none none xs ys s in
        Seg-append next' previous' none none xs (p ∷ ys)
          (Seg-relink next' previous' none (front ys none) none (some p) xs dx parts.0
            (λ q i ne. px q i) nx
            (λ q e.
              px q (front-elem xs q e)
              ∙ front-previous next previous none (front ys none) xs q parts.0 e)
            b)
          (
            pp,
            np,
            Seg-relink next' previous' (back none xs) none (some p) none ys dy parts.1 py
                (λ q i ne. ny q i) f
                (λ q e.
                  ny q (back-none-elem ys q e)
                  ∙ back-next next previous (back none xs) none ys q parts.1 e),
          )

    -- With `d` in the place of `p`.
    pub Seg-replace :
        (d : ℕ)
        → Seg next previous none (xs ++ p ∷ ys) none
        → ((q : ℕ) → back none xs ≡ some q → next' q ≡ some d)
        → ((q : ℕ) → front ys none ≡ some q → previous' q ≡ some d)
        → previous' d ≡ back none xs
        → next' d ≡ front ys none
        → Seg next' previous' none (xs ++ d ∷ ys) none
    Seg-replace d s b f pp np =
        let parts = Seg-split next previous none none xs (p ∷ ys) s in
        Seg-append next' previous' none none xs (d ∷ ys)
          (Seg-relink next' previous' none (some p) none (some d) xs dx parts.0 (λ q i ne. px q i)
            nx
            (λ q e.
              px q (front-elem xs q e) ∙ front-previous next previous none (some p) xs q parts.0 e)
            b)
          (
            pp,
            np,
            Seg-relink next' previous' (some p) none (some d) none ys dy parts.1.2 py
                (λ q i ne. ny q i) f
                (λ q e.
                  ny q (back-none-elem ys q e)
                  ∙ back-next next previous (some p) none ys q parts.1.2 e),
          )
