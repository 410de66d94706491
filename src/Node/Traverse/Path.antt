-- ===== src/Node/Traverse/Path.antt =====
-- Descriptors as paths: an index for each node on the way, and what the traversal makes of them.
use a9n.Base.{
  ℕ, zero, suc, ◌+◌, ◌-◌, ◌*◌, ◌/◌, ◌%◌, ◌^◌, ◌<◌, ◌≤◌, ◌≡◌, ◌≢◌, refl, sym, ap, subst, ◌∙◌, some,
  List, [], ◌∷◌, length, arith, ==_false, ==_iff,
}
use a9n.Base.Bits.{pow-pos}
use native.Mathlib.Nat.{
  mul-add-div_right, div-eq_of_lt, pow-suc, mul-add-mod_self_right, mod-eq_of_lt,
}
use a9n.Base.Result.{ok}
use a9n.Calculate.{word_mod}
use a9n.CapabilityTypes.{type_code}
use a9n.Node.{Node, calculate_used_bits, calculate_capability_index, lookup_slot, retrieve_slot}
use a9n.Node.Traverse.{extract_depth, traverse_slot, traverse_from}
use a9n.Slot.{Slots}

pow_add : (a b : ℕ) → 2 ^ (a + b) ≡ 2 ^ a * 2 ^ b
pow_add a zero = let same : a + 0 ≡ a = omega arith in rw same (omega arith)
pow_add a (suc b) =
    let same : a + suc b ≡ suc (a + b) = omega arith in
    rw same (
      omega (
        arith,
        pow-suc 2 (a + b),
        pow_add a b,
        pow-suc 2 b,
        ap (λ (t : ℕ). 2 ^ a * t) (pow-suc 2 b),
      ))

-- A step: the geometry of a node, the bits that it ignores, and the index into its slots.
pub record Step : Type 0 where
  pub geometry : Node
  pub ignored : ℕ
  pub index : ℕ

abbrev pub bits : List Step → ℕ
bits [] = 0
bits (x ∷ xs) = x.geometry.ignore_bits + x.geometry.radix_bits + bits xs

abbrev pub digits : Step → ℕ
digits x = x.ignored * 2 ^ (x.geometry.radix_bits) + x.index

abbrev pub encode : List Step → ℕ
encode [] = 0
encode (x ∷ xs) = digits x * 2 ^ bits xs + encode xs

-- The depth, the path, and zeros.
abbrev pub descriptor : List Step → ℕ
descriptor xs = bits xs * 2 ^ 56 + encode xs * 2 ^ (56 - bits xs)

-- The step `x` at the node `n` finds `slot`.
pub record Finds (nodes : ℕ → Node) (n : ℕ) (x : Step) (slot : ℕ) : Type 0 where
  pub geometry : nodes n ≡ x.geometry
  pub radix : 0 < x.geometry.radix_bits
  pub ignored : x.ignored < 2 ^ (x.geometry.ignore_bits)
  pub index : x.index < 2 ^ (x.geometry.radix_bits)
  pub found : retrieve_slot (x.geometry) (x.index) ≡ ok slot

-- From the node `n` the path leads through nodes to `slot`.
pub data Leads (nodes : ℕ → Node) (s : Slots) : ℕ → List Step → ℕ → Type 0 where
  last : {n : ℕ} {x : Step} {slot : ℕ} → Finds nodes n x slot → Leads nodes s n (x ∷ []) slot
  into :
      {n m mid slot : ℕ} {x : Step} {xs : List Step}
      → Finds nodes n x mid
      → s.component mid ≡ some m
      → type_code (s.type mid) ≡ 2
      → Leads nodes s m xs slot
      → Leads nodes s n (x ∷ xs) slot

digits-lt :
    (x : Step)
    → x.ignored < 2 ^ (x.geometry.ignore_bits)
    → x.index < 2 ^ (x.geometry.radix_bits)
    → digits x < 2 ^ (x.geometry.ignore_bits + x.geometry.radix_bits)
digits-lt x h h' = rw (pow_add (x.geometry.ignore_bits) (x.geometry.radix_bits)) (grind arith)

shifted-lt : (a b g k : ℕ) → a < 2 ^ g → b < 2 ^ k → a * 2 ^ k + b < 2 ^ (g + k)
shifted-lt a b g k h h' = rw (pow_add g k) (grind arith)

encode-lt :
    {nodes : ℕ → Node} {s : Slots} {n slot : ℕ} {xs : List Step}
    → Leads nodes s n xs slot
    → encode xs < 2 ^ bits xs
encode-lt (last {x = x} f) =
    shifted-lt (digits x) 0 (x.geometry.ignore_bits + x.geometry.radix_bits) 0
      (digits-lt x f.ignored f.index) (omega arith)
encode-lt (into {x = x} {xs = xs} f c t rest) =
    shifted-lt (digits x) (encode xs) (x.geometry.ignore_bits + x.geometry.radix_bits) (bits xs)
      (digits-lt x f.ignored f.index) (encode-lt rest)

-- The high part of a number that is shifted down.
shifted_down : (a b k : ℕ) → b < 2 ^ k → (a * 2 ^ k + b) / 2 ^ k ≡ a
shifted_down a b k h =
    mul-add-div_right (pow-pos k) a b ∙ ap (λ (q : ℕ). a + q) (div-eq_of_lt h) ∙ omega arith

low_digit : (hi c i g r : ℕ) → i < 2 ^ r → (hi * 2 ^ (g + r) + (c * 2 ^ r + i)) % 2 ^ r ≡ i
low_digit hi c i g r small =
    let regrouped : hi * 2 ^ (g + r) + (c * 2 ^ r + i) ≡ (hi * 2 ^ g + c) * 2 ^ r + i =
      rw (pow_add g r) (grind arith) in
    ap (λ (q : ℕ). q % 2 ^ r) regrouped
    ∙ mul-add-mod_self_right (hi * 2 ^ g + c) (2 ^ r) i
    ∙ mod-eq_of_lt small

scaled-lt : (a b t : ℕ) → a < 2 ^ b → a * 2 ^ t < 2 ^ (b + t)
scaled-lt a b t h = let positive = pow-pos t in rw (pow_add b t) (grind arith)

regroup : (hi d e a b t : ℕ) → hi * (a * b * t) + (d * b + e) * t ≡ (hi * a + d) * (b * t) + e * t
regroup hi d e a b t = grind arith

-- The index that a node reads at its place in a descriptor.
index_at :
    (x : Step) (used br t hi er : ℕ)
    → x.index < 2 ^ (x.geometry.radix_bits)
    → er < 2 ^ br
    → x.geometry.ignore_bits + x.geometry.radix_bits + used + br + t ≡ 64
    → calculate_capability_index
        (x.geometry)
        ((hi * 2 ^ (x.geometry.ignore_bits + x.geometry.radix_bits) + digits x) * 2 ^ (br + t)
          + er * 2 ^ t)
        used
      ≡ x.index
unfolding calculate_capability_index calculate_used_bits
index_at x used br t hi er small rest width =
    let g = x.geometry.ignore_bits in
    let r = x.geometry.radix_bits in
    let shift : (64 + (word_mod - (g + r + used) % word_mod)) % word_mod ≡ br + t = omega arith in
    let below : er * 2 ^ t < 2 ^ (br + t) = scaled-lt er br t rest in
    rw shift (
      ap (λ (q : ℕ). q % 2 ^ r)
        (shifted_down (hi * 2 ^ (g + r) + digits x) (er * 2 ^ t) (br + t) below)
      ∙ low_digit hi (x.ignored) (x.index) g r small)

-- A place in a descriptor: what stands above, the path that is left, and the zeros.
abbrev at_place : ℕ → List Step → ℕ → ℕ
at_place hi xs t = hi * 2 ^ (bits xs + t) + encode xs * 2 ^ t

-- The next step's place.
at_place_next :
    (hi : ℕ) (x : Step) (xs : List Step) (t : ℕ)
    → at_place hi (x ∷ xs) t
      ≡ at_place (hi * 2 ^ (x.geometry.ignore_bits + x.geometry.radix_bits) + digits x) xs t
at_place_next hi x xs t =
    let g = x.geometry.ignore_bits in
    let r = x.geometry.radix_bits in
    rw (pow_add (g + r + bits xs) t, pow_add (g + r) (bits xs), pow_add (bits xs) t)
      (regroup hi (digits x) (encode xs) (2 ^ (g + r)) (2 ^ bits xs) (2 ^ t))

module _ (nodes : ℕ → Node) (s : Slots) where
  lookup_at :
      (x : Step) (xs : List Step) (n slot used t hi : ℕ)
      → Finds nodes n x slot
      → encode xs < 2 ^ bits xs
      → used + bits (x ∷ xs) + t ≡ 64
      → lookup_slot (nodes n) (at_place hi (x ∷ xs) t) used ≡ ok slot
  unfolding lookup_slot
  lookup_at x xs n slot used t hi f small width = rw f.geometry (
      ap (λ (d : ℕ). retrieve_slot (x.geometry) (calculate_capability_index (x.geometry) d used))
        (at_place_next hi x xs t)
      ∙ ap (retrieve_slot (x.geometry))
          (index_at x used (bits xs) t hi (encode xs) f.index small (omega arith))
      ∙ f.found)

  used_at :
      (x : Step) (xs : List Step) (n slot used t : ℕ)
      → Finds nodes n x slot
      → used + bits (x ∷ xs) + t ≡ 64
      → calculate_used_bits (nodes n) used ≡ used + (x.geometry.ignore_bits + x.geometry.radix_bits)
  unfolding calculate_used_bits
  used_at x xs n slot used t f width = rw f.geometry (omega arith)

  bits-pos : {n slot : ℕ} {xs : List Step} → Leads nodes s n xs slot → 0 < bits xs
  bits-pos (last f) = let radix = f.radix in omega arith
  bits-pos (into f c t rest) = let radix = f.radix in omega arith

  traverse_on :
      {n slot : ℕ} {xs : List Step} (fuel used t hi max_bits : ℕ)
      → Leads nodes s n xs slot
      → length xs ≤ fuel
      → used + bits xs + t ≡ 64
      → max_bits ≡ used + bits xs
      → traverse_slot fuel nodes s n (at_place hi xs t) max_bits used ≡ some (ok slot)
  unfolding traverse_slot
  traverse_on zero used t hi max_bits (last f) enough width end = absurd (omega arith)
  traverse_on zero used t hi max_bits (into f c ty rest) enough width end = absurd (omega arith)
  traverse_on {n} {slot} (suc fuel) used t hi max_bits (last {x = x} f) enough width end =
      rw (lookup_at x [] n slot used t hi f (omega arith) width, traverse_slot)
        (rw (used_at x [] n slot used t f width) (
          rw
            ((==_iff (used + (x.geometry.ignore_bits + x.geometry.radix_bits)) max_bits).1
              (omega arith))
            refl))
  traverse_on {n} {slot} (suc fuel) used t hi max_bits
        (into {m = m} {mid = mid} {x = x} {xs = xs} f c ty rest) enough width end =
      let g = x.geometry.ignore_bits + x.geometry.radix_bits in
      let more = bits-pos rest in
      let apart : used + g ≢ max_bits = λ e. omega arith in
      rw (lookup_at x xs n mid used t hi f (encode-lt rest) width, traverse_slot)
        (rw (used_at x xs n mid used t f width) (
          rw (==_false (used + g) max_bits apart) (
            rw c (
              rw ((==_iff (type_code (s.type mid)) 2).1 ty) (
                ap (λ (u : ℕ). traverse_slot fuel nodes s m (at_place hi (x ∷ xs) t) max_bits u)
                  (used_at x xs n mid used t f width)
                ∙ ap (λ (d : ℕ). traverse_slot fuel nodes s m d max_bits (used + g))
                    (at_place_next hi x xs t)
                ∙ traverse_on fuel (used + g) t (hi * 2 ^ g + digits x) max_bits rest (omega arith)
                    (omega arith) (omega arith))))))

  extract_depth-descriptor :
      (xs : List Step)
      → encode xs < 2 ^ bits xs
      → bits xs ≤ 56
      → extract_depth (descriptor xs) ≡ bits xs + 8
  unfolding extract_depth
  extract_depth-descriptor xs small fits =
      let whole : bits xs + (56 - bits xs) ≡ 56 = omega arith in
      let below : encode xs * 2 ^ (56 - bits xs) < 2 ^ 56 =
        subst (λ (k : ℕ). encode xs * 2 ^ (56 - bits xs) < 2 ^ k) whole
          (scaled-lt (encode xs) (bits xs) (56 - bits xs) small) in
      rw (shifted_down (bits xs) (encode xs * 2 ^ (56 - bits xs)) 56 below) (omega arith)

  -- The descriptor that spells a path of nodes, with anything in the bits that the nodes ignore, is
  -- resolved to the slot at the path's end, on fuel for the nodes on the path.
  pub traverse_from-descriptor :
      (fuel root slot : ℕ) (xs : List Step)
      → Leads nodes s root xs slot
      → length xs ≤ fuel
      → bits xs ≤ 56
      → traverse_from fuel nodes s root (descriptor xs) ≡ some (ok slot)
  unfolding traverse_from
  traverse_from-descriptor fuel root slot xs path enough fits =
      let whole : bits xs + (56 - bits xs) ≡ 56 = omega arith in
      let place : descriptor xs ≡ at_place (bits xs) xs (56 - bits xs) =
        ap (λ (k : ℕ). bits xs * 2 ^ k + encode xs * 2 ^ (56 - bits xs)) (sym whole) in
      ap (λ (max_bits : ℕ). traverse_slot fuel nodes s root (descriptor xs) max_bits 8)
        (extract_depth-descriptor xs (encode-lt path) fits)
      ∙ ap (λ (d : ℕ). traverse_slot fuel nodes s root d (bits xs + 8) 8) place
      ∙ traverse_on fuel 8 (56 - bits xs) (bits xs) (bits xs + 8) path enough (omega arith)
          (omega arith)
