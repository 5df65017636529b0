-- ===== src/Common/Sort.antt =====
-- `sorted` over keys: insertion into an ordered list.
use Prim.Native.Nat.{ℕ, zero, suc, ◌<◌}
use mathlib.Core.Path.{◌≡◌, refl}
use mathlib.Core.Logic.{◌↔◌, inl, inr}
use mathlib.Core.Bool.{Bool, true, false}
use mathlib.Core.Option.{none, some}
use mathlib.Core.List.{List, [], ◌∷◌}
use native.Mathlib.Omega.{arith}
use aegis_quant.Common.Tests.{ltb, leb, ◌==◌, if◌then◌else◌, Bool-cases}
use aegis_quant.Common.Lists.{contains, All, In, take}
use aegis_quant.Common.Dicts.{Dict, lookup, IsDict}

-- `sorted(d.items())` of a dict, whose keys differ
module _ {V : Type 0} where
  abbrev pub insert_item : ℕ → V → Dict V → Dict V
  insert_item k v [] = (k, v) ∷ []
  insert_item k v (e ∷ d) = if ltb k e.0 then (k, v) ∷ (e ∷ d) else e ∷ insert_item k v d

  abbrev pub sort_items : Dict V → Dict V
  sort_items [] = []
  sort_items (e ∷ d) = insert_item e.0 e.1 (sort_items d)

  pub lookup-insert_item :
      (k j : ℕ) (v : V) (d : Dict V)
      → lookup k d ≡ none
      → lookup j (insert_item k v d) ≡ (if j == k then some v else lookup j d)
  lookup-insert_item k j v [] h = refl
  lookup-insert_item k j v (e ∷ d) h = ground (arith, lookup-insert_item k j v d)

  -- Sorting a dict keeps every entry.
  pub lookup-sort_items : (j : ℕ) (d : Dict V) → IsDict d → lookup j (sort_items d) ≡ lookup j d
  lookup-sort_items j [] h = refl
  lookup-sort_items j (e ∷ d) h = ground (
    arith,
    lookup-insert_item e.0 j e.1 (sort_items d),
    lookup-sort_items j d h.1,
    lookup-sort_items e.0 d h.1,
  )

-- `sorted(set(xs))`
abbrev pub insert_key : ℕ → List ℕ → List ℕ
insert_key k [] = k ∷ []
insert_key k (j ∷ xs) =
    if k == j then j ∷ xs else if ltb k j then k ∷ (j ∷ xs) else j ∷ insert_key k xs

abbrev pub sort_set : List ℕ → List ℕ
sort_set [] = []
sort_set (k ∷ xs) = insert_key k (sort_set xs)

pub contains-insert_key :
    (k j : ℕ) (xs : List ℕ)
    → contains j (insert_key k xs) ≡ (if j == k then true else contains j xs)
contains-insert_key k j [] = ground arith
contains-insert_key k j (x ∷ xs) = ground (arith, contains-insert_key k j xs)

pub contains-sort_set : (j : ℕ) (xs : List ℕ) → contains j (sort_set xs) ≡ contains j xs
contains-sort_set j [] = refl
contains-sort_set j (x ∷ xs) =
    ground (arith, contains-insert_key x j (sort_set xs), contains-sort_set j xs)

-- In strictly ascending order.
abbrev pub Ascending : List ℕ → Type 0
Ascending [] = Unit
Ascending (x ∷ xs) = All (λ y. x < y) xs × Ascending xs

insert_key-All :
    (b k : ℕ) (xs : List ℕ) → b < k → All (λ y. b < y) xs → All (λ y. b < y) (insert_key k xs)
insert_key-All b k [] p h = (p, tt)
insert_key-All b k (x ∷ xs) p h = ground (arith, insert_key-All b k xs p h.1)

weaken-All : (a b : ℕ) (xs : List ℕ) → a < b → All (λ y. b < y) xs → All (λ y. a < y) xs
weaken-All a b [] p h = tt
weaken-All a b (x ∷ xs) p h = (omega arith, weaken-All a b xs p h.1)

insert_key-Ascending : (k : ℕ) (xs : List ℕ) → Ascending xs → Ascending (insert_key k xs)
insert_key-Ascending k [] h = (tt, tt)
insert_key-Ascending k (x ∷ xs) h =
    ground (arith, insert_key-Ascending k xs h.1, insert_key-All x k xs, weaken-All k x xs)

pub sort_set-Ascending : (xs : List ℕ) → Ascending (sort_set xs)
sort_set-Ascending [] = tt
sort_set-Ascending (x ∷ xs) = insert_key-Ascending x (sort_set xs) (sort_set-Ascending xs)

-- The first key of an ascending list is not in the rest.
pub contains-above : (k : ℕ) (xs : List ℕ) → All (λ y. k < y) xs → contains k xs ≡ false
contains-above k [] h = refl
contains-above k (x ∷ xs) h = ground (arith, contains-above k xs h.1)

-- `sorted(xs)`
abbrev pub place_key : ℕ → List ℕ → List ℕ
place_key k [] = k ∷ []
place_key k (j ∷ xs) = if leb k j then k ∷ j ∷ xs else j ∷ place_key k xs

abbrev pub sort_keys : List ℕ → List ℕ
sort_keys [] = []
sort_keys (k ∷ xs) = place_key k (sort_keys xs)

contains-place_key :
    (k j : ℕ) (xs : List ℕ) → contains j (place_key k xs) ≡ (if j == k then true else contains j xs)
contains-place_key k j [] = ground arith
contains-place_key k j (x ∷ xs) = ground (arith, contains-place_key k j xs)

pub contains-sort_keys : (j : ℕ) (xs : List ℕ) → contains j (sort_keys xs) ≡ contains j xs
contains-sort_keys j [] = refl
contains-sort_keys j (x ∷ xs) =
    ground (arith, contains-place_key x j (sort_keys xs), contains-sort_keys j xs)

-- `sorted(xs, key=...)`, which is stable, by a test of whether one element's key is less than that
-- of another
module _ {A : Type 0} (before : A → A → Bool) where
  abbrev pub place_by : A → List A → List A
  place_by a [] = a ∷ []
  place_by a (x ∷ xs) = let rest = place_by a xs in if before x a then x ∷ rest else a ∷ x ∷ xs

  abbrev pub sort_by : List A → List A
  sort_by [] = []
  sort_by (x ∷ xs) = place_by x (sort_by xs)

  place_by_iff : (a b : A) (xs : List A) → In b (place_by a xs) ↔ In b (a ∷ xs)
  place_by_iff a b [] = (λ h. h, λ h. h)
  place_by_iff a b (x ∷ xs) =
      let (into, out) = place_by_iff a b xs in
      elim (Bool-cases (before x a)) [
        | inl first ↦ rw first (
          λ h. elim h [
            | inl same ↦ inr (inl same)
            | inr rest ↦ elim (into rest) [ inl same ↦ inl same | inr far ↦ inr (inr far) ]
          ],
          λ h. elim h [
            | inl same ↦ inr (out (inl same))
            | inr (inl same) ↦ inl same
            | inr (inr rest) ↦ inr (out (inr rest))
          ],
        )
        | inr later ↦ rw later (λ h. h, λ h. h)
      ]

  -- Sorting keeps the elements.
  pub sort_by_iff : (b : A) (xs : List A) → In b (sort_by xs) ↔ In b xs
  sort_by_iff b [] = (λ h. h, λ h. h)
  sort_by_iff b (x ∷ xs) =
      let (into, out) = sort_by_iff b xs in
      let (place, back) = place_by_iff x b (sort_by xs) in
      (
        λ h. elim (place h) [ inl same ↦ inl same | inr rest ↦ inr (into rest) ],
        λ h. back (elim h [ inl same ↦ inl same | inr rest ↦ inr (out rest) ]),
      )

-- Of two neighbours the first is in this relation to the second.
module _ {A : Type 0} (R : A → A → Type 0) where
  abbrev pub Leads : A → List A → Type 0
  Leads x [] = Unit
  Leads x (y ∷ ys) = R x y

  abbrev pub IsRanked : List A → Type 0
  IsRanked [] = Unit
  IsRanked (x ∷ xs) = Leads x xs × IsRanked xs

  pub take-IsRanked : (n : ℕ) (xs : List A) → IsRanked xs → IsRanked (take n xs)
  take-IsRanked n [] h = tt
  take-IsRanked zero (x ∷ xs) h = tt
  take-IsRanked (suc zero) (x ∷ []) h = (tt, tt)
  take-IsRanked (suc zero) (x ∷ y ∷ ys) h = (tt, tt)
  take-IsRanked (suc (suc n)) (x ∷ []) h = (tt, tt)
  take-IsRanked (suc (suc n)) (x ∷ y ∷ ys) h = (h.0, take-IsRanked (suc n) (y ∷ ys) h.1)

-- Sorting ranks by a relation that holds both of an element before another and of two elements of
-- which the second is not before the first.
module _ {A : Type 0} (before : A → A → Bool) (R : A → A → Type 0)
    (forward : (a b : A) → before a b ≡ true → R a b)
    (upward : (a b : A) → before b a ≡ false → R a b) where
  place_by-Leads : (x a : A) (xs : List A) → R x a → Leads R x xs → Leads R x (place_by before a xs)
  place_by-Leads x a [] first rest = first
  place_by-Leads x a (y ∷ ys) first rest = elim (Bool-cases (before y a)) [
    | inl hit ↦ rw hit rest
    | inr miss ↦ rw miss first
  ]

  place_by-IsRanked : (a : A) (xs : List A) → IsRanked R xs → IsRanked R (place_by before a xs)
  place_by-IsRanked a [] h = (tt, tt)
  place_by-IsRanked a (x ∷ xs) h = elim (Bool-cases (before x a)) [
    | inl hit ↦ rw hit (place_by-Leads x a xs (forward x a hit) h.0, place_by-IsRanked a xs h.1)
    | inr miss ↦ rw miss (upward a x miss, h)
  ]

  pub sort_by-IsRanked : (xs : List A) → IsRanked R (sort_by before xs)
  sort_by-IsRanked [] = tt
  sort_by-IsRanked (x ∷ xs) = place_by-IsRanked x (sort_by before xs) (sort_by-IsRanked xs)
