-- ===== src/Common/Lists.antt =====
-- Lists measured by native numbers, tests over lists and membership by recursion.
use Prim.Native.Nat.{ℕ, zero, suc, ◌+◌, ◌≤◌}
use mathlib.Core.Path.{◌≡◌, refl, ap, subst, sym}
use mathlib.Core.Logic.{◌↔◌, ◌⊎◌, inl, inr}
use mathlib.Core.Bool.{Bool, true, false, ◌&&◌, ◌||◌}
use mathlib.Core.List.{List, [], ◌∷◌, ◌++◌, map}
use native.Mathlib.Omega.{arith}
use aegis_quant.Common.Tests.{◌==◌, if◌then◌else◌, Bool-cases, ==_iff}

module _ {ℓ} {A : Type ℓ} where
  abbrev pub length : List A → ℕ
  length [] = 0
  length (_ ∷ xs) = suc (length xs)

  abbrev pub any : (A → Bool) → List A → Bool
  any p [] = false
  any p (x ∷ xs) = p x || any p xs

  abbrev pub all : (A → Bool) → List A → Bool
  all p [] = true
  all p (x ∷ xs) = p x && all p xs

  -- `[x for x in xs if p(x)]`
  abbrev pub select : (A → Bool) → List A → List A
  select p [] = []
  select p (x ∷ xs) = let rest = select p xs in if p x then x ∷ rest else rest

  abbrev pub is_empty : List A → Bool
  is_empty [] = true
  is_empty (_ ∷ _) = false

module _ {ℓ κ} {A : Type ℓ} where
  -- Every element of a list satisfies `P`.
  abbrev pub All : (A → Type κ) → List A → Type κ
  All P [] = Unit
  All P (x ∷ xs) = P x × All P xs

module _ {A : Type 0} where
  -- The value occurs in the list.
  abbrev pub In : A → List A → Type 0
  In a [] = ⊥
  In a (x ∷ xs) = (a ≡ x) ⊎ In a xs

module _ {ℓ} {A : Type ℓ} where
  pub any-false : (p : A → Bool) (xs : List A) → any p xs ≡ false → All (λ x. p x ≡ false) xs
  any-false p [] h = tt
  any-false p (x ∷ xs) h = (ground arith, any-false p xs (ground arith))

  pub all-true : (p : A → Bool) (xs : List A) → all p xs ≡ true → All (λ x. p x ≡ true) xs
  all-true p [] h = tt
  all-true p (x ∷ xs) h = (ground arith, all-true p xs (ground arith))

  pub append-nil : (xs : List A) → xs ++ [] ≡ xs
  append-nil [] = refl
  append-nil (x ∷ xs) = ap (λ r. x ∷ r) (append-nil xs)

  pub append_assoc : (xs ys zs : List A) → (xs ++ ys) ++ zs ≡ xs ++ (ys ++ zs)
  append_assoc [] ys zs = refl
  append_assoc (x ∷ xs) ys zs = ap (λ r. x ∷ r) (append_assoc xs ys zs)

  pub length-append : (xs ys : List A) → length (xs ++ ys) ≡ length xs + length ys
  length-append [] ys = omega arith
  length-append (x ∷ xs) ys = omega (arith, length-append xs ys)

-- `x in xs`
abbrev pub contains : ℕ → List ℕ → Bool
contains a [] = false
contains a (x ∷ xs) = a == x || contains a xs

-- `len(xs) == len(set(xs))`
abbrev pub all_distinct : List ℕ → Bool
all_distinct [] = true
all_distinct (x ∷ xs) = if contains x xs then false else all_distinct xs

pub contains-All : (P : ℕ → Type 0) (a : ℕ) (xs : List ℕ) → All P xs → contains a xs ≡ true → P a
contains-All P a [] h e = cc
contains-All P a (x ∷ xs) h e = elim (Bool-cases (a == x)) [
  | inl hit ↦ subst P (sym ((==_iff a x).0 hit)) h.0
  | inr miss ↦ contains-All P a xs h.1 (ground arith)
]

-- A selection that is empty rejects every element.
pub select-nil :
    (p : ℕ → Bool) (xs : List ℕ) → is_empty (select p xs) ≡ true → All (λ x. p x ≡ false) xs
select-nil p [] h = tt
select-nil p (x ∷ xs) h = elim (Bool-cases (p x)) [
  | inl hit ↦ absurd (cc (rw hit at h))
  | inr miss ↦ (miss, select-nil p xs (rw miss at h))
]

-- `xs[:n]`
abbrev pub take {ℓ} : {A : Type ℓ} → ℕ → List A → List A
take n [] = []
take zero (x ∷ xs) = []
take (suc n) (x ∷ xs) = x ∷ take n xs

pub length-take-le : {A : Type 0} (n : ℕ) (xs : List A) → length (take n xs) ≤ n
length-take-le n [] = omega arith
length-take-le zero (x ∷ xs) = omega arith
length-take-le (suc n) (x ∷ xs) = omega (arith, length-take-le n xs)

pub take-In : {A : Type 0} (a : A) (n : ℕ) (xs : List A) → In a (take n xs) → In a xs
take-In a n [] h = h
take-In a zero (x ∷ xs) h = absurd h
take-In a (suc n) (x ∷ xs) (inl same) = inl same
take-In a (suc n) (x ∷ xs) (inr rest) = inr (take-In a n xs rest)

pub In-take :
    {A : Type 0} (a : A) (n : ℕ) (xs : List A)
    → In a xs
    → In a (take n xs) ⊎ (length (take n xs) ≡ n)
In-take a n [] h = absurd h
In-take a zero (x ∷ xs) h = inr refl
In-take a (suc n) (x ∷ xs) (inl same) = inl (inl same)
In-take a (suc n) (x ∷ xs) (inr rest) = elim (In-take a n xs rest) [
  | inl found ↦ inl (inr found)
  | inr full ↦ inr (ap suc full)
]

pub In-select :
    {A : Type 0} (p : A → Bool) (a : A) (xs : List A)
    → In a (select p xs) ↔ (In a xs × (p a ≡ true))
In-select p a [] = (λ h. absurd h, λ h. absurd h.0)
In-select p a (x ∷ xs) = elim (Bool-cases (p x)) [
  | inl hit ↦
      let (into, out) = In-select p a xs in
      rw hit (
        λ h. elim h [
          | inl same ↦ (inl same, subst (λ y. p y ≡ true) (sym same) hit)
          | inr rest ↦ (inr (into rest).0, (into rest).1)
        ],
        λ h. elim h.0 [ inl same ↦ inl same | inr rest ↦ inr (out (rest, h.1)) ],
      )
  | inr miss ↦
      let (into, out) = In-select p a xs in
      rw miss (
        λ h. (inr (into h).0, (into h).1),
        λ h. elim h.0 [
          | inl same ↦ absurd (cc (miss, subst (λ y. p y ≡ true) same h.1))
          | inr rest ↦ out (rest, h.1)
        ],
      )
]

pub select-All :
    {A : Type 0} (P : A → Type 0) (p : A → Bool) (xs : List A) → All P xs → All P (select p xs)
select-All P p [] h = tt
select-All P p (x ∷ xs) h = elim (Bool-cases (p x)) [
  | inl hit ↦ rw hit (h.0, select-All P p xs h.1)
  | inr miss ↦ rw miss (select-All P p xs h.1)
]

pub select-any :
    {A : Type 0} (p q : A → Bool) (xs : List A)
    → ((x : A) → p x ≡ true → q x ≡ false)
    → any q (select p xs) ≡ false
select-any p q [] h = refl
select-any p q (x ∷ xs) h = elim (Bool-cases (p x)) [
  | inl hit ↦ rw (hit, h x hit) (select-any p q xs h)
  | inr miss ↦ rw miss (select-any p q xs h)
]

pub map-All :
    {A B : Type 0} (P : B → Type 0) (f : A → B) (xs : List A)
    → All (λ x. P (f x)) xs
    → All P (map f xs)
map-All P f [] h = tt
map-All P f (x ∷ xs) h = (h.0, map-All P f xs h.1)
