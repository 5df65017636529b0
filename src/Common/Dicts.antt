-- ===== src/Common/Dicts.antt =====
-- A Python dict as an association list over number keys, in insertion order.
use Prim.Native.Nat.{ℕ}
use mathlib.Core.Path.{◌≡◌, refl, sym, subst}
use mathlib.Core.Logic.{◌≢◌, inl, inr}
use mathlib.Core.Bool.{Bool}
use mathlib.Core.Option.{Option, none, some}
use mathlib.Core.List.{List, [], ◌∷◌}
use native.Mathlib.Omega.{arith}
use aegis_quant.Common.Lists.{All}
use aegis_quant.Common.Tests.{◌==◌, if◌then◌else◌, is_some, Bool-cases, ==_iff}

abbrev pub Dict {ℓ} : Type ℓ → Type ℓ
Dict V = List (ℕ × V)

module _ {ℓ} {V : Type ℓ} where
  -- `list(d)`
  abbrev pub keys : Dict V → List ℕ
  keys [] = []
  keys (item ∷ rest) = item.0 ∷ keys rest

  -- `d.values()`
  abbrev pub values : Dict V → List V
  values [] = []
  values (item ∷ rest) = item.1 ∷ values rest

  -- `d.pop(k, None)`
  abbrev pub erase : ℕ → Dict V → Dict V
  erase key [] = []
  erase key (item ∷ rest) = if key == item.0 then rest else item ∷ erase key rest

  -- `d.get(k)`, `None` for a missing key
  abbrev pub lookup : ℕ → Dict V → Option V
  lookup key [] = none
  lookup key ((k, v) ∷ rest) = if key == k then some v else lookup key rest

  -- `d.get(k, v)`
  abbrev pub get_or : V → ℕ → Dict V → V
  get_or v key d = elim (lookup key d) [ none ↦ v | some found ↦ found ]

  -- `k in d`
  abbrev pub has_key : ℕ → Dict V → Bool
  has_key key d = is_some (lookup key d)

  -- `d[k] = v`: a known key keeps its place
  abbrev pub insert : ℕ → V → Dict V → Dict V
  insert key v [] = (key, v) ∷ []
  insert key v (item ∷ rest) = if key == item.0 then (key, v) ∷ rest else item ∷ insert key v rest

module _ {V : Type 0} where
  -- No key occurs twice, as in every dict.
  abbrev pub IsDict : Dict V → Type 0
  IsDict [] = Unit
  IsDict (e ∷ d) = (lookup e.0 d ≡ none) × IsDict d

  pub lookup-insert :
      (k j : ℕ) (v : V) (d : Dict V)
      → lookup j (insert k v d) ≡ (if j == k then some v else lookup j d)
  lookup-insert k j v [] = refl
  lookup-insert k j v (e ∷ d) = ground (arith, lookup-insert k j v d)

  pub lookup-insert_self : (k : ℕ) (v : V) (d : Dict V) → lookup k (insert k v d) ≡ some v
  lookup-insert_self k v d = ground (arith, lookup-insert k k v d)

  pub lookup-insert_ne :
      (k j : ℕ) (v : V) (d : Dict V) → j ≢ k → lookup j (insert k v d) ≡ lookup j d
  lookup-insert_ne k j v d h = ground (arith, lookup-insert k j v d)

  pub lookup-erase_ne : (k j : ℕ) (d : Dict V) → j ≢ k → lookup j (erase k d) ≡ lookup j d
  lookup-erase_ne k j [] h = refl
  lookup-erase_ne k j (e ∷ d) h = ground (arith, lookup-erase_ne k j d h)

  pub lookup-erase_self : (k : ℕ) (d : Dict V) → IsDict d → lookup k (erase k d) ≡ none
  lookup-erase_self k [] h = refl
  lookup-erase_self k (e ∷ d) h = ground (arith, lookup-erase_self k d h.1)

  pub insert-IsDict : (k : ℕ) (v : V) (d : Dict V) → IsDict d → IsDict (insert k v d)
  insert-IsDict k v [] h = (refl, tt)
  insert-IsDict k v (e ∷ d) h = ground (arith, insert-IsDict k v d h.1, lookup-insert k e.0 v d)

  pub erase-IsDict : (k : ℕ) (d : Dict V) → IsDict d → IsDict (erase k d)
  erase-IsDict k [] h = tt
  erase-IsDict k (e ∷ d) h = ground (arith, erase-IsDict k d h.1, lookup-erase_ne k e.0 d)

module _ {V : Type 0} (P : V → Type 0) where
  -- Every value of the dict satisfies `P`.
  abbrev pub Values : Dict V → Type 0
  Values [] = Unit
  Values (e ∷ d) = P e.1 × Values d

  pub insert-Values : (k : ℕ) (v : V) (d : Dict V) → P v → Values d → Values (insert k v d)
  insert-Values k v [] p h = (p, tt)
  insert-Values k v (e ∷ d) p h = elim (Bool-cases (k == e.0)) [
    | inl hit ↦ rw hit (p, h.1)
    | inr miss ↦ rw miss (h.0, insert-Values k v d p h.1)
  ]

  pub erase-Values : (k : ℕ) (d : Dict V) → Values d → Values (erase k d)
  erase-Values k [] h = tt
  erase-Values k (e ∷ d) h = elim (Bool-cases (k == e.0)) [
    | inl hit ↦ rw hit h.1
    | inr miss ↦ rw miss (h.0, erase-Values k d h.1)
  ]

  pub lookup-Values : (k : ℕ) (d : Dict V) (v : V) → Values d → lookup k d ≡ some v → P v
  lookup-Values k [] v h e = cc
  lookup-Values k (x ∷ d) v h e = elim (Bool-cases (k == x.0)) [
    | inl hit ↦ let same : x.1 ≡ v = ground arith in subst P same h.0
    | inr miss ↦ lookup-Values k d v h.1 (rw miss at e)
  ]

module _ {V : Type 0} where
  pub lookup-erase :
      (k j : ℕ) (d : Dict V)
      → IsDict d
      → lookup j (erase k d) ≡ (if j == k then none else lookup j d)
  lookup-erase k j d h = elim (Bool-cases (j == k)) [
    | inl hit ↦ rw hit (rw ((==_iff j k).0 hit) (lookup-erase_self k d h))
    | inr miss ↦ rw miss (lookup-erase_ne k j d (ground arith))
  ]

  pub erase-insert : (k : ℕ) (v : V) (d : Dict V) → erase k (insert k v d) ≡ erase k d
  erase-insert k v [] = ground arith
  erase-insert k v (e ∷ d) = ground (arith, erase-insert k v d)

module _ {V : Type 0} (P : ℕ × V → Type 0) where
  -- A property of all entries holds of one that is looked up.
  pub lookup-All : (k : ℕ) (d : Dict V) (v : V) → All P d → lookup k d ≡ some v → P (k, v)
  lookup-All k [] v h e = cc
  lookup-All k (x ∷ d) v h e = elim (Bool-cases (k == x.0)) [
    | inl hit ↦
        let same : x.1 ≡ v = cc (rw hit at e) in
        let key : x.0 ≡ k = sym ((==_iff k x.0).0 hit) in subst P (cc (same, key)) h.0
    | inr miss ↦ lookup-All k d v h.1 (rw miss at e)
  ]
