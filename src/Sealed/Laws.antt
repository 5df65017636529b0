-- ===== src/Sealed/Laws.antt =====
-- What keeping a record in a sealed table does (aegis/research_lab/outcomes.py, `_append`).
use aegis_quant.Common.{
  ℕ, true, &&-true, none, some, ◌==◌, ==_iff, ==_refl, if◌then◌else◌, ◌≡◌, ◌≢◌, ◌↔◌, refl, subst,
  ap, ◌⊎◌, inl, inr, Bool-cases, Option-cases, Dict, lookup, insert, IsDict, insert-IsDict,
  lookup-insert, returned, raised,
}
use aegis_quant.Sealed.Table.{
  Codec, CodecLaws, identity_conflict, Row, row_of, same_row, keep, read_row, read_one,
}

module _ {R : Type 0} {co : Codec R} (laws : CodecLaws co) where
  pub same_row_iff : (x : Row co) (r : R) → (same_row co x r ≡ true) ↔ (x ≡ row_of co r)
  unfolding same_row row_of
  same_row_iff x r = (
    λ h.
        let (json, digest) = &&-true _ _ h in
        let a = (laws.same_json_iff x.payload (co.canonical_json r)).0 json in
        let b = (==_iff x.record_hash (co.canonical_sha256 r)).0 digest in cc (a, b),
    λ e.
        let json : co.same_json x.payload (co.canonical_json r) ≡ true =
          (laws.same_json_iff x.payload (co.canonical_json r)).1
            (ap (λ (y : Row co). y.payload) e) in
        let digest : (x.record_hash == co.canonical_sha256 r) ≡ true =
          (==_iff x.record_hash (co.canonical_sha256 r)).1 (ap (λ (y : Row co). y.record_hash) e) in
        rw (json, digest) refl,
  )

  pub read_row-row_of : (r : R) → read_row co (row_of co r) ≡ returned r
  unfolding read_row row_of
  read_row-row_of r = rw (laws.round_trip r, ==_refl (co.canonical_sha256 r), read_row) refl

  -- The table after a call of `keep` that returned: as it was, with the record there, or with the
  -- record added under a new ID.
  abbrev pub Kept : ℕ → R → Dict (Row co) → Dict (Row co) → Type 0
  Kept key r table table' =
      ((lookup key table ≡ some (row_of co r)) × (table ≡ table'))
      ⊎ ((lookup key table ≡ none) × (insert key (row_of co r) table ≡ table'))

  pub keep-Kept :
      (key : ℕ) (r : R) (table table' : Dict (Row co))
      → keep co key r table ≡ returned table'
      → Kept key r table table'
  unfolding keep
  keep-Kept key r table table' e = elim (Option-cases (lookup key table)) [
    | inl new ↦ inr (new, cc (rw (new, keep) at e))
    | inr (x, known) ↦ elim (Bool-cases (same_row co x r)) [
      | inl hit ↦
          let same = (same_row_iff x r).0 hit in
          inl (subst (λ y. lookup key table ≡ some y) same known, cc (rw (known, hit, keep) at e))
      | inr miss ↦ absurd (cc (rw (known, miss, keep) at e))
    ]
  ]

  -- A call of `keep` raises exactly if the ID has another row.
  pub keep_cases :
      (key : ℕ) (r : R) (table : Dict (Row co))
      → (keep co key r table ≡ returned (insert key (row_of co r) table)
          × (lookup key table ≡ none))
        ⊎ ((keep co key r table ≡ returned table × (lookup key table ≡ some (row_of co r)))
            ⊎ ((x : Row co) × (keep co key r table ≡ raised (identity_conflict key))
                × (lookup key table ≡ some x)
                × (x ≢ row_of co r)))
  unfolding keep
  keep_cases key r table = elim (Option-cases (lookup key table)) [
    | inl new ↦ inl (rw (new, keep) refl, new)
    | inr (x, known) ↦ elim (Bool-cases (same_row co x r)) [
      | inl hit ↦ inr (
          inl (
            rw (known, keep) (rw hit refl),
            subst (λ y. lookup key table ≡ some y) ((same_row_iff x r).0 hit) known,
          ))
      | inr miss ↦ inr (
          inr (
            x,
            rw (known, keep) (rw miss refl),
            known,
            λ same. cc (miss, (same_row_iff x r).1 same),
          ))
    ]
  ]

  -- The kept record is there, and every other ID is as it was.
  pub lookup-Kept :
      (key i : ℕ) (r : R) (table table' : Dict (Row co))
      → Kept key r table table'
      → lookup i table' ≡ (if i == key then some (row_of co r) else lookup i table)
  lookup-Kept key i r table table' (inl (known, same)) = elim (Bool-cases (i == key)) [
    | inl hit ↦
        rw hit
          (rw ((==_iff i key).0 hit) (subst (λ t. lookup key t ≡ some (row_of co r)) same known))
    | inr miss ↦ rw miss (subst (λ t. lookup i t ≡ lookup i table) same refl)
  ]
  lookup-Kept key i r table table' (inr (new, same)) =
      subst (λ t. lookup i t ≡ (if i == key then some (row_of co r) else lookup i table)) same
        (lookup-insert key i (row_of co r) table)

  pub IsDict-Kept :
      (key : ℕ) (r : R) (table table' : Dict (Row co))
      → Kept key r table table'
      → IsDict table
      → IsDict table'
  IsDict-Kept key r table table' (inl (known, same)) h = subst IsDict same h
  IsDict-Kept key r table table' (inr (new, same)) h =
      subst IsDict same (insert-IsDict key (row_of co r) table h)

  pub read_one-keep :
      (key : ℕ) (r : R) (table table' : Dict (Row co))
      → keep co key r table ≡ returned table'
      → read_one co key table' ≡ returned r
  unfolding read_one
  read_one-keep key r table table' e =
      let kept = lookup-Kept key key r table table' (keep-Kept key r table table' e) in
      let found : lookup key table' ≡ some (row_of co r) = rw (==_refl key) at kept in
      rw (found, read_one) (read_row-row_of r)
