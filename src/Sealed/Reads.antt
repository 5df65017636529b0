-- ===== src/Sealed/Reads.antt =====
-- Tables that hold only the rows of records (aegis/memory/relations.py,
-- aegis/research_lab/outcomes.py), and what reading all of them returns.
use aegis_quant.Common.{
  ℕ, Bool, true, false, Option, none, some, List, [], ◌∷◌, ◌==◌, ==_iff, ==_refl, ◌≡◌, ◌↔◌, refl,
  subst, sym, ap, ◌∙◌, inl, inr, Bool-cases, Option-cases, All, In, select, In-select, Dict, lookup,
  lookup-All, IsDict, returned, >>=-returned,
}
use aegis_quant.Common.Sort.{sort_items, lookup-sort_items}
use aegis_quant.Sealed.Table.{
  Codec, CodecLaws, Row, row_of, keep, read_row, read_rows, read_all, read_one,
}
use aegis_quant.Sealed.Laws.{read_row-row_of, keep-Kept, IsDict-Kept}
use aegis_quant.Sealed.Views.{view, sort_items-IsDict, sort_items-All, insert-All}

key_differs :
    {V : Type 0} (k j : ℕ) (d : Dict V) (v : V)
    → lookup j d ≡ none
    → lookup k d ≡ some v
    → (k == j) ≡ false
key_differs k j d v new found = elim (Bool-cases (k == j)) [
  | inl hit ↦ absurd (cc (new, subst (λ i. lookup i d ≡ some v) ((==_iff k j).0 hit) found))
  | inr miss ↦ miss
]

module _ {R : Type 0} {co : Codec R} where
  -- The entry is a record's.
  abbrev pub IsEntry : ℕ × Row co → Type 0
  IsEntry e = (r : R) × (e.1 ≡ row_of co r)

  -- The state that the methods leave: no ID twice, and only rows of records.
  abbrev pub IsSealed : Dict (Row co) → Type 0
  IsSealed table = IsDict table × All IsEntry table

module _ {R : Type 0} {co : Codec R} (laws : CodecLaws co) where
  pub keep-IsSealed :
      (key : ℕ) (r : R) (table table' : Dict (Row co))
      → keep co key r table ≡ returned table'
      → IsSealed table
      → IsSealed table'
  keep-IsSealed key r table table' e (d, h) =
      let kept = keep-Kept laws key r table table' e in
      (
        IsDict-Kept laws key r table table' kept d,
        elim kept [
          | inl (known, same) ↦ subst (All IsEntry) same h
          | inr (new, same) ↦
              subst (All IsEntry) same (insert-All IsEntry key (row_of co r) table (r, refl) h)
        ],
      )

  read_rows-returned :
      (rows : Dict (Row co)) → All IsEntry rows → (rs : List R) × (read_rows co rows ≡ returned rs)
  unfolding read_rows
  read_rows-returned [] h = ([], refl)
  read_rows-returned (e ∷ rows) ((r, same), h) =
      let (rs, tail) = read_rows-returned rows h in
      (r ∷ rs, rw (same, read_row-row_of laws r, tail) refl)

  read_entry :
      (e : ℕ × Row co) (a : R) → IsEntry e → read_row co e.1 ≡ returned a → e.1 ≡ row_of co a
  read_entry e a (r, same) read =
      let head : read_row co e.1 ≡ returned r = rw same (read_row-row_of laws r) in
      let found : r ≡ a = cc (head, read) in subst (λ b. e.1 ≡ row_of co b) found same

  read_rows-In :
      (r : R) (rows : Dict (Row co)) (rs : List R)
      → IsDict rows
      → All IsEntry rows
      → read_rows co rows ≡ returned rs
      → In r rs ↔ ((k : ℕ) × (lookup k rows ≡ some (row_of co r)))
  unfolding read_rows
  read_rows-In r [] rs d h e =
      let none_read : [] ≡ rs = cc in
      subst (λ xs. In r xs ↔ ((k : ℕ) × (◌≡◌ {A = Option (Row co)} none (some (row_of co r)))))
        none_read (λ h. absurd h, λ h. cc (h.1))
  read_rows-In r (x ∷ rows) rs (new, d) (entry, h) e =
      let (a, head, e') = >>=-returned (read_row co x.1) _ e in
      let (as', tail, e'') = >>=-returned (read_rows co rows) _ e' in
      let split : (a ∷ as') ≡ rs = cc in
      let (into, out) = read_rows-In r rows as' d h tail in
      let row = read_entry x a entry head in
      subst (λ xs. In r xs ↔ ((k : ℕ) × (lookup k (x ∷ rows) ≡ some (row_of co r)))) split
        (
          λ h. elim h [
            | inl same ↦ (x.0, rw (==_refl x.0) (rw (row, same) refl))
            | inr rest ↦
                let (k, found) = into rest in
                let miss : (k == x.0) ≡ false = key_differs k x.0 rows (row_of co r) new found in
                (k, rw miss found)
          ],
          λ h. elim (Bool-cases (h.0 == x.0)) [
            | inl hit ↦
                let here : x.1 ≡ row_of co r = cc (rw hit at h.1) in
                let read : read_row co x.1 ≡ returned r = rw here (read_row-row_of laws r) in
                inl (cc (read, head))
            | inr miss ↦ inr (out (h.0, rw miss at h.1))
          ],
        )

  -- Reading all rows of a sealed table raises nothing, and a query returns exactly the records
  -- that are in the table and that it selects.
  pub view_iff :
      (p : R → Bool) (table : Dict (Row co))
      → IsSealed table
      → (rs : List R) × (view co p (sort_items table) ≡ returned rs)
        × ((r : R) → In r rs ↔ (((k : ℕ) × (lookup k table ≡ some (row_of co r))) × (p r ≡ true)))
  view_iff p table (d, h) =
      let (rs, read) = read_rows-returned (sort_items table) (sort_items-All IsEntry table h) in
      (
        select p rs,
        rw read refl,
        λ r.
            let (into, out) =
              read_rows-In r (sort_items table) rs (sort_items-IsDict table d)
                (sort_items-All IsEntry table h) read in
            let (chosen, choose) = In-select p r rs in
            (
              λ i.
                  let (k, found) = into (chosen i).0 in
                  ((k, sym (lookup-sort_items k table d) ∙ found), (chosen i).1),
              λ i. choose (out (i.0.0, lookup-sort_items i.0.0 table d ∙ i.0.1), i.1),
            ),
      )

  -- Reading all rows of a sealed table returns exactly the records in it.
  pub read_all_iff :
      (table : Dict (Row co))
      → IsSealed table
      → (rs : List R) × (read_all co table ≡ returned rs)
        × ((r : R) → In r rs ↔ ((k : ℕ) × (lookup k table ≡ some (row_of co r))))
  unfolding read_all
  read_all_iff table (d, h) =
      let (rs, read) = read_rows-returned (sort_items table) (sort_items-All IsEntry table h) in
      (
        rs,
        read,
        λ r.
            let (into, out) =
              read_rows-In r (sort_items table) rs (sort_items-IsDict table d)
                (sort_items-All IsEntry table h) read in
            (
              λ i. let (k, found) = into i in (k, sym (lookup-sort_items k table d) ∙ found),
              λ i. out (i.0, lookup-sort_items i.0 table d ∙ i.1),
            ),
      )

  -- Two records with the same row are the same.
  pub row_of-inj : (a b : R) → row_of co a ≡ row_of co b → a ≡ b
  row_of-inj a b e =
      let left = read_row-row_of laws a in
      let right = read_row-row_of laws b in
      let read : read_row co (row_of co a) ≡ read_row co (row_of co b) = ap (read_row co) e in
      cc (left, right, read)

  -- A record that is read is one whose row is in the table.
  pub read_one-lookup :
      (k : ℕ) (table : Dict (Row co)) (r : R)
      → All IsEntry table
      → read_one co k table ≡ returned r
      → lookup k table ≡ some (row_of co r)
  unfolding read_one
  read_one-lookup k table r h e = elim (Option-cases (lookup k table)) [
    | inl missing ↦ absurd (cc (rw (missing, read_one) at e))
    | inr (x, found) ↦
        let entry = lookup-All IsEntry k table x h found in
        let row = read_entry (k, x) r entry (rw (found, read_one) at e) in
        subst (λ y. lookup k table ≡ some y) row found
  ]
