-- ===== src/Sealed/Views.antt =====
-- Queries of a sealed table that read all rows and select records, as `RelationStore.search`
-- (aegis/memory/relations.py) does.
use aegis_quant.Common.{
  ℕ, Bool, false, none, List, [], ◌∷◌, ◌==◌, ltb, if◌then◌else◌, ◌≡◌, ◌≢◌, refl, subst, sym, ap,
  ◌∙◌, inl, inr, Bool-cases, All, select, Dict, lookup, insert, IsDict, Call, returned, raised,
  ◌>>=◌, arith,
}
use aegis_quant.Common.Sort.{insert_item, sort_items, lookup-insert_item, lookup-sort_items}
use aegis_quant.Sealed.Table.{Codec, CodecLaws, SealedError, Row, row_of, keep, read_row, read_rows}
use aegis_quant.Sealed.Laws.{read_row-row_of, keep-Kept}

module _ {V : Type 0} where
  insert_item_comm :
      (j k : ℕ) (a b : V) (d : Dict V)
      → j ≢ k
      → insert_item j a (insert_item k b d) ≡ insert_item k b (insert_item j a d)
  insert_item_comm j k a b [] h = ground arith
  insert_item_comm j k a b (e ∷ d) h = ground (arith, insert_item_comm j k a b d h)

  -- A new entry is sorted to where it would be inserted.
  sort_items-insert :
      (k : ℕ) (v : V) (d : Dict V)
      → lookup k d ≡ none
      → sort_items (insert k v d) ≡ insert_item k v (sort_items d)
  sort_items-insert k v [] h = refl
  sort_items-insert k v (e ∷ d) h = elim (Bool-cases (k == e.0)) [
    | inl hit ↦ absurd (cc (rw hit at h))
    | inr miss ↦
        let other : e.0 ≢ k = ground (arith, miss) in
        rw miss (
          ap (insert_item e.0 e.1) (sort_items-insert k v d (rw miss at h))
          ∙ insert_item_comm e.0 k e.1 v (sort_items d) other)
  ]

  insert_item-IsDict :
      (k : ℕ) (v : V) (d : Dict V) → lookup k d ≡ none → IsDict d → IsDict (insert_item k v d)
  insert_item-IsDict k v [] n h = (refl, tt)
  insert_item-IsDict k v (e ∷ d) n h =
      ground (arith, insert_item-IsDict k v d, lookup-insert_item k e.0 v d, h.0, h.1)

  pub sort_items-IsDict : (d : Dict V) → IsDict d → IsDict (sort_items d)
  sort_items-IsDict [] h = tt
  sort_items-IsDict (e ∷ d) h =
      insert_item-IsDict e.0 e.1 (sort_items d) (lookup-sort_items e.0 d h.1 ∙ h.0)
        (sort_items-IsDict d h.1)

  module _ (P : ℕ × V → Type 0) where
    insert_item-All : (k : ℕ) (v : V) (d : Dict V) → P (k, v) → All P d → All P (insert_item k v d)
    insert_item-All k v [] p h = (p, tt)
    insert_item-All k v (e ∷ d) p h = elim (Bool-cases (ltb k e.0)) [
      | inl hit ↦ rw hit (p, h)
      | inr miss ↦ rw miss (h.0, insert_item-All k v d p h.1)
    ]

    pub sort_items-All : (d : Dict V) → All P d → All P (sort_items d)
    sort_items-All [] h = tt
    sort_items-All (e ∷ d) h = insert_item-All e.0 e.1 (sort_items d) h.0 (sort_items-All d h.1)

    pub insert-All : (k : ℕ) (v : V) (d : Dict V) → P (k, v) → All P d → All P (insert k v d)
    insert-All k v [] p h = (p, tt)
    insert-All k v (e ∷ d) p h = elim (Bool-cases (k == e.0)) [
      | inl hit ↦ rw hit (p, h.1)
      | inr miss ↦ rw miss (h.0, insert-All k v d p h.1)
    ]

module _ {R : Type 0} (co : Codec R) (p : R → Bool) where
  abbrev with_record : R → List R → List R
  with_record r rs = if p r then r ∷ rs else rs

  -- The records that a query returns.
  abbrev pub view : Dict (Row co) → Call SealedError (List R)
  view rows = read_rows co rows >>= λ rs. returned (select p rs)

  bind_assoc :
      (m : Call SealedError R) (n : Call SealedError (List R))
      → ((m >>= λ r. n >>= λ rest. returned (r ∷ rest)) >>= λ rs. returned (select p rs))
        ≡ (m >>= λ r. (n >>= λ rs. returned (select p rs)) >>= λ vs. returned (with_record r vs))
  bind_assoc (raised why) n = refl
  bind_assoc (returned r) (raised why) = refl
  bind_assoc (returned r) (returned rs) = refl

  view-cons :
      (x : ℕ × Row co) (rows : Dict (Row co))
      → view (x ∷ rows) ≡ (read_row co x.1 >>= λ r. view rows >>= λ vs. returned (with_record r vs))
  unfolding read_rows
  view-cons x rows = bind_assoc (read_row co x.1) (read_rows co rows)

  drop_rejected :
      (r : R) (m : Call SealedError (List R))
      → p r ≡ false
      → (m >>= λ vs. returned (with_record r vs)) ≡ m
  drop_rejected r (raised why) h = refl
  drop_rejected r (returned vs) h = rw h refl

module _ {R : Type 0} {co : Codec R} (laws : CodecLaws co) (p : R → Bool) where
  view-insert_item :
      (k : ℕ) (r : R) (rows : Dict (Row co))
      → p r ≡ false
      → view co p (insert_item k (row_of co r) rows) ≡ view co p rows
  view-insert_item k r [] h =
      view-cons co p (k, row_of co r) []
      ∙ rw (read_row-row_of laws r) (drop_rejected co p r (view co p []) h)
  view-insert_item k r (e ∷ rows) h = elim (Bool-cases (ltb k e.0)) [
    | inl hit ↦ rw hit (
        view-cons co p (k, row_of co r) (e ∷ rows)
        ∙ rw (read_row-row_of laws r) (drop_rejected co p r (view co p (e ∷ rows)) h))
    | inr miss ↦ rw miss (
        view-cons co p e (insert_item k (row_of co r) rows)
        ∙ ap (λ m. read_row co e.1 >>= λ a. m >>= λ vs. returned (with_record co p a vs))
            (view-insert_item k r rows h)
        ∙ sym (view-cons co p e rows))
  ]

  -- Keeping a record that the query rejects leaves its answer as it was.
  pub view-keep :
      (k : ℕ) (r : R) (table table' : Dict (Row co))
      → keep co k r table ≡ returned table'
      → p r ≡ false
      → view co p (sort_items table') ≡ view co p (sort_items table)
  view-keep k r table table' e h = elim (keep-Kept laws k r table table' e) [
    | inl (known, same) ↦
        subst (λ t. view co p (sort_items t) ≡ view co p (sort_items table)) same refl
    | inr (new, same) ↦
        subst (λ t. view co p (sort_items t) ≡ view co p (sort_items table)) same
          (ap (view co p) (sort_items-insert k (row_of co r) table new)
            ∙ view-insert_item k r (sort_items table) h)
  ]
