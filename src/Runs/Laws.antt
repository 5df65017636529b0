-- ===== src/Runs/Laws.antt =====
-- Appending to the run ledger of aegis/fund/ledger.py and reading it.
use aegis_quant.Common.{
  ℕ, true, ◌&&◌, &&-true, none, some, [], ◌∷◌, ◌++◌, any, ◌≡◌, ◌≢◌, refl, subst, inl, inr,
  Bool-cases, Option-cases, ◌==◌, ==_iff, ==_refl, if◌then◌else◌, Dict, lookup, insert, keys,
  values, has_key, lookup-insert_self, lookup-insert_ne, returned, arith,
}
use aegis_quant.Runs.Ledger.{
  CycleRecord, Codec, CodecLaws, Cycle, cycle_of, append, get, list_run_ids,
}

keys-insert :
    {V : Type 0} (k : ℕ) (v : V) (d : Dict V)
    → lookup k d ≡ none
    → keys (insert k v d) ≡ keys d ++ (k ∷ [])
keys-insert k v [] h = refl
keys-insert k v (e ∷ d) h = ground (arith, keys-insert k v d)

module _ {co : Codec} (laws : CodecLaws co) where
  -- What an append that returned found and did.
  abbrev Appended : CycleRecord → Dict (Cycle co) → ℕ → Dict (Cycle co) → Type 0
  Appended r cycles h cycles' =
      (h ≡ co.digest r)
      × (lookup r.run_id cycles' ≡ some (cycle_of co r))
      × ((i : ℕ) → i ≢ r.run_id → lookup i cycles' ≡ lookup i cycles)
      × (keys cycles'
          ≡ (if has_key r.run_id cycles then keys cycles else keys cycles ++ (r.run_id ∷ [])))

  same_cycle :
      (x : Cycle co) (r : CycleRecord)
      → (x.record_hash == co.digest r && co.same_json x.record_json (co.canonical r)) ≡ true
      → x ≡ cycle_of co r
  unfolding cycle_of
  same_cycle x r h =
      let (digest, json) = &&-true _ _ h in
      let a = (==_iff x.record_hash (co.digest r)).0 digest in
      let b = (laws.same_json_iff x.record_json (co.canonical r)).0 json in cc (a, b)

  known_Appended :
      (r : CycleRecord) (cycles : Dict (Cycle co)) (x : Cycle co)
      → lookup r.run_id cycles ≡ some x
      → x ≡ cycle_of co r
      → Appended r cycles (co.digest r) cycles
  known_Appended r cycles x known same = (
    refl,
    subst (λ y. lookup r.run_id cycles ≡ some y) same known,
    λ i other. refl,
    rw known refl,
  )

  new_Appended :
      (r : CycleRecord) (cycles : Dict (Cycle co))
      → lookup r.run_id cycles ≡ none
      → Appended r cycles (co.digest r) (insert r.run_id (cycle_of co r) cycles)
  new_Appended r cycles new = (
    refl,
    lookup-insert_self r.run_id (cycle_of co r) cycles,
    λ i other. lookup-insert_ne r.run_id i (cycle_of co r) cycles other,
    rw new (keys-insert r.run_id (cycle_of co r) cycles new),
  )

  moved :
      (r : CycleRecord) (cycles made : Dict (Cycle co)) (p : ℕ × Dict (Cycle co))
      → (co.digest r, made) ≡ p
      → Appended r cycles (co.digest r) made
      → Appended r cycles p.0 p.1
  moved r cycles made p e done = subst (λ q. Appended r cycles q.0 q.1) e done

  -- An append that returns returns the digest of the record; its run ID then has the row of the
  -- record, every other run ID the row it had, and the list of run IDs is as it was, with the run
  -- ID added at the end if it was not known.
  pub append-Appended :
      (r : CycleRecord) (cycles : Dict (Cycle co)) (p : ℕ × Dict (Cycle co))
      → append co r cycles ≡ returned p
      → Appended r cycles p.0 p.1
  unfolding append
  append-Appended r cycles p e = elim (Option-cases (lookup r.run_id cycles)) [
    | inl new ↦
        elim (Bool-cases (any (λ (x : Cycle co). co.digest r == x.record_hash) (values cycles))) [
          | inl taken ↦ absurd (cc (rw (new, taken, append) at e))
          | inr room ↦
              moved r cycles (insert r.run_id (cycle_of co r) cycles) p
                (cc (rw (new, room, append) at e)) (new_Appended r cycles new)
        ]
    | inr (x, known) ↦
        elim (Bool-cases
          (x.record_hash == co.digest r && co.same_json x.record_json (co.canonical r))) [
            | inl hit ↦
                moved r cycles cycles p (cc (rw (known, hit, append) at e))
                  (known_Appended r cycles x known (same_cycle x r hit))
            | inr miss ↦ absurd (cc (rw (known, miss, append) at e))
          ]
  ]

  get-row :
      (r : CycleRecord) (cycles : Dict (Cycle co))
      → lookup r.run_id cycles ≡ some (cycle_of co r)
      → get co r.run_id cycles ≡ returned r
  unfolding get cycle_of
  get-row r cycles found = rw (found, get) (rw (laws.round_trip r, ==_refl (co.digest r)) refl)

  -- After an append that returned, the digest is that of the record, get of its run ID returns the
  -- record, get of any other run ID what it did before, and list_run_ids lists the same run IDs in
  -- the same order, with the new one at the end if it was not known.
  pub appended_is_read :
      (r : CycleRecord) (cycles : Dict (Cycle co)) (p : ℕ × Dict (Cycle co))
      → append co r cycles ≡ returned p
      → (p.0 ≡ co.digest r)
        × (get co r.run_id p.1 ≡ returned r)
        × ((i : ℕ) → i ≢ r.run_id → get co i p.1 ≡ get co i cycles)
        × (list_run_ids co p.1 ≡ (
            if has_key r.run_id cycles
            then list_run_ids co cycles
            else list_run_ids co cycles ++ (r.run_id ∷ [])))
  unfolding get list_run_ids
  appended_is_read r cycles p e =
      let (digest, found, others, listed) = append-Appended r cycles p e in
      (digest, get-row r p.1 found, λ i other. rw (others i other, get) refl, listed)
