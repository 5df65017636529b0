-- ===== src/Memory/Versions.antt =====
-- The versions of the items that `LocalMemoryBackend.decide` (aegis/memory/local_backend.py) makes.
use aegis_quant.Common.{◌+◌, some, List, [], ◌∷◌, ◌≡◌, refl, subst, ◌⊎◌, inl, inr}
use aegis_quant.Evidence.Records.{Numbers}
use aegis_quant.Evidence.Ledger.{EvidenceCase}
use aegis_quant.Memory.Relations.{MemoryStatus, approved, quarantined}
use aegis_quant.Memory.Records.{
  Verdict, approve, quarantine, reject, MemoryCandidate, MemoryGovernanceDecision, MemoryItem,
}
use aegis_quant.Memory.Backend.{ItemRow, Backend, last_version, item_of, new_item}
use aegis_quant.Sealed.Table.{Codec}

verdict_cases : (v : Verdict) → (v ≡ approve) ⊎ (v ≡ quarantine) ⊎ (v ≡ reject)
verdict_cases approve = inl refl
verdict_cases quarantine = inr (inl refl)
verdict_cases reject = inr (inr refl)

module _ {nu : Numbers} {cc' : Codec (MemoryCandidate nu.fl)} {ic : Codec (MemoryItem nu.fl)}
    {ec : Codec (EvidenceCase nu)} where
  -- An item that a verdict makes is that of the candidate, as the next version.
  new_item-made :
      (d : MemoryGovernanceDecision) (c : MemoryCandidate nu.fl) (b : Backend nu cc' ic ec)
      (m : MemoryItem nu.fl)
      → new_item nu cc' ic ec d c b ≡ some m
      → (status : MemoryStatus) × (item_of nu cc' ic ec d c status
            (last_version nu cc' ic ec c.memory_id b.items + 1)
          ≡ m)
  unfolding new_item
  new_item-made d c b m e = elim (verdict_cases d.decision) [
    | inl yes_verdict ↦ (approved, cc (rw yes_verdict at e))
    | inr (inl held) ↦ (quarantined, cc (rw held at e))
    | inr (inr refused) ↦ absurd (cc (rw refused at e))
  ]

  pub new_item-time :
      (d : MemoryGovernanceDecision) (c : MemoryCandidate nu.fl) (b : Backend nu cc' ic ec)
      (m : MemoryItem nu.fl)
      → new_item nu cc' ic ec d c b ≡ some m
      → m.available_at ≡ d.decided_at
  unfolding item_of
  new_item-time d c b m e =
      let (_, same) = new_item-made d c b m e in
      subst (λ (x : MemoryItem nu.fl). x.available_at ≡ d.decided_at) same refl

  -- The versions of each memory count up from 1; the last row is first.
  abbrev pub IsVersioned : List (ItemRow nu cc' ic ec) → Type 0
  IsVersioned [] = Unit
  IsVersioned (x ∷ xs) = (x.version ≡ last_version nu cc' ic ec x.memory_id xs + 1) × IsVersioned xs
