-- ===== src/Evidence/Claims.antt =====
-- `ClaimGraphSnapshot.graph_is_closed_and_hashed` (aegis/contracts/claims.py); its last test, of
-- the content hash, is a parameter.
use aegis_quant.Common.{
  ℕ, Bool, true, false, not, ◌&&◌, ◌||◌, none, some, List, [], ◌∷◌, any, map, ◌==◌, contains,
  all_distinct, check_all, Call,
}
use aegis_quant.Evidence.Records.{
  Numbers, NodeKind, claim_node, calculation_node, ClaimRelation, derived_by, ClaimEdge, Claim,
  NumericClaim, ClaimGraphSnapshot,
}
use aegis_quant.Evidence.Audit.{same_set, is_support, supporters, find_claim}

-- The messages of the validator.
pub data GraphError : Type 0 where
  claim_ids_not_unique edge_ids_not_unique unknown_endpoint support_disagrees : GraphError
  support_missing number_disagrees calculation_missing hash_differs : GraphError

abbrev pub claim_ids_of : List Claim → List ℕ
claim_ids_of cs = map (λ (c : Claim). c.claim_id) cs

unfoldable pub is_claim_node : NodeKind → Bool
is_claim_node claim_node = true
is_claim_node _ = false

unfoldable pub is_derivation : ClaimEdge → Bool
is_derivation e = is_claim_node e.source_kind && derives e.relation e.target_kind
  where
    derives : ClaimRelation → NodeKind → Bool
    derives derived_by calculation_node = true
    derives _ _ = false

-- An edge that ends at a claim that the graph does not have.
unfoldable pub is_dangling : List ℕ → ClaimEdge → Bool
is_dangling ids e =
    is_claim_node e.target_kind && not (contains e.target_id ids)
    || is_claim_node e.source_kind && not (contains e.source_id ids)

-- A SUPPORTS edge whose evidence its claim does not cite.
unfoldable pub is_uncited : List Claim → ClaimEdge → Bool
is_uncited cs e = is_support e && elim (find_claim e.target_id cs) [
  | none ↦ true
  | some c ↦ not (contains e.source_id c.evidence_ids)
]

module _ (nu : Numbers) (same_hash : ClaimGraphSnapshot nu → Bool) where
  unfoldable pub is_misplaced : List Claim → NumericClaim nu → Bool
  is_misplaced cs n = elim (find_claim n.claim_id cs) [
    | none ↦ true
    | some c ↦ not (contains n.evidence_id c.evidence_ids)
  ]

  -- `(numeric.claim_id, numeric.calculation_id) not in derived`
  unfoldable pub is_underived : List ClaimEdge → NumericClaim nu → Bool
  is_underived es n = elim n.calculation_id [
    | none ↦ true
    | some i ↦ not (
        any (λ (e : ClaimEdge). is_derivation e && e.source_id == n.claim_id && e.target_id == i)
          es)
  ]

  abbrev pub graph_guards : ClaimGraphSnapshot nu → List (Bool × GraphError)
  graph_guards g =
      (not (all_distinct (claim_ids_of g.claims)), claim_ids_not_unique)
      ∷ (not (all_distinct (map (λ (e : ClaimEdge). e.edge_id) g.edges)), edge_ids_not_unique)
      ∷ (any (is_dangling (claim_ids_of g.claims)) g.edges, unknown_endpoint)
      ∷ (any (is_uncited g.claims) g.edges, support_disagrees)
      ∷ (
        any
            (λ (c : Claim).
              c.material && not (same_set (supporters c.claim_id g.edges) c.evidence_ids))
            g.claims,
        support_missing,
      )
      ∷ (any (is_misplaced g.claims) g.numeric_claims, number_disagrees)
      ∷ (any (is_underived g.edges) g.numeric_claims, calculation_missing)
      ∷ (not (same_hash g), hash_differs)
      ∷ []

  unfoldable pub validate_graph : ClaimGraphSnapshot nu → Call GraphError (Unit {0})
  validate_graph g = check_all (graph_guards g)
