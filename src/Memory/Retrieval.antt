-- ===== src/Memory/Retrieval.antt =====
-- `LocalMemoryBackend` (aegis/memory/local_backend.py): the methods that read.
use aegis_quant.Common.{
  ℕ, ◌+◌, Bool, true, not, ◌&&◌, ◌||◌, none, some, List, [], ◌∷◌, any, select, map, length, take,
  ltb, leb, ◌==◌, contains, is_empty, if◌then◌else◌, Text, has_text, pieces, drop_empty, Call,
  returned, ◌>>=◌,
}
use aegis_quant.Common.Sort.{sort_by, sort_keys}
use aegis_quant.Num.{FloatOps}
use aegis_quant.Evidence.Records.{Numbers}
use aegis_quant.Evidence.Ledger.{EvidenceCase}
use aegis_quant.Memory.Relations.{is_approved}
use aegis_quant.Memory.Records.{MemoryCandidate, MemoryItem, MemoryQuery}
use aegis_quant.Memory.Backend.{ItemRow, Backend}
use aegis_quant.Sealed.Table.{Codec, SealedError, read_row}

-- The characters of `_TOKEN`.
abbrev pub is_token : ℕ → Bool
is_token c =
    (leb 65 c && leb c 90)
    || (leb 97 c && leb c 122)
    || (leb 48 c && leb c 57)
    || c == 95
    || c == 46
    || c == 45

-- `str.lower` on those characters
abbrev pub lower : ℕ → ℕ
lower c = if leb 65 c && leb c 90 then c + 32 else c

abbrev pub distinct : List Text → List Text
distinct [] = []
distinct (t ∷ ts) = let rest = distinct ts in if has_text t rest then rest else t ∷ rest

-- `{token.lower() for token in _TOKEN.findall(text)}`
abbrev pub terms_of : Text → List Text
terms_of s = distinct (map (map lower) (drop_empty (pieces (λ c. not (is_token c)) [] s)))

-- `set(xs).intersection(ys)` is not empty.
abbrev pub overlaps : List ℕ → List ℕ → Bool
overlaps xs ys = any (λ i. contains i ys) xs

-- A filter of a query, which passes everything when it is empty.
abbrev pub passes : List ℕ → List ℕ → Bool
passes wanted own = is_empty wanted || overlaps wanted own

-- The numbers of the score: the quotient of two `int`s, 0.25 and 0.1.
pub record Scores (fl : FloatOps) : Type 0 where
  pub ratio : ℕ → ℕ → fl.F
  pub quarter : fl.F
  pub tenth : fl.F

-- The reasons are two fixed texts and, if there are any, the sorted contradictions.
pub record MemoryHit (fl : FloatOps) : Type 0 where
  pub item : MemoryItem fl
  pub score : fl.F
  pub contradictions : List ℕ

pub record MemorySnapshotEntry : Type 0 where
  pub memory_id : ℕ
  pub version : ℕ
  pub available_at : ℕ

pub record MemorySnapshot : Type 0 where
  pub as_of : ℕ
  pub entries : List MemorySnapshotEntry
  pub content_hash : ℕ

unfoldable pub is_current : {fl : FloatOps} → ℕ → MemoryItem fl → Bool
is_current as_of m =
    is_approved m.status
    && leb m.available_at as_of
    && elim m.expires_at [ none ↦ true | some t ↦ ltb as_of t ]

-- `_eligible`
unfoldable pub is_eligible : {fl : FloatOps} → MemoryQuery → MemoryItem fl → Bool
is_eligible q m =
    is_current q.as_of m
    && (is_empty q.memory_types || contains m.memory_type q.memory_types)
    && passes q.entity_ids m.entity_ids
    && passes q.strategy_ids m.strategy_ids
    && passes q.regime_ids m.regime_ids

-- `entries.sort(key=lambda entry: (entry.memory_id, entry.version))`
abbrev pub entry_before : MemorySnapshotEntry → MemorySnapshotEntry → Bool
entry_before a b =
    if a.memory_id == b.memory_id then ltb a.version b.version else ltb a.memory_id b.memory_id

module _ {fl : FloatOps} where
  -- `(-score, memory_id, -version)` of one hit is less than that of another.
  unfoldable pub ranks_before : MemoryHit fl → MemoryHit fl → Bool
  ranks_before a b =
      if not (fl.eq (fl.neg a.score) (fl.neg b.score))
      then fl.lt (fl.neg a.score) (fl.neg b.score)
      else if not (a.item.memory_id == b.item.memory_id)
      then ltb a.item.memory_id b.item.memory_id
      else ltb b.item.version a.item.version

  unfoldable pub score_of : Scores fl → MemoryQuery → MemoryItem fl → fl.F
  score_of sc q m =
      let terms = terms_of q.text in
      let item_terms = terms_of m.wording in
      let common = length (select (λ t. has_text t item_terms) terms) in
      let lexical = sc.ratio common (if is_empty terms then 1 else length terms) in
      let entity_bonus = if overlaps q.entity_ids m.entity_ids then sc.quarter else fl.zero in
      fl.add (fl.add lexical entity_bonus) (fl.mul m.utility_score sc.tenth)

  unfoldable pub hit_of : Scores fl → MemoryQuery → MemoryItem fl → MemoryHit fl
  hit_of sc q m = record {
    item = m;
    score = score_of sc q m;
    contradictions = sort_keys m.contradicted_by;
  }

  unfoldable pub entry_of : MemoryItem fl → MemorySnapshotEntry
  entry_of m = record {
    memory_id = m.memory_id;
    version = m.version;
    available_at = m.available_at;
  }

module _ {nu : Numbers} {cc' : Codec (MemoryCandidate nu.fl)} {ic : Codec (MemoryItem nu.fl)}
    {ec : Codec (EvidenceCase nu)} where
  -- `(memory_id, version)` of one row is less than that of another.
  unfoldable pub row_before : ItemRow nu cc' ic ec → ItemRow nu cc' ic ec → Bool
  row_before a b =
      if a.memory_id == b.memory_id then ltb a.version b.version else ltb a.memory_id b.memory_id

  unfoldable pub place_row :
      ItemRow nu cc' ic ec → List (ItemRow nu cc' ic ec) → List (ItemRow nu cc' ic ec)
  place_row x [] = x ∷ []
  place_row x (y ∷ ys) =
      let rest = place_row x ys in if row_before x y then x ∷ y ∷ ys else y ∷ rest

  -- `ORDER BY memory_id, version`, which are the primary key
  unfoldable pub sort_rows : List (ItemRow nu cc' ic ec) → List (ItemRow nu cc' ic ec)
  sort_rows [] = []
  sort_rows (x ∷ xs) = place_row x (sort_rows xs)

  unfoldable pub read_items :
      List (ItemRow nu cc' ic ec) → Call SealedError (List (MemoryItem nu.fl))
  read_items [] = returned []
  read_items (x ∷ xs) = do m ← read_row ic x.row; rest ← read_items xs; returned (m ∷ rest)

  -- `_items`
  unfoldable pub items : Backend nu cc' ic ec → Call SealedError (List (MemoryItem nu.fl))
  items b = read_items (sort_rows b.items)

  unfoldable pub search :
      Scores nu.fl → MemoryQuery → Backend nu cc' ic ec → Call SealedError (List (MemoryHit nu.fl))
  search sc q b = do
    ms ← items b
    returned (take q.top_k (sort_by ranks_before (map (hit_of sc q) (select (is_eligible q) ms))))

  -- The digest of the time and the entries is a parameter.
  unfoldable pub snapshot :
      (ℕ → List MemorySnapshotEntry → ℕ)
      → ℕ
      → Backend nu cc' ic ec
      → Call SealedError MemorySnapshot
  snapshot digest as_of b = do
    ms ← items b
    let entries = sort_by entry_before (map entry_of (select (is_current as_of) ms))
    returned (record { as_of = as_of; entries = entries; content_hash = digest as_of entries })
