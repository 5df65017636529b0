-- ===== src/Lab/Boundaries.antt =====
-- `validate_candidate_target` and `validate_patch_scope` (aegis/research_lab/boundaries.py). What
-- they ask of `pathlib` is a parameter.
use aegis_quant.Common.{
  Bool, not, ◌&&◌, ◌||◌, Option, none, some, List, [], ◌∷◌, ◌++◌, any, is_empty, Text, codes,
  same_text, starts_with, drop_text, remove_prefix, before, contains_text, splitlines, split_spaces,
  if◌then◌else◌, check_all, Call, returned, raised, ◌>>=◌,
}

-- The messages of `CandidateBoundaryError`.
pub data BoundaryError : Type 0 where
  escapes_project locked_component outside_surfaces crosses_symlink : BoundaryError
  not_text_diff malformed_header undeclared_path not_confined : BoundaryError

-- `pathlib` and the file system, on the text of a target: whether it is absolute or has a part
-- `..`, whether it resolves into the project, its resolved path relative to the project with `/`,
-- and whether a parent of that is a symbolic link; `as_posix` is `Path(p).as_posix()`.
pub record Paths : Type 0 where
  pub is_absolute_or_up : Text → Bool
  pub is_within_project : Text → Bool
  pub relative : Text → Text
  pub has_symlink_parent : Text → Bool
  pub as_posix : Text → Text

-- `_ALLOWED_PREFIXES`
abbrev pub allowed_prefixes : List Text
allowed_prefixes =
    codes "skills/candidates/"
    ∷ codes "aegis/agents/candidates/"
    ∷ codes "configs/models/candidates/"
    ∷ codes "configs/sources/candidates/"
    ∷ codes "aegis/quant/features/candidates/"
    ∷ codes "configs/strategies/candidates/"
    ∷ codes "data/memory/candidates/"
    ∷ []

-- `_LOCKED_PREFIXES`
abbrev pub locked_prefixes : List Text
locked_prefixes =
    codes "aegis/data/"
    ∷ codes "aegis/fund/run_cycle.py"
    ∷ codes "aegis/brokers/"
    ∷ codes "aegis/risk/"
    ∷ codes "aegis/fund/ledger.py"
    ∷ codes "aegis/research_lab/"
    ∷ []

-- The tests of `validate_candidate_target`, in order.
abbrev pub target_guards : Paths → Text → List (Bool × BoundaryError)
target_guards fs target =
    let relative = fs.relative target in
    (fs.is_absolute_or_up target, escapes_project)
    ∷ (not (fs.is_within_project target), escapes_project)
    ∷ (
      any (λ locked. same_text relative locked || starts_with relative locked) locked_prefixes,
      locked_component,
    )
    ∷ (not (any (starts_with relative) allowed_prefixes), outside_surfaces)
    ∷ (fs.has_symlink_parent target, crosses_symlink)
    ∷ []

unfoldable pub validate_candidate_target : Paths → Text → Call BoundaryError (Unit {0})
validate_candidate_target fs target = check_all (target_guards fs target)

-- The two paths of a line `diff --git a/... b/...`.
unfoldable pub header_of : List Text → Option (Text × Text)
header_of (_ ∷ _ ∷ old ∷ new ∷ []) =
    if starts_with old (codes "a/") && starts_with new (codes "b/")
    then some (drop_text (codes "a/") old, drop_text (codes "b/") new)
    else none
header_of _ = none

-- The path of a line `--- ` or `+++ `.
unfoldable pub path_of : Text → Text
path_of line = before 9 (drop_text (codes "--- ") line)

unfoldable pub is_undeclared : Text → Text → Bool
is_undeclared expected path =
    not (same_text path (codes "/dev/null"))
    && not (same_text (remove_prefix (codes "b/") (remove_prefix (codes "a/") path)) expected)

-- One line of the patch: the header that it adds, if it is one.
unfoldable pub read_line : Text → Text → Call BoundaryError (List (Text × Text))
read_line expected line =
    if starts_with line (codes "diff --git ")
    then elim (header_of (split_spaces line)) [
      | none ↦ raised malformed_header
      | some header ↦ returned (header ∷ [])
    ]
    else if starts_with line (codes "--- ") || starts_with line (codes "+++ ")
    then (if is_undeclared expected (path_of line) then raised undeclared_path else returned [])
    else returned []

unfoldable pub read_lines : Text → List Text → Call BoundaryError (List (Text × Text))
read_lines expected [] = returned []
read_lines expected (line ∷ lines) = do
  header ← read_line expected line
  headers ← read_lines expected lines
  returned (header ++ headers)

-- A header that names another path.
unfoldable pub is_foreign : Text → Text × Text → Bool
is_foreign expected header = not (same_text header.0 expected) || not (same_text header.1 expected)

-- The last test of `validate_patch_scope`, on the headers.
abbrev pub check_headers : Text → List (Text × Text) → Call BoundaryError (Unit {0})
check_headers expected headers =
    if is_empty headers || any (is_foreign expected) headers
    then raised not_confined
    else returned tt

unfoldable pub validate_patch_scope : Paths → Text → Text → Call BoundaryError (Unit {0})
validate_patch_scope fs patch_text target_path =
    if contains_text (0 ∷ []) patch_text || contains_text (codes "GIT binary patch") patch_text
    then raised not_text_diff
    else read_lines (fs.as_posix target_path) (splitlines patch_text)
      >>= check_headers (fs.as_posix target_path)
