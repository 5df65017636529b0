-- ===== src/Lab/Scope.antt =====
-- What a patch that passes aegis/research_lab/boundaries.py may touch.
use aegis_quant.Common.{
  Bool, true, false, ◌||◌, ||-false, not-false, some, List, [], ◌∷◌, ◌++◌, any, is_empty, All, Text,
  codes, same_text, same_text_iff, starts_with, remove_prefix, contains_text, splitlines,
  split_spaces, check_all_iff, ◌≡◌, refl, subst, sym, ◌⊎◌, inl, inr, Bool-cases, Option-cases,
  returned, >>=-returned, arith,
}
use aegis_quant.Lab.Boundaries.{
  Paths, allowed_prefixes, locked_prefixes, validate_candidate_target, header_of, path_of,
  is_undeclared, read_line, read_lines, is_foreign, check_headers, target_guards,
  validate_patch_scope,
}

-- A line that a patch of `expected` may have: a git header of that path on both sides, a file line
-- of that path or of no file, or any other line.
abbrev pub IsConfined : Text → Text → Type 0
IsConfined expected line =
    ((starts_with line (codes "diff --git ") ≡ true)
      × (header_of (split_spaces line) ≡ some (expected, expected)))
    ⊎ ((starts_with line (codes "diff --git ") ≡ false)
        × (((starts_with line (codes "--- ") || starts_with line (codes "+++ ")) ≡ false)
            ⊎ ((path_of line ≡ codes "/dev/null")
                ⊎ (remove_prefix (codes "b/") (remove_prefix (codes "a/") (path_of line))
                    ≡ expected))))

foreign_false :
    (expected : Text) (h : Text × Text) → is_foreign expected h ≡ false → h ≡ (expected, expected)
unfolding is_foreign
foreign_false expected (a, b) e =
    let left : same_text a expected ≡ true = ground (arith, e) in
    let right : same_text b expected ≡ true = ground (arith, e) in
    cc ((same_text_iff a expected).0 left, (same_text_iff b expected).0 right)

undeclared_false :
    (expected path : Text)
    → is_undeclared expected path ≡ false
    → (path ≡ codes "/dev/null")
      ⊎ (remove_prefix (codes "b/") (remove_prefix (codes "a/") path) ≡ expected)
unfolding is_undeclared
undeclared_false expected path e = elim (Bool-cases (same_text path (codes "/dev/null"))) [
  | inl hit ↦ inl ((same_text_iff path (codes "/dev/null")).0 hit)
  | inr miss ↦
      elim (Bool-cases
        (same_text (remove_prefix (codes "b/") (remove_prefix (codes "a/") path)) expected)) [
          | inl hit ↦ inr (
              (same_text_iff (remove_prefix (codes "b/") (remove_prefix (codes "a/") path))
                  expected).0
                hit)
          | inr bad ↦ absurd (cc (rw (miss, bad) at e))
        ]
]

read_line-IsConfined :
    (expected line : Text) (headers : List (Text × Text))
    → read_line expected line ≡ returned headers
    → any (is_foreign expected) headers ≡ false
    → IsConfined expected line
unfolding read_line
read_line-IsConfined expected line headers e own =
    elim (Bool-cases (starts_with line (codes "diff --git "))) [
      | inl git ↦ elim (Option-cases (header_of (split_spaces line))) [
        | inl bad ↦ absurd (cc (rw (git, bad) at e))
        | inr (h, good) ↦
            let one : (h ∷ []) ≡ headers = cc (rw (git, good) at e) in
            let kept : any (is_foreign expected) (h ∷ []) ≡ false =
              subst (λ hs. any (is_foreign expected) hs ≡ false) (sym one) own in
            let mine = foreign_false expected h (ground (arith, kept)) in
            inl (git, subst (λ g. header_of (split_spaces line) ≡ some g) mine good)
      ]
      | inr plain ↦
          elim (Bool-cases (starts_with line (codes "--- ") || starts_with line (codes "+++ "))) [
            | inl file ↦ elim (Bool-cases (is_undeclared expected (path_of line))) [
              | inl bad ↦ absurd (cc (rw (plain, file, bad) at e))
              | inr good ↦ inr (plain, inr (undeclared_false expected (path_of line) good))
            ]
            | inr other ↦ inr (plain, inl other)
          ]
    ]

any-append :
    {A : Type 0} (p : A → Bool) (xs ys : List A)
    → any p (xs ++ ys) ≡ false
    → (any p xs ≡ false) × (any p ys ≡ false)
any-append p [] ys h = (refl, h)
any-append p (x ∷ xs) ys h =
    let rest = any-append p xs ys in
    elim (Bool-cases (p x)) [
      | inl hit ↦ absurd (cc (rw hit at h))
      | inr miss ↦ rw miss (rest (rw miss at h))
    ]

read_lines-IsConfined :
    (expected : Text) (lines : List Text) (headers : List (Text × Text))
    → read_lines expected lines ≡ returned headers
    → any (is_foreign expected) headers ≡ false
    → All (IsConfined expected) lines
unfolding read_lines
read_lines-IsConfined expected [] headers e own = tt
read_lines-IsConfined expected (line ∷ lines) headers e own =
    let (hs, head, e') = >>=-returned (read_line expected line) _ e in
    let (gs, tail, e'') = >>=-returned (read_lines expected lines) _ e' in
    let both : (hs ++ gs) ≡ headers = cc in
    let (mine, rest) =
      any-append (is_foreign expected) hs gs
        (subst (λ l. any (is_foreign expected) l ≡ false) (sym both) own) in
    (
      read_line-IsConfined expected line hs head mine,
      read_lines-IsConfined expected lines gs tail rest,
    )

-- A patch that validate_patch_scope accepts is text, and every line of it is confined to the
-- declared target: a git header names the target on both sides, and a file line names the target
-- or no file.
pub validate_patch_scope-IsConfined :
    (fs : Paths) (patch_text target_path : Text)
    → validate_patch_scope fs patch_text target_path ≡ returned tt
    → (contains_text (0 ∷ []) patch_text ≡ false)
      × (contains_text (codes "GIT binary patch") patch_text ≡ false)
      × All (IsConfined (fs.as_posix target_path)) (splitlines patch_text)
unfolding validate_patch_scope
validate_patch_scope-IsConfined fs patch_text target_path e =
    elim (Bool-cases
      (contains_text (0 ∷ []) patch_text || contains_text (codes "GIT binary patch") patch_text)) [
        | inl binary ↦ absurd (cc (rw binary at e))
        | inr is_text ↦
            let (zeros, marks) = ||-false _ _ is_text in
            let (headers, read, tests) =
              >>=-returned (read_lines (fs.as_posix target_path) (splitlines patch_text)) _
                (rw is_text at e) in
            (zeros, marks, confined headers read tests)
      ]
  where
    confined :
        (headers : List (Text × Text))
        → read_lines (fs.as_posix target_path) (splitlines patch_text) ≡ returned headers
        → check_headers (fs.as_posix target_path) headers ≡ returned tt
        → All (IsConfined (fs.as_posix target_path)) (splitlines patch_text)
    confined headers read tests =
        elim (Bool-cases (is_empty headers || any (is_foreign (fs.as_posix target_path)) headers)) [
          | inl bad ↦ absurd (cc (rw bad at tests))
          | inr good ↦
              read_lines-IsConfined (fs.as_posix target_path) (splitlines patch_text) headers read
                (||-false _ _ good).1
        ]

-- A target that validate_candidate_target accepts stays in the project, lies below no locked
-- component, lies on a candidate-only surface, and crosses no symbolic link.
pub validate_candidate_target-IsAllowed :
    (fs : Paths) (target : Text)
    → validate_candidate_target fs target ≡ returned tt
    → (fs.is_absolute_or_up target ≡ false)
      × (fs.is_within_project target ≡ true)
      × All (λ locked. starts_with (fs.relative target) locked ≡ false) locked_prefixes
      × (any (starts_with (fs.relative target)) allowed_prefixes ≡ true)
      × (fs.has_symlink_parent target ≡ false)
unfolding validate_candidate_target
validate_candidate_target-IsAllowed fs target e =
    let (a, (b, (c, (d, (f, _))))) = (check_all_iff (target_guards fs target)).0 e in
    (a, not-false _ b, unlocked locked_prefixes c, not-false _ d, f)
  where
    unlocked :
        (ps : List Text)
        → any (λ p. same_text (fs.relative target) p || starts_with (fs.relative target) p) ps
          ≡ false
        → All (λ p. starts_with (fs.relative target) p ≡ false) ps
    unlocked [] h = tt
    unlocked (p ∷ ps) h =
        let (here, rest) = ||-false _ _ h in ((||-false _ _ here).1, unlocked ps rest)
