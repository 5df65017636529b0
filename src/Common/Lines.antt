-- ===== src/Common/Lines.antt =====
-- Files of one record on each line: `"".join(text + "\n" for text in texts)`, and
-- `file.splitlines()` with the empty lines left out.
use Prim.Native.Nat.{ℕ}
use mathlib.Core.Path.{◌≡◌, refl, ap, subst, sym, ◌∙◌}
use mathlib.Core.Bool.{Bool, false}
use mathlib.Core.Logic.{inl, inr}
use mathlib.Core.List.{List, [], ◌∷◌, ◌++◌}
use aegis_quant.Common.Tests.{◌==◌, Bool-cases, ==_iff, ||-false}
use aegis_quant.Common.Lists.{any, is_empty, All, append-nil, append_assoc}
use aegis_quant.Common.Texts.{
  Text, ends_line, join_newlines, pieces, drop_last_empty, drop_empty, splitlines,
}

abbrev pub unlines : List Text → Text
unlines [] = []
unlines (t ∷ ts) = t ++ 10 ∷ unlines ts

abbrev pub lines_of : Text → List Text
lines_of s = drop_empty (splitlines s)

-- A text that stays one line.
abbrev pub IsLine : Text → Type 0
IsLine t = (is_empty t ≡ false) × (any ends_line t ≡ false)

any-append-line :
    (p : ℕ → Bool) (t s : Text) → any p t ≡ false → any p s ≡ false → any p (t ++ s) ≡ false
any-append-line p [] s h g = g
any-append-line p (a ∷ t) s h g =
    let (here, rest) = ||-false (p a) (any p t) h in rw here (any-append-line p t s rest g)

no_return : (t : Text) → any ends_line t ≡ false → any (λ a. a == 13) t ≡ false
no_return [] h = refl
no_return (a ∷ t) h =
    let (here, rest) = ||-false (ends_line a) (any ends_line t) h in
    let other : (a == 13) ≡ false = elim (Bool-cases (a == 13)) [
      | inl hit ↦ absurd (cc (subst (λ c. ends_line c ≡ false) ((==_iff a 13).0 hit) here))
      | inr miss ↦ miss
    ] in
    rw other (no_return t rest)

unlines-no_return : (ts : List Text) → All IsLine ts → any (λ a. a == 13) (unlines ts) ≡ false
unlines-no_return [] h = refl
unlines-no_return (t ∷ ts) ((_, plain), h) =
    any-append-line (λ a. a == 13) t (10 ∷ unlines ts) (no_return t plain) (unlines-no_return ts h)

join_newlines-id : (s : Text) → any (λ a. a == 13) s ≡ false → join_newlines s ≡ s
join_newlines-id [] h = refl
join_newlines-id (a ∷ []) h = refl
join_newlines-id (a ∷ b ∷ s) h =
    let (here, rest) = ||-false (a == 13) (any (λ c. c == 13) (b ∷ s)) h in
    rw here (ap (λ r. a ∷ r) (join_newlines-id (b ∷ s) rest))

pieces-line :
    (p t s : Text)
    → any ends_line t ≡ false
    → pieces ends_line p (t ++ 10 ∷ s) ≡ (p ++ t) ∷ pieces ends_line [] s
pieces-line p [] s h = ap (λ q. q ∷ pieces ends_line [] s) (sym (append-nil p))
pieces-line p (a ∷ t) s h =
    let (here, rest) = ||-false (ends_line a) (any ends_line t) h in
    rw here (
      pieces-line (p ++ (a ∷ [])) t s rest
      ∙ ap (λ q. q ∷ pieces ends_line [] s) (append_assoc p (a ∷ []) t))

pieces-unlines :
    (ts : List Text) → All IsLine ts → pieces ends_line [] (unlines ts) ≡ ts ++ ([] ∷ [])
pieces-unlines [] h = refl
pieces-unlines (t ∷ ts) ((_, plain), h) =
    pieces-line [] t (unlines ts) plain ∙ ap (λ r. t ∷ r) (pieces-unlines ts h)

drop-lines : (ts : List Text) → All IsLine ts → drop_empty (drop_last_empty (ts ++ ([] ∷ []))) ≡ ts
drop-lines [] h = refl
drop-lines ([] ∷ ts) ((full, _), h) = absurd (cc (full))
drop-lines ((a ∷ t) ∷ ts) (_, h) = ap (λ r. (a ∷ t) ∷ r) (drop-lines ts h)

-- Lines that are written are read back.
pub lines-unlines : (ts : List Text) → All IsLine ts → lines_of (unlines ts) ≡ ts
lines-unlines ts h =
    ap (λ s. drop_empty (drop_last_empty (pieces ends_line [] s)))
      (join_newlines-id (unlines ts) (unlines-no_return ts h))
    ∙ ap (λ r. drop_empty (drop_last_empty r)) (pieces-unlines ts h)
    ∙ drop-lines ts h
