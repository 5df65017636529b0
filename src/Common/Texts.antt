-- ===== src/Common/Texts.antt =====
-- Texts that the program takes apart, as lists of code points: `str.startswith`,
-- `str.removeprefix`, `str.partition`, `in`, `str.splitlines` and `str.split`.
use Prim.Native.Nat.{ℕ}
use Prim.Native.Char.{code}
use Prim.Native.String.{String}
use mathlib.Core.Path.{◌≡◌, refl}
use mathlib.Core.Logic.{◌↔◌}
use mathlib.Core.Bool.{Bool, true, false, ◌&&◌, ◌||◌}
use mathlib.Core.Option.{Option, none, some}
use mathlib.Core.List.{List, [], ◌∷◌, ◌++◌}
use native.Mathlib.Omega.{arith}
use aegis_quant.Common.Tests.{◌==◌, ==_refl, leb, if◌then◌else◌}
use aegis_quant.Common.Lists.{any}

abbrev pub Text : Type 0
Text = List ℕ

-- A literal text.
abbrev pub codes : String → Text
codes String.[] = []
codes (String.◌∷◌ c s) = code c ∷ codes s

abbrev pub same_text : Text → Text → Bool
same_text [] [] = true
same_text (a ∷ xs) (b ∷ ys) = a == b && same_text xs ys
same_text _ _ = false

pub same_text_iff : (xs ys : Text) → (same_text xs ys ≡ true) ↔ (xs ≡ ys)
same_text_iff [] [] = ground arith
same_text_iff [] (b ∷ ys) = ground arith
same_text_iff (a ∷ xs) [] = ground arith
same_text_iff (a ∷ xs) (b ∷ ys) = ground (arith, same_text_iff xs ys)

-- `t in ts`, for a list or a set of texts
abbrev pub has_text : Text → List Text → Bool
has_text t ts = any (same_text t) ts

abbrev pub starts_with : Text → Text → Bool
starts_with s [] = true
starts_with [] (_ ∷ _) = false
starts_with (a ∷ s) (b ∷ t) = a == b && starts_with s t

-- `s.removeprefix(t)` of a text that starts with `t`, and `s[len(t):]`
abbrev pub drop_text : Text → Text → Text
drop_text [] s = s
drop_text (_ ∷ t) [] = []
drop_text (_ ∷ t) (_ ∷ s) = drop_text t s

abbrev pub remove_prefix : Text → Text → Text
remove_prefix t s = if starts_with s t then drop_text t s else s

pub starts_with-append : (t s : Text) → starts_with (t ++ s) t ≡ true
starts_with-append [] s = refl
starts_with-append (a ∷ t) s = ground (arith, starts_with-append t s)

pub drop_text-append : (t s : Text) → drop_text t (t ++ s) ≡ s
drop_text-append [] s = refl
drop_text-append (a ∷ t) s = drop_text-append t s

-- The part before the first `c`, and the part after it if there is one: `s.partition(c)`,
-- `s.split(c, 1)`.
abbrev pub before : ℕ → Text → Text
before c [] = []
before c (a ∷ s) = if a == c then [] else a ∷ before c s

abbrev pub after : ℕ → Text → Option Text
after c [] = none
after c (a ∷ s) = if a == c then some s else after c s

pub before-append : (c : ℕ) (s t : Text) → any (λ a. a == c) s ≡ false → before c (s ++ c ∷ t) ≡ s
before-append c [] t h = ground (arith, ==_refl c)
before-append c (a ∷ s) t h = ground (arith, before-append c s t)

pub after-append :
    (c : ℕ) (s t : Text) → any (λ a. a == c) s ≡ false → after c (s ++ c ∷ t) ≡ some t
after-append c [] t h = ground (arith, ==_refl c)
after-append c (a ∷ s) t h = ground (arith, after-append c s t)

-- `t in s`, for two texts
abbrev pub contains_text : Text → Text → Bool
contains_text t [] = starts_with [] t
contains_text t (a ∷ s) = starts_with (a ∷ s) t || contains_text t s

-- The characters at which `str.splitlines` ends a line.
abbrev pub ends_line : ℕ → Bool
ends_line c = (leb 10 c && leb c 13) || (leb 28 c && leb c 30) || c == 133 || c == 8232 || c == 8233

-- The whitespace characters of `str.split()`.
abbrev pub is_space : ℕ → Bool
is_space c =
    (leb 9 c && leb c 13)
    || (leb 28 c && leb c 32)
    || c == 133
    || c == 160
    || c == 5760
    || (leb 8192 c && leb c 8202)
    || c == 8232
    || c == 8233
    || c == 8239
    || c == 8287
    || c == 12288

-- `\r\n` ends one line.
abbrev pub join_newlines : Text → Text
join_newlines [] = []
join_newlines (a ∷ []) = a ∷ []
join_newlines (a ∷ b ∷ s) =
    let rest = join_newlines (b ∷ s) in if a == 13 && b == 10 then rest else a ∷ rest

-- The pieces of a text between characters that a test accepts.
abbrev pub pieces : (ℕ → Bool) → Text → Text → List Text
pieces ends piece [] = piece ∷ []
pieces ends piece (a ∷ s) =
    let rest = pieces ends (if ends a then [] else piece ++ (a ∷ [])) s in
    if ends a then piece ∷ rest else rest

abbrev pub drop_last_empty : List Text → List Text
drop_last_empty [] = []
drop_last_empty ([] ∷ []) = []
drop_last_empty (t ∷ ts) = t ∷ drop_last_empty ts

abbrev pub splitlines : Text → List Text
splitlines s = drop_last_empty (pieces ends_line [] (join_newlines s))

abbrev pub drop_empty : List Text → List Text
drop_empty [] = []
drop_empty ([] ∷ ts) = drop_empty ts
drop_empty ((a ∷ t) ∷ ts) = (a ∷ t) ∷ drop_empty ts

-- `s.split()`
abbrev pub split_spaces : Text → List Text
split_spaces s = drop_empty (pieces is_space [] s)

lines_example : splitlines (codes "a b\r\nc\n") ≡ codes "a b" ∷ codes "c" ∷ []
lines_example = refl

spaces_example : split_spaces (codes "a  b c ") ≡ codes "a" ∷ codes "b" ∷ codes "c" ∷ []
spaces_example = refl
