-- ===== src/Common/Guards.antt =====
-- A run of `if test: raise error` statements: the first test that holds raises.
use mathlib.Core.Path.{◌≡◌, refl}
use mathlib.Core.Logic.{◌↔◌, inl, inr}
use mathlib.Core.Bool.{Bool, false}
use mathlib.Core.List.{List, [], ◌∷◌}
use aegis_quant.Common.Tests.{if◌then◌else◌, Bool-cases}
use aegis_quant.Common.Results.{Call, returned, raised}

module _ {E : Type 0} where
  abbrev pub check_all : List (Bool × E) → Call E (Unit {0})
  check_all [] = returned tt
  check_all ((test, why) ∷ guards) =
      let rest = check_all guards in if test then raised why else rest

  abbrev pub NoneHolds : List (Bool × E) → Type 0
  NoneHolds [] = Unit
  NoneHolds ((test, why) ∷ guards) = (test ≡ false) × NoneHolds guards

  -- Nothing is raised exactly if no test holds.
  pub check_all_iff :
      (guards : List (Bool × E)) → (check_all guards ≡ returned tt) ↔ NoneHolds guards
  check_all_iff [] = (λ _. tt, λ _. refl)
  check_all_iff ((test, why) ∷ guards) =
      let (into, out) = check_all_iff guards in
      elim (Bool-cases test) [
        | inl holds ↦ rw holds (λ e. absurd (cc (e)), λ h. absurd (cc (h.0)))
        | inr fails ↦ rw fails (λ e. (refl, into e), λ h. out h.1)
      ]
