-- ===== src/OpenCl/Found.antt =====
-- The platform that `createContext` takes, described by its place among the installed ones.
use ibverb_prototype.Prelude.{
  ℕ, ◌≡◌, ◌≢◌, refl, ap₂, arith, ◌==◌, ==_iff, true, false, Bool-cases, inl, inr, Option, none,
  some, List, [], ◌∷◌, ◌++◌, All,
}
use ibverb_prototype.Text.{same_name}
use ibverb_prototype.OpenCl.{
  DeviceType, Device, Platform, Runtime, Host, Outcome, exited, print_error,
}
use ibverb_prototype.OpenCl.Messages.{codes}
use ibverb_prototype.OpenCl.Context.{open_devices}

abbrev Text : Type 0
Text = List ℕ

pub same_name_refl : (t : Text) → same_name t t ≡ true
unfolding same_name
same_name_refl [] = refl
same_name_refl (x ∷ t) = grind (arith, same_name_refl t)

pub same_name_sound : (t u : Text) → same_name t u ≡ true → t ≡ u
unfolding same_name
same_name_sound [] [] h = refl
same_name_sound [] (y ∷ u) h = cc
same_name_sound (x ∷ t) [] h = cc
same_name_sound (x ∷ t) (y ∷ u) h = elim (Bool-cases (x == y)) [
  | inl equal ↦
      ap₂ (λ a b. a ∷ b) ((==_iff x y).0 equal)
        (same_name_sound t u (let rest : same_name t u ≡ true = ground arith in rest))
  | inr differ ↦ let clash : false ≡ true = ground arith in cc
]

-- The first platform of a name; `none` says that no platform has it.
unfoldable pub IsFirst : Text → List Platform → Option Platform → Type 0
IsFirst wanted ps none = All (λ (p : Platform). p.name ≢ wanted) ps
IsFirst wanted ps (some p) =
    (before : List Platform) × (others : List Platform) × (ps ≡ before ++ (p ∷ others))
    × All (λ (q : Platform). q.name ≢ wanted) before
    × (p.name ≡ wanted)

-- What is done with it.
unfoldable pub opened : Runtime → Text → DeviceType → Option Platform → Host → Outcome (List Device)
opened rt wanted type none s =
    exited (print_error (codes "Platform not found: \"" ++ (wanted ++ codes "\"\n")) s)
opened rt wanted type (some p) s = open_devices rt (p.devices type) s
