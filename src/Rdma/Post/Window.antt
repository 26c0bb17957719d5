-- ===== src/Rdma/Post/Window.antt =====
-- Runs of identifiers round a ring: how they split, and how they join.
use ibverb_prototype.Prelude.{
  ℕ, zero, suc, ◌+◌, ◌-◌, ◌%◌, ◌≤◌, ◌<◌, ◌≡◌, refl, sym, ap, ap₂, ◌∙◌, arith, List, [], ◌∷◌, ◌++◌,
  length,
}
use native.Mathlib.Nat.{mod-add-mod, mod-eq_of_lt, mod-lt, add-mod_right, add-zero}
use ibverb_prototype.Rdma.Post.Ring.{window}

pub length-window : (n h k : ℕ) → length (window n h k) ≡ k
length-window n h zero = refl
length-window n h (suc k) = ap suc (length-window n ((h + 1) % n) k)

-- A step round the ring, then k more.
pub mod-steps : (n h k : ℕ) → ((h + 1) % n + k) % n ≡ (h + suc k) % n
mod-steps n h k = mod-add-mod (h + 1) n k ∙ ap (λ m. m % n) (omega arith)

pub window-add :
    (n h j k : ℕ) → h < n → window n h j ++ window n ((h + j) % n) k ≡ window n h (j + k)
window-add n h zero k inside =
    ap (λ m. window n m k) (ap (λ m. m % n) (add-zero h) ∙ mod-eq_of_lt inside)
    ∙ ap (window n h) (let e : k ≡ 0 + k = omega arith in e)
window-add n h (suc j) k inside =
    ap (λ l. h ∷ l)
      (ap (λ m. window n ((h + 1) % n) j ++ window n m k) (sym (mod-steps n h j))
        ∙ window-add n ((h + 1) % n) j k (mod-lt (h + 1) (omega arith)))
    ∙ ap (window n h) (let e : suc (j + k) ≡ suc j + k = omega arith in e)

-- The two parts of a run that is cut anywhere.
pub window-cut :
    (n h m : ℕ) (xs ys : List ℕ)
    → h < n
    → window n h m ≡ xs ++ ys
    → (xs ≡ window n h (length xs))
      × (ys ≡ window n ((h + length xs) % n) (m - length xs))
      × (length xs ≤ m)
window-cut n h m [] ys inside e = (
  refl,
  sym e
      ∙ ap₂ (λ g k. window n g k) (sym (mod-eq_of_lt inside) ∙ ap (λ g. g % n) (sym (add-zero h)))
          (omega arith),
  omega arith,
)
window-cut n h zero (x ∷ xs) ys inside e =
    absurd (let no_room : ⊥ = omega (arith, ap length e) in no_room)
window-cut n h (suc m) (x ∷ xs) ys inside e =
    let rest = window-cut n ((h + 1) % n) m xs ys (mod-lt (h + 1) (omega arith)) (cc) in
    let same : x ≡ h = cc in
    (
      ap₂ ◌∷◌ same rest.0,
      rest.1 ∙ ap₂ (λ g k. window n g k) (mod-steps n h (length xs)) (omega arith),
      omega (arith, rest.2),
    )

-- Handing the first k of a full ring back behind the others gives the full ring k steps on.
pub window_rotate :
    (n h k : ℕ)
    → h < n
    → k ≤ n
    → window n ((h + k) % n) (n - k) ++ window n h k ≡ window n ((h + k) % n) n
window_rotate n h k inside fits =
    ap (λ g. window n ((h + k) % n) (n - k) ++ window n g k) (sym home)
    ∙ window-add n ((h + k) % n) (n - k) k (mod-lt (h + k) (omega arith))
    ∙ ap (window n ((h + k) % n)) (let e : n - k + k ≡ n = omega arith in e)
  where
    home : ((h + k) % n + (n - k)) % n ≡ h
    home =
        mod-add-mod (h + k) n (n - k)
        ∙ ap (λ m. m % n) (let e : h + k + (n - k) ≡ h + n = omega arith in e)
        ∙ add-mod_right h n
        ∙ mod-eq_of_lt inside
