-- ===== src/Prelude/Window.antt =====
-- The entries of a ring of `cap` cells, read from a start cell on and going round at the end.
use Prim.Native.Nat.{ℕ, zero, suc, ◌+◌, ◌-◌, ◌%◌, ◌≤◌, ◌<◌}
use mathlib.Core.Path.{◌≡◌, refl, ap, ap₂, ◌∙◌}
use mathlib.Core.Logic.{◌≢◌}
use mathlib.Core.List.{List, [], ◌∷◌, ◌++◌}
use native.Mathlib.Nat.{mod-add-mod, mod-eq_of_lt, mod-eq-sub-mod}
use native.Mathlib.Decide.{dec_lt}
use native.Mathlib.Omega.{arith}
use ember_firmware.Prelude.Lists.{length}

module _ {ℓ} {A : Type ℓ} where
  -- The `n` entries from cell `h` on, of a ring whose cell `i` holds `cell i`.
  abbrev pub window : (ℕ → A) → ℕ → ℕ → ℕ → List A
  window cell cap h zero = []
  window cell cap h (suc n) = cell h ∷ window cell cap ((h + 1) % cap) n

  pub length-window : (cell : ℕ → A) (cap h n : ℕ) → length (window cell cap h n) ≡ n
  length-window cell cap h zero = refl
  length-window cell cap h (suc n) = ap suc (length-window cell cap ((h + 1) % cap) n)

  -- A window that is not empty begins with the cell at its start.
  pub window_of_ne_zero :
      (cell : ℕ → A) (cap h n : ℕ)
      → n ≢ 0
      → window cell cap h n ≡ cell h ∷ window cell cap ((h + 1) % cap) (n - 1)
  window_of_ne_zero cell cap h zero p = absurd (p refl)
  window_of_ne_zero cell cap h (suc n) p = ap (λ k. window cell cap h (suc k)) (omega arith)

pub shift_start : (cap h n : ℕ) → ((h + 1) % cap + n) % cap ≡ (h + suc n) % cap
shift_start cap h n = rw mod-add-mod (ap (λ k. k % cap) (omega arith))

-- An index that has gone round once.
wrapped_once : (cap i : ℕ) → cap ≤ i → i < cap + cap → i % cap ≡ i - cap
wrapped_once cap i low high = mod-eq-sub-mod low ∙ mod-eq_of_lt (omega arith)

-- Fewer than `cap` steps round the ring do not come back to the start.
pub no_lap : (cap h k : ℕ) → h < cap → suc k < cap → (h + suc k) % cap ≢ h
no_lap cap h k start steps back = elim (dec_lt (h + suc k) cap) [
  | yes inside ↦ omega (arith, back, mod-eq_of_lt inside)
  | no outside ↦ omega (arith, back, wrapped_once cap (h + suc k) (omega arith) (omega arith))
]

module _ {ℓ} {A : Type ℓ} (old new : ℕ → A) (cap : ℕ) where
  -- Writing the one cell past a window extends the window by what was written.
  pub window-write :
      (h n i : ℕ) (x : A)
      → h < cap
      → n < cap
      → i ≡ (h + n) % cap
      → ((j : ℕ) → i ≢ j → new j ≡ old j)
      → new i ≡ x
      → window new cap h (suc n) ≡ window old cap h n ++ (x ∷ [])
  window-write h zero i x hh hn e others written = ap (λ y. y ∷ []) (ap new (start ∙ e') ∙ written)
    where
      start : h ≡ (h + 0) % cap
      start = omega (arith, mod-eq_of_lt {n = h + 0} {m = cap} (omega arith))

      e' : (h + 0) % cap ≡ i
      e' = omega (arith, e)
  window-write h (suc n) i x hh hn e others written =
      ap₂ ◌∷◌ (others h (λ q. no_lap cap h n hh hn (omega arith))) (
        window-write ((h + 1) % cap) n i x (omega arith) (omega arith)
          (e ∙ omega (arith, shift_start cap h n)) others written)

  -- A window that the write misses is unchanged.
  pub window_congr : (h n : ℕ) → ((j : ℕ) → new j ≡ old j) → window new cap h n ≡ window old cap h n
  window_congr h zero same = refl
  window_congr h (suc n) same = ap₂ ◌∷◌ (same h) (window_congr ((h + 1) % cap) n same)
