-- ===== src/Printer/Chart/Run/Stages.antt =====
-- The stages of a layer, each of which leads nearer to the end of the print.
use ember_firmware.Prelude.{
  Bool, List, [], ap, arith, false, inl, inr, subst, suc, sym, true, zero, ℕ, ◌*◌, ◌++◌, ◌+◌, ◌-◌,
  ◌<◌, ◌∙◌, ◌∷◌, ◌≡◌, ◌≤◌, ◌⊎◌,
}
use ember_firmware.Printer.Codes.{
  PrintEngineState, approaching, exposing, getting_feedback, homing, pre_exposure_delay,
  press_delay, pressing, separating, unpressing,
}
use ember_firmware.Printer.Devices.{Devices}
use ember_firmware.Printer.Chart.{Machine, Statechart}
use ember_firmware.Printer.Chart.Run.{Common, Fine}
use ember_firmware.Printer.Chart.Run.Steps.{advance, advance_in, run}
use ember_firmware.Printer.Chart.Run.Progress.{
  Lit, step_exposing, step_pre_exposure_delay, step_press_delay, step_pressing, step_separating,
  step_unpressing,
}
use ember_firmware.Printer.Chart.Run.Layer.{Begun, Finished, step_approaching}

-- The layers 1 to n, the last one first.
abbrev pub newest_first : ℕ → List ℕ
newest_first zero = []
newest_first (suc n) = suc n ∷ newest_first n

-- The layers from k + 1 on, c of them, before those that came earlier.
unfoldable pub layers_from : ℕ → ℕ → List ℕ → List ℕ
layers_from zero k ls = ls
layers_from (suc c) k ls = layers_from c (suc k) (suc k ∷ ls)

pub layers_from-newest_first :
    (c k : ℕ) (ls : List ℕ) → layers_from c k (newest_first k ++ ls) ≡ newest_first (k + c) ++ ls
unfolding layers_from
layers_from-newest_first zero k ls = ap (λ x. newest_first x ++ ls) (omega arith)
layers_from-newest_first (suc c) k ls =
    layers_from-newest_first c (suc k) ls ∙ ap (λ x. newest_first x ++ ls) (omega arith)

module _ (devices : Devices) (fine : Fine devices) (chart : Statechart devices) where
  open devices use {doubles, World}

  -- Where a print is in its layer k, after the layers ls.
  pub data Stage (n k : ℕ) (ls : List ℕ) (a : Machine devices) : Type 0 where
    at_pressing :
        (moved : Bool) → a.state ≡ pressing → Common devices n k ls moved a.printer → Stage n k ls a
    at_press_delay :
        (moved : Bool)
        → a.state ≡ press_delay
        → Common devices n k ls moved a.printer
        → Stage n k ls a
    at_unpressing :
        (moved : Bool)
        → a.state ≡ unpressing
        → Common devices n k ls moved a.printer
        → Stage n k ls a
    at_pre_exposure_delay :
        (moved : Bool)
        → a.state ≡ pre_exposure_delay
        → Common devices n k ls moved a.printer
        → Stage n k ls a
    at_exposing :
        (moved : Bool)
        → a.state ≡ exposing
        → Lit devices fine chart n k ls moved a.printer
        → Stage n k ls a
    at_separating :
        (moved : Bool)
        → a.state ≡ separating
        → Common devices n k (k ∷ ls) moved a.printer
        → Stage n k ls a
    at_approaching :
        (moved : Bool)
        → a.state ≡ approaching
        → Common devices n k (k ∷ ls) moved a.printer
        → Stage n k ls a

  pub rank : (n k : ℕ) (ls : List ℕ) (a : Machine devices) → Stage n k ls a → ℕ
  rank n k ls a (at_pressing _ _ _) = 7
  rank n k ls a (at_press_delay _ _ _) = 6
  rank n k ls a (at_unpressing _ _ _) = 5
  rank n k ls a (at_pre_exposure_delay _ _ _) = 4
  rank n k ls a (at_exposing _ _ _) = 3
  rank n k ls a (at_separating _ _ _) = 2
  rank n k ls a (at_approaching _ _ _) = 1

  -- A stage of at most a rank.
  abbrev pub Within : ℕ → ℕ → List ℕ → ℕ → Machine devices → Type 0
  Within n k ls r b = (s : Stage n k ls b) × (rank n k ls b s ≤ r)

  pub begun-Within :
      (n k : ℕ) (ls : List ℕ) (moved : Bool) (b : Machine devices)
      → Begun devices fine chart n k ls moved b
      → Within n k ls 7 b
  unfolding rank
  begun-Within n k ls moved b (inl (p, c)) = (at_pressing false p c, omega arith)
  begun-Within n k ls moved b (inr (inl (p, c))) = (at_pre_exposure_delay moved p c, omega arith)
  begun-Within n k ls moved b (inr (inr (p, c))) = (at_exposing moved p c, omega arith)

  abbrev Next : ℕ → ℕ → List ℕ → ℕ → Machine devices → Type 0
  Next n k ls r b =
      ((s : Stage n k ls b) × (suc (rank n k ls b s) ≤ r))
      ⊎ ((k < n) × Within n (suc k) (k ∷ ls) 7 b)
      ⊎ ((n ≤ k) × Finished devices fine chart (k ∷ ls) b)

  module _ (n k : ℕ) (ls : List ℕ) (fuel : ℕ) (a : Machine devices) where
    abbrev advanced : Machine devices
    advanced = advance devices chart (suc fuel) a

    from_state :
        (s : PrintEngineState) (r : ℕ)
        → a.state ≡ s
        → Next n k ls r (advance_in devices chart s (suc fuel) a)
        → Next n k ls r advanced
    from_state s r p next =
        subst (λ x. Next n k ls r (advance_in devices chart x (suc fuel) a)) (sym p) next

    step : (s : Stage n k ls a) → Next n k ls (rank n k ls a s) advanced
    unfolding rank
    step (at_pressing moved p c) =
        from_state pressing 7 p
          elim (step_pressing devices fine chart n k ls moved (suc fuel) a c p) [
            | inl (q, d) ↦ inl (at_press_delay true q d, omega arith)
            | inr (q, d) ↦ inl (at_unpressing false q d, omega arith)
          ]
    step (at_press_delay moved p c) =
        let (q, d) = step_press_delay devices fine chart n k ls moved (suc fuel) a c p in
        from_state press_delay 6 p (inl (at_unpressing false q d, omega arith))
    step (at_unpressing moved p c) =
        from_state unpressing 5 p
          elim (step_unpressing devices fine chart n k ls moved (suc fuel) a c p) [
            | inl (q, d) ↦ inl (at_pre_exposure_delay true q d, omega arith)
            | inr (q, d) ↦ inl (at_exposing true q d, omega arith)
          ]
    step (at_pre_exposure_delay moved p c) =
        let (q, d) = step_pre_exposure_delay devices fine chart n k ls moved (suc fuel) a c p in
        from_state pre_exposure_delay 4 p (inl (at_exposing moved q d, omega arith))
    step (at_exposing moved p (c, idle)) =
        let (q, d) = step_exposing devices fine chart n k (k ∷ ls) moved (suc fuel) a c p idle in
        from_state exposing 3 p (inl (at_separating false q d, omega arith))
    step (at_separating moved p c) =
        let (q, d) = step_separating devices fine chart n k (k ∷ ls) moved (suc fuel) a c p in
        from_state separating 2 p (inl (at_approaching false q d, omega arith))
    step (at_approaching moved p c) =
        from_state approaching 1 p
          elim (step_approaching devices fine chart n k (k ∷ ls) moved fuel a c p) [
            | inl (less, begun) ↦ inr (inl (less, begun-Within n (suc k) (k ∷ ls) true _ begun))
            | inr (last, finished) ↦ inr (inr (last, finished))
          ]

  Finished-run :
      (rounds fuel : ℕ) (ls : List ℕ) (a : Machine devices)
      → Finished devices fine chart ls a
      → Finished devices fine chart ls (run devices chart rounds (suc fuel) a)
  unfolding run advance_in
  Finished-run zero fuel ls a h = h
  Finished-run (suc rounds) fuel ls a h =
      Finished-run rounds fuel ls (advance devices chart (suc fuel) a)
        (subst (Finished devices fine chart ls) (sym (idle h.home_bound)) h)
    where
      idle :
          (a.state ≡ getting_feedback) ⊎ (a.state ≡ homing) → advance devices chart (suc fuel) a ≡ a
      idle (inl p) = ap (λ x. advance_in devices chart x (suc fuel) a) p
      idle (inr p) = ap (λ x. advance_in devices chart x (suc fuel) a) p

  rank-pos :
      (n k : ℕ) (ls : List ℕ) (a : Machine devices) (s : Stage n k ls a) → 1 ≤ rank n k ls a s
  unfolding rank
  rank-pos n k ls a s = ground arith

  -- In layer k + 1, with c more to come.
  pub complete :
      (rounds n k c fuel : ℕ) (ls : List ℕ) (a : Machine devices)
      → suc k + c ≡ n
      → Within n (suc k) ls (rounds - 7 * c) a
      → 7 * c ≤ rounds
      → Finished devices fine chart
          (layers_from (suc c) k ls)
          (run devices chart rounds (suc fuel) a)
  unfolding run layers_from
  complete zero n k c fuel ls a total (s, r) enough =
      absurd (omega (arith, rank-pos n (suc k) ls a s, r, enough))
  complete (suc rounds) n k zero fuel ls a total (s, r) enough = elim (step n (suc k) ls fuel a s) [
    | inl (t, less) ↦
        complete rounds n k zero fuel ls (advanced n (suc k) ls fuel a) total
          (t, omega (arith, less, r)) (omega arith)
    | inr (inl (less, next)) ↦ absurd (omega (arith, total, less))
    | inr (inr (last, finished)) ↦
        Finished-run rounds fuel (suc k ∷ ls) (advanced n (suc k) ls fuel a) finished
  ]
  complete (suc rounds) n k (suc c) fuel ls a total (s, r) enough =
      elim (step n (suc k) ls fuel a s) [
        | inl (t, less) ↦
            complete rounds n k (suc c) fuel ls (advanced n (suc k) ls fuel a) total
              (t, omega (arith, less, r, enough))
              (omega (arith, r, enough, rank-pos n (suc k) ls a s))
        | inr (inl (less, (t, small))) ↦
            complete rounds n (suc k) c fuel (suc k ∷ ls) (advanced n (suc k) ls fuel a)
              (omega (arith, total)) (t, omega (arith, small, enough, r, rank-pos n (suc k) ls a s))
              (omega (arith, enough))
        | inr (inr (last, finished)) ↦ absurd (omega (arith, total, last))
      ]
