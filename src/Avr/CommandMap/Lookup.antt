-- ===== src/Avr/CommandMap/Lookup.antt =====
-- Which commands the controller knows.
use ember_firmware.Prelude.{ℕ, zero, suc, ◌≡◌, refl, sym, some, ◌≢◌, arith, ◌≤◌, ◌<◌, ◌⊎◌, inl, inr}
use ember_firmware.Avr.Codes.{
  Event, no_event, interrupt_requested, reset_requested, clear_requested, pause_requested,
  resume_requested, enable_requested, disable_requested, move_z_axis_requested,
  home_z_axis_requested, move_r_axis_requested, home_r_axis_requested, set_z_axis_setting_requested,
  set_r_axis_setting_requested, general_reg, rot_settings_reg, rot_action_reg, z_settings_reg,
  z_action_reg,
}
use ember_firmware.Avr.CommandMap.{
  get_event_code, action_event, general_command_map, r_axis_action_command_map,
  z_axis_action_command_map,
}
use native.Mathlib.Decide.{ℕ_discrete, dec_lt}

-- The commands of MotorController.h and the events that they request.
pub data Requests (register action : ℕ) (e : Event) : Type 0 where
  interrupt :
      register ≡ general_reg → action ≡ 1 → e ≡ interrupt_requested → Requests register action e
  reset : register ≡ general_reg → action ≡ 2 → e ≡ reset_requested → Requests register action e
  clear : register ≡ general_reg → action ≡ 3 → e ≡ clear_requested → Requests register action e
  pause : register ≡ general_reg → action ≡ 4 → e ≡ pause_requested → Requests register action e
  resume : register ≡ general_reg → action ≡ 5 → e ≡ resume_requested → Requests register action e
  enable : register ≡ general_reg → action ≡ 6 → e ≡ enable_requested → Requests register action e
  disable : register ≡ general_reg → action ≡ 7 → e ≡ disable_requested → Requests register action e
  move_r :
      register ≡ rot_action_reg
      → action ≡ 1
      → e ≡ move_r_axis_requested
      → Requests register action e
  home_r :
      register ≡ rot_action_reg
      → action ≡ 2
      → e ≡ home_r_axis_requested
      → Requests register action e
  move_z :
      register ≡ z_action_reg → action ≡ 1 → e ≡ move_z_axis_requested → Requests register action e
  home_z :
      register ≡ z_action_reg → action ≡ 2 → e ≡ home_z_axis_requested → Requests register action e
  set_r :
      register ≡ rot_settings_reg
      → 1 ≤ action
      → action < 6
      → e ≡ set_r_axis_setting_requested
      → Requests register action e
  set_z :
      register ≡ z_settings_reg
      → 1 ≤ action
      → action < 6
      → e ≡ set_z_axis_setting_requested
      → Requests register action e

-- Actions for the settings registers that are none of the settings of MotorController.h, with the
-- events that they get all the same.
pub data Unbounded (register action : ℕ) (e : Event) : Type 0 where
  other_r :
      register ≡ rot_settings_reg
      → ¬ (1 ≤ action × action < 6)
      → e ≡ set_r_axis_setting_requested
      → Unbounded register action e
  other_z :
      register ≡ z_settings_reg
      → ¬ (1 ≤ action × action < 6)
      → e ≡ set_z_axis_setting_requested
      → Unbounded register action e

general-Requests :
    (action : ℕ) (e : Event)
    → action_event (some general_command_map) action ≡ e
    → e ≢ no_event
    → Requests general_reg action e
general-Requests zero e h known = absurd (known (sym h))
general-Requests (suc zero) e h known = interrupt refl refl (sym h)
general-Requests (suc (suc zero)) e h known = reset refl refl (sym h)
general-Requests (suc (suc (suc zero))) e h known = clear refl refl (sym h)
general-Requests (suc (suc (suc (suc zero)))) e h known = pause refl refl (sym h)
general-Requests (suc (suc (suc (suc (suc zero))))) e h known = resume refl refl (sym h)
general-Requests (suc (suc (suc (suc (suc (suc zero)))))) e h known = enable refl refl (sym h)
general-Requests (suc (suc (suc (suc (suc (suc (suc zero))))))) e h known =
    disable refl refl (sym h)
general-Requests (suc (suc (suc (suc (suc (suc (suc (suc n)))))))) e h known = absurd (ground arith)

r_axis-Requests :
    (action : ℕ) (e : Event)
    → action_event (some r_axis_action_command_map) action ≡ e
    → e ≢ no_event
    → Requests rot_action_reg action e
r_axis-Requests zero e h known = absurd (known (sym h))
r_axis-Requests (suc zero) e h known = move_r refl refl (sym h)
r_axis-Requests (suc (suc zero)) e h known = home_r refl refl (sym h)
r_axis-Requests (suc (suc (suc n))) e h known = absurd (ground arith)

z_axis-Requests :
    (action : ℕ) (e : Event)
    → action_event (some z_axis_action_command_map) action ≡ e
    → e ≢ no_event
    → Requests z_action_reg action e
z_axis-Requests zero e h known = absurd (known (sym h))
z_axis-Requests (suc zero) e h known = move_z refl refl (sym h)
z_axis-Requests (suc (suc zero)) e h known = home_z refl refl (sym h)
z_axis-Requests (suc (suc (suc n))) e h known = absurd (ground arith)

known_setting : (action : ℕ) → (1 ≤ action × action < 6) ⊎ (¬ (1 ≤ action × action < 6))
known_setting action = elim (dec_lt 0 action) [
  | yes some_action ↦ elim (dec_lt action 6) [
    | yes below ↦ inl (omega arith, below)
    | no above ↦ inr (λ h. above h.1)
  ]
  | no nothing ↦ inr (λ h. nothing (omega (arith, h.0)))
]

r_settings-Requests :
    (action : ℕ) (e : Event)
    → e ≡ set_r_axis_setting_requested
    → Requests rot_settings_reg action e ⊎ Unbounded rot_settings_reg action e
r_settings-Requests action e p = elim (known_setting action) [
  | inl (low, high) ↦ inl (set_r refl low high p)
  | inr other ↦ inr (other_r refl other p)
]

z_settings-Requests :
    (action : ℕ) (e : Event)
    → e ≡ set_z_axis_setting_requested
    → Requests z_settings_reg action e ⊎ Unbounded z_settings_reg action e
z_settings-Requests action e p = elim (known_setting action) [
  | inl (low, high) ↦ inl (set_z refl low high p)
  | inr other ↦ inr (other_z refl other p)
]

-- The command map yields an event other than 0 only for a register and an action that request it
-- by MotorController.h, or for a settings register with an action that is no setting (0 or 6 and
-- above), which gets the event of that register's settings.
pub get_event_code-Requests :
    (register action : ℕ) (e : Event)
    → get_event_code register action ≡ e
    → e ≢ no_event
    → Requests register action e ⊎ Unbounded register action e
unfolding get_event_code
get_event_code-Requests register action e h known = elim (ℕ_discrete register general_reg) [
  | yes p ↦ rw p (inl (general-Requests action e (rw p at h) known))
  | no p1 ↦ elim (ℕ_discrete register rot_action_reg) [
    | yes p ↦ rw p (inl (r_axis-Requests action e (rw p at h) known))
    | no p2 ↦ elim (ℕ_discrete register z_action_reg) [
      | yes p ↦ rw p (inl (z_axis-Requests action e (rw p at h) known))
      | no p3 ↦ elim (ℕ_discrete register rot_settings_reg) [
        | yes p ↦ rw p (r_settings-Requests action e (sym (rw p at h)))
        | no p4 ↦ elim (ℕ_discrete register z_settings_reg) [
          | yes p ↦ rw p (z_settings-Requests action e (sym (rw p at h)))
          | no p5 ↦ absurd (ground arith)
        ]
      ]
    ]
  ]
]

-- The command map yields, for each register and action of the protocol, the event that they
-- request, and for a settings register with any other action the event of that register's
-- settings.
pub Requests-get_event_code :
    (register action : ℕ) (e : Event)
    → Requests register action e ⊎ Unbounded register action e
    → get_event_code register action ≡ e
unfolding get_event_code
Requests-get_event_code register action e (inl (interrupt p q r)) = rw (p, q, r)
Requests-get_event_code register action e (inl (reset p q r)) = rw (p, q, r)
Requests-get_event_code register action e (inl (clear p q r)) = rw (p, q, r)
Requests-get_event_code register action e (inl (pause p q r)) = rw (p, q, r)
Requests-get_event_code register action e (inl (resume p q r)) = rw (p, q, r)
Requests-get_event_code register action e (inl (enable p q r)) = rw (p, q, r)
Requests-get_event_code register action e (inl (disable p q r)) = rw (p, q, r)
Requests-get_event_code register action e (inl (move_r p q r)) = rw (p, q, r)
Requests-get_event_code register action e (inl (home_r p q r)) = rw (p, q, r)
Requests-get_event_code register action e (inl (move_z p q r)) = rw (p, q, r)
Requests-get_event_code register action e (inl (home_z p q r)) = rw (p, q, r)
Requests-get_event_code register action e (inl (set_r p low high r)) = rw (p, r)
Requests-get_event_code register action e (inl (set_z p low high r)) = rw (p, r)
Requests-get_event_code register action e (inr (other_r p q r)) = rw (p, r)
Requests-get_event_code register action e (inr (other_z p q r)) = rw (p, r)
