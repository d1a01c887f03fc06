-- ===== src/Avr/CommandMap.antt =====
-- The maps from commands to events, AVR/MotorController/CommandMap.cpp. A map's first entry is its
-- size, as in the source; an entry that the source's pointer table leaves 0 is `none`.
pub mod Lookup
use ember_firmware.Prelude.{
  ℕ, ◌-◌, List, [], ◌∷◌, Option, none, some, get_or, ltb, leb, ◌==◌, ◌||◌, if◌then◌else◌,
}
use ember_firmware.Avr.Codes.{
  Event, no_event, interrupt_requested, reset_requested, clear_requested, pause_requested,
  resume_requested, enable_requested, disable_requested, move_z_axis_requested,
  home_z_axis_requested, move_r_axis_requested, home_r_axis_requested, set_z_axis_setting_requested,
  set_r_axis_setting_requested, command_reg_low_fencepost, command_reg_high_fencepost,
  rot_settings_reg, z_settings_reg, general_high_fencepost, action_high_fencepost,
}

-- A map in flash: the size in the first cell, then the events of the actions 1, 2, …
pub record ActionMap : Type 0 where
  pub map_size : ℕ
  pub events : List Event

abbrev pub general_command_map : ActionMap
general_command_map = record {
  map_size = general_high_fencepost;
  events =
      interrupt_requested ∷ reset_requested ∷ clear_requested ∷ pause_requested ∷ resume_requested
      ∷ enable_requested ∷ disable_requested ∷ [];
}

abbrev pub z_axis_action_command_map : ActionMap
z_axis_action_command_map = record {
  map_size = action_high_fencepost;
  events = move_z_axis_requested ∷ home_z_axis_requested ∷ [];
}

abbrev pub r_axis_action_command_map : ActionMap
r_axis_action_command_map = record {
  map_size = action_high_fencepost;
  events = move_r_axis_requested ∷ home_r_axis_requested ∷ [];
}

abbrev pub register_map : List (Option ActionMap)
register_map =
    none
    ∷ some general_command_map
    ∷ none
    ∷ some r_axis_action_command_map
    ∷ none
    ∷ some z_axis_action_command_map
    ∷ []

-- `map[commandAction]`, after the check of the action.
abbrev pub action_event : Option ActionMap → ℕ → Event
action_event none action = no_event
action_event (some m) action =
    if action == 0 || leb m.map_size action then no_event else get_or m.events (action - 1) no_event

pub get_event_code : ℕ → ℕ → Event
get_event_code register action =
    if leb register command_reg_low_fencepost || leb command_reg_high_fencepost register
    then no_event
    else if register == rot_settings_reg
    then set_r_axis_setting_requested
    else if register == z_settings_reg
    then set_z_axis_setting_requested
    else action_event (get_or register_map (register - command_reg_low_fencepost) none) action
