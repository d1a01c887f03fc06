-- ===== src/Printer/Chart/Door.antt =====
-- The door: what opening and closing it does to a print.
use ember_firmware.Prelude.{[], Bool, false, true, ◌≡◌}
use ember_firmware.Printer.Codes.{
  PrintEngineState, calibrating, confirm_upgrade, demo_mode, door_closed, door_open, error,
  printer_on, printing_layer, registering, showing_version, undefined_print_engine_state,
  upgrade_complete, upgrading_projector,
}
use ember_firmware.Printer.Devices.{Devices}
use ember_firmware.Printer.Chart.{Machine, Statechart}
use ember_firmware.Printer.Chart.Layers.{Layers}
use ember_firmware.Printer.Chart.Quiet.{Quiet}

-- The innermost states inside DoorClosed.
abbrev pub inside_door_closed : PrintEngineState → Bool
inside_door_closed undefined_print_engine_state = false
inside_door_closed printer_on = false
inside_door_closed door_closed = false
inside_door_closed printing_layer = false
inside_door_closed door_open = false
inside_door_closed error = false
inside_door_closed calibrating = false
inside_door_closed registering = false
inside_door_closed showing_version = false
inside_door_closed demo_mode = false
inside_door_closed confirm_upgrade = false
inside_door_closed upgrading_projector = false
inside_door_closed upgrade_complete = false
inside_door_closed _ = true

module _ (devices : Devices) where
  module _ (chart : Statechart devices) where
    -- What a machine has after the door was open.
    pub record Returned (old new : Machine devices) : Type 0 where
      pub same_state : new.state ≡ old.state
      pub same_num_layers : new.printer.status.num_layers ≡ old.printer.status.num_layers
      pub same_layer : new.printer.status.current_layer ≡ old.printer.status.current_layer
      pub nothing_posted : new.printer.posted ≡ []
