-- ===== src/Avr/Motors.antt =====
-- The driver pins, AVR/MotorController/Motors.cpp: `Initialize` as far as the pins go,
-- `SetMicrosteppingMode`, `Enable` and `Disable`.
use ember_firmware.Prelude.{ℕ, true, false, ◌==◌, if◌then◌else◌}
use ember_firmware.Avr.Firmware.{Pins}

-- The chips are enabled when the pin is low.
unfoldable pub enable : Pins → Pins
enable p = record p { motor_enable_high = false }

unfoldable pub disable : Pins → Pins
disable p = record p { motor_enable_high = true }

-- SLEEP goes high, RESET goes low and then high, and the drivers are disabled.
unfoldable pub initialize_pins : Pins → Pins
unfolding disable
initialize_pins p = disable (record p { motor_sleep_high = true; motor_reset_high = true })

unfoldable pub set_microstepping_mode : Pins → ℕ → Pins
set_microstepping_mode p mode_flag =
    if mode_flag == 1
    then record p { mode0 = false; mode1 = false; mode2 = false }
    else if mode_flag == 2
    then record p { mode0 = true; mode1 = false; mode2 = false }
    else if mode_flag == 3
    then record p { mode0 = false; mode1 = true; mode2 = false }
    else if mode_flag == 4
    then record p { mode0 = true; mode1 = true; mode2 = false }
    else if mode_flag == 5
    then record p { mode0 = false; mode1 = false; mode2 = true }
    else if mode_flag == 6
    then record p { mode0 = true; mode1 = false; mode2 = true }
    else p
