-- ===== src/Printer/Chart/Unjam.antt =====
-- The tries to recover from a jam of the tray.
use ember_firmware.Prelude.{[], false, suc, true, zero, ℕ, ◌≡◌}
use ember_firmware.Prelude.Int.{pos}
use ember_firmware.Printer.Codes.{detect_jams, hardware_rev}
use ember_firmware.Printer.Devices.{Call, Devices}
use ember_firmware.Printer.Engine.{Engine}
use ember_firmware.Printer.Engine.LayerSettings.{nonzero}
use ember_firmware.Printer.Engine.Layers.{got_rotation_interrupt}
use ember_firmware.Printer.Chart.{Machine, Statechart, motion_completed_successfully}
use ember_firmware.Smith.Motor.Layer.{minus}

module _ (devices : Devices)
    (works : (c : Call (devices.doubles.Double)) (w : devices.World) → (devices.call c w).0 ≡ true)
    (chart : Statechart devices) where
  open devices use {doubles, World, get_int, call}

  -- So many tries left, nothing posted, and no interrupt of the rotation sensor.
  abbrev pub Tries : ℕ → Engine devices → Type 0
  Tries r m =
      (m.remaining_unjam_tries ≡ pos r) × (m.posted ≡ []) × (m.got_rotation_interrupt ≡ false)

  module _ (detecting : (w : World) → nonzero (get_int detect_jams w) ≡ true)
      (sensor : (w : World) → nonzero (get_int hardware_rev w) ≡ true) (fuel : ℕ) where
    -- So many completed motions, without an interrupt in between.
    pub motions : ℕ → Machine devices → Machine devices
    motions zero a = a
    motions (suc n) a = motions n (motion_completed_successfully devices chart fuel a)

    abbrev completed : Machine devices → Machine devices
    completed a = record a { printer = record a.printer { motion_completed = true } }

    tried : ℕ → Machine devices → Engine devices
    tried r a = record (completed a).printer { remaining_unjam_tries = minus (pos (suc r)) (pos 1) }
