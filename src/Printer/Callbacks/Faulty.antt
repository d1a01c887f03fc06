-- ===== src/Printer/Callbacks/Faulty.antt =====
-- A motor controller that reports an error.
use ember_firmware.Prelude.{List, [], false, true, ◌∷◌, ◌≡◌}
use ember_firmware.Printer.Codes.{ErrorCode, entering, error}
use ember_firmware.Printer.Devices.{Call, Devices}
use ember_firmware.Printer.Engine.{Engine, PrinterStatus}
use ember_firmware.Printer.Chart.{Machine, Statechart}
use ember_firmware.Printer.Chart.Faults.{Cleared}

-- The newest status tells that Error is entered, with a new error of this code.
abbrev pub Newest : {D : Type 0} → ErrorCode → List (PrinterStatus D) → Type 0
Newest code [] = false ≡ true
Newest code (s ∷ ss) =
    (s.state ≡ error) × (s.change ≡ entering) × (s.is_error ≡ true) × (s.error_code ≡ code)

module _ (devices : Devices)
    (works : (c : Call (devices.doubles.Double)) (w : devices.World)
      → (devices.call c w).0 ≡ true) where
  open devices use {doubles, World, call}

  -- A new error of this code is flagged, and nothing is posted.
  abbrev Flagged : ErrorCode → Engine devices → Type 0
  Flagged code m = (m.posted ≡ []) × (m.status.is_error ≡ true) × (m.status.error_code ≡ code)

  -- And the status has told it.
  abbrev Told : ErrorCode → Engine devices → Type 0
  Told code m = Flagged code m × Newest code m.sent

  module _ (chart : Statechart devices) where
    -- The print has ended in Error, and the error has been told once.
    pub record Stopped (code : ErrorCode) (b : Machine devices) : Type 0 where
      pub in_error : b.state ≡ error
      pub cleared : Cleared devices b.printer
      pub nothing_posted : b.printer.posted ≡ []
      pub flag_down : b.printer.status.is_error ≡ false
      pub same_code : b.printer.status.error_code ≡ code
      pub told : Newest code b.printer.sent
