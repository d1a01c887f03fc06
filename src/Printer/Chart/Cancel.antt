-- ===== src/Printer/Chart/Cancel.antt =====
-- Cancelling a print.
use ember_firmware.Printer.Devices.{Devices}
use ember_firmware.Printer.Engine.{Engine}
use ember_firmware.Printer.Chart.Quiet.{Quiet}
use ember_firmware.Printer.Chart.Layers.{Layers}
