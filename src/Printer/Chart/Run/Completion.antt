-- ===== src/Printer/Chart/Run/Completion.antt =====
-- A print ends, with each layer exposed once and in order.
use ember_firmware.Printer.Devices.{Devices}
