-- ===== src/Printer.antt =====
-- The printer state machine of smith and the print engine that it drives, C++/PrinterStateMachine.cpp
-- and C++/PrintEngine.cpp.
pub mod Codes
pub mod Devices
pub mod Engine
pub mod Entry
pub mod Reactions
pub mod Chart
pub mod Callbacks
