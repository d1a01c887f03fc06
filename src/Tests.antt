-- ===== src/Tests.antt =====
-- Concrete inputs, and what the theorems say of them.
mod Printer
mod Machine
mod Controller
mod Link
