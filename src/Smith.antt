-- ===== src/Smith.antt =====
-- The part of smith, the printer's main program (C++), that talks to the motor controller.
pub mod I2cDevice
pub mod MotorCommand
pub mod Motor
pub mod Delivery
