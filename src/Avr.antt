-- ===== src/Avr.antt =====
-- The firmware of the motor controller, AVR/MotorController.
pub mod Codes
pub mod EventQueue
pub mod Command
pub mod CommandBuffer
pub mod CommandMap
pub mod Platform
pub mod AxisSettings
pub mod Firmware
pub mod Motors
pub mod Controller
pub mod StateMachine
pub mod MainLoop
pub mod I2cInterface
