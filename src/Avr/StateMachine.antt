-- ===== src/Avr/StateMachine.antt =====
-- The state machine of the controller, AVR/MotorController/StateMachine.cpp.
pub mod Reaction
pub mod Homing
pub mod Moving
pub mod Idle
pub mod Step
pub mod Effects
pub mod Outcome
pub mod Drivers
pub mod Queueing
pub mod Deferral
pub mod Pausing
pub mod Completion
