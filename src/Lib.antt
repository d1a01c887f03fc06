-- ===== src/Lib.antt =====
-- Verification of the Ember 3D printer firmware.
--
-- The printer has two programs. `smith` (C++/) runs on the main board, prints layer by layer, and
-- tells the motor controller over I2C what to do. The controller (AVR/MotorController/) moves the Z
-- axis and the rotating tray, and interrupts smith when it is done. Modelled are the controller but
-- for its motion planning, the part of smith that sends commands to it, and smith's state machine of
-- printing with the print engine that it drives.
--
-- smith sends a command (C++/MotorCommand.cpp) as one byte or six; the controller's I2C interrupt
-- (I2CInterface.cpp) puts the bytes into the command buffer (CommandBuffer.h, CommandBuffer.cpp);
-- the main loop (main.cpp) takes commands out, maps them to events (CommandMap.cpp) and hands these
-- to the state machine (StateMachine.cpp), which carries them out (MotorController.cpp) or defers
-- them in the event queue (EventQueue.cpp). Flags that interrupts set are turned into events by the
-- main loop too.
--
-- The files:
--   Prelude and below: tests on native numbers, arrays as lists, windows of rings, int32_t, `|`.
--   Avr/Codes: StateMachine_smdefs.h, EventData.h, the codes of C++/include/MotorController.h.
--   Avr/EventQueue: EventQueue.h, EventQueue.cpp. `construct`, `add`, `remove`, `clear`, `is_empty`.
--   Avr/Command, Avr/CommandBuffer, Avr/CommandMap: the files of these names. Register, action and
--     parameter bytes; AddCommandByte, AddByte, RemoveByte, GetCommand; GetEventCode.
--   Avr/I2cInterface: I2CInterface.cpp, the interrupt as a function of the hardware's status code.
--   Avr/Platform: the parameters: `float`, and the motion system, which is Planner.cpp,
--     PlannerBufferPool.cpp and the step generation of Motors.cpp.
--   Avr/AxisSettings: AxisSettings.h, AxisSettings.cpp.
--   Avr/Firmware: the state: MotorControllerState.h, the pins of Hardware.h, queue and buffer.
--   Avr/Motors: the driver pins of Motors.cpp. Avr/Controller: MotorController.cpp.
--   Avr/StateMachine: StateMachine.cpp. Each state's `case` block is a function from the event to a
--     reaction (Homing, Moving, Idle): the next state and the code segments to run, which `perform`
--     of Step runs. A state is set before its segments run, as in the source.
--   Avr/MainLoop: main.cpp, a function for each query; Steps makes the loop and the interrupts steps
--     of one machine, in which an interrupt comes between two queries.
--   Smith/I2cDevice: the writes of C++/I2C_Device.cpp. Smith/MotorCommand: C++/MotorCommand.cpp.
--   Smith/Motor: SendCommands of C++/Motor.cpp. Smith/Motor/Layer: the motions of a layer there.
--   Printer/Codes: the enumerations of C++/include/PrinterStatus.h and PrintEngine.h. Printer/Devices:
--     the parameters: motors, timers, projector, print data, settings, and the arithmetic of double.
--   Printer/Engine: C++/PrintEngine.cpp: errors, status and timers; below it LayerSettings, Timeouts,
--     Motion (motor commands, clearing a print) and Layers (starting a print, its images).
--   Printer/Entry: the constructors and destructors of the states of C++/PrinterStateMachine.cpp.
--   Printer/Reactions: what the states do with events; Printing has those of a print.
--   Printer/Chart: the hierarchy of C++/include/PrinterStateMachine.h, and boost::statechart as a
--     parameter with a hypothesis, which says what its documentation does: the innermost state with a
--     reaction reacts, a transition leaves and enters the states up to the innermost common context,
--     deep histories are restored, and posted events are processed in order.
--   Printer/Callbacks: MotorCallback, ButtonCallback and DoorCallback of C++/PrintEngine.cpp.
--   Proofs stand below the component they are about: Refine, Framing, RoundTrip, Lookup,
--   Validity, Acknowledge, Delivery, Range, Accepted, Agreement, under StateMachine Effects,
--   Outcome, Drivers, Queueing, Deferral, Pausing and Completion, under MainLoop Safety and
--   Stranded, under Printer/Chart Door, Faults, Livelock, Quiet, Cancel, Unjam and Run, and under
--   Printer/Callbacks Faulty. Tests has concrete parameters and what the theorems say of them.
--
-- How the code is read. A function that changes a global object takes the state and returns the new
-- one, beside its status. Status codes are values; CHECK_STATUS and RETURN_ON_ERROR are functions on
-- them. Machine integers are native numbers whose wrap-around is written out where the source can
-- wrap (`(n + 255) % 256` is the decrement of a uint8_t). Event data that the source leaves
-- uninitialized is a parameter (`junk`). The only loop with a bound is the retry of Send, which is
-- recursion on the number of tries left, 2 at the start. Posted events of the printer are processed on
-- fuel, since they need not end (Livelock); Run shows that 1 is enough for a print in an environment
-- that does what each state waits for, which Run/Steps spells out in `advance_in`. Where a theorem
-- says that an event is processed to the end, no posted event is left.
--
-- Not modelled: the motion planning and step generation (parameters, so what is shown holds for any
-- motion system), the debugging output, delays, and data direction registers. The atomic steps of
-- the model are whole methods: an interrupt within GetCommand is not. Of smith, the
-- dispatch of other events and of commands (`Callback`, `Handle`), the processing of print data and
-- USB drives, settings, the front panel and the display are not modelled; the log, the job's names and
-- ids, and exceptions from reading a timer or a pin are left out.
pub mod Prelude
pub mod Avr
pub mod Smith
pub mod Printer
pub mod Tests
