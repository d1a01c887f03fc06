-- ===== src/Printer/Chart.antt =====
-- The hierarchy of the states, C++/include/PrinterStateMachine.h, and the library that runs it.
-- boost::statechart is not part of the sources: processing an event is a parameter, with what its
-- documentation says of reactions, transitions, histories and posted events as a hypothesis.
pub mod Run
pub mod Unjam
pub mod Cancel
pub mod Layers
pub mod Quiet
pub mod Door
pub mod Faults
pub mod Livelock
use ember_firmware.Prelude.{
  Bool, List, Option, [], false, if◌then◌else◌, none, some, suc, true, zero, ℕ, ◌++◌, ◌||◌, ◌∷◌,
  ◌≡◌,
}
use mathlib.Core.List.{reverse}
use ember_firmware.Printer.Codes.{
  PrintEngineState, PrinterEvent, approaching, calibrating, confirm_upgrade, demo_mode, door_closed,
  door_open, error, ev_motion_completed, exposing, initializing, initializing_layer,
  pre_exposure_delay, press_delay, pressing, printer_on, printing_layer, registering, separating,
  showing_version, undefined_print_engine_state, unpressing, upgrade_complete, upgrading_projector,
  ◌=ₛ◌,
}
use ember_firmware.Printer.Devices.{Devices}
use ember_firmware.Printer.Engine.{Engine, Printer}
use ember_firmware.Printer.Entry.{enter, leave}
use ember_firmware.Printer.Reactions.{
  Handled, Outcome, deep_history, discard_event, nested, transit,
}
use ember_firmware.Printer.Reactions.Printing.{reactions}

-- The states around a state, the innermost first: the second argument of `sc::state`, repeated.
abbrev pub contexts : PrintEngineState → List PrintEngineState
contexts undefined_print_engine_state = []
contexts printer_on = []
contexts door_closed = printer_on ∷ []
contexts door_open = printer_on ∷ []
contexts error = printer_on ∷ []
contexts calibrating = printer_on ∷ []
contexts registering = printer_on ∷ []
contexts showing_version = []
contexts demo_mode = []
contexts confirm_upgrade = []
contexts upgrading_projector = []
contexts upgrade_complete = []
contexts initializing_layer = printing_layer ∷ door_closed ∷ printer_on ∷ []
contexts pressing = printing_layer ∷ door_closed ∷ printer_on ∷ []
contexts press_delay = printing_layer ∷ door_closed ∷ printer_on ∷ []
contexts unpressing = printing_layer ∷ door_closed ∷ printer_on ∷ []
contexts pre_exposure_delay = printing_layer ∷ door_closed ∷ printer_on ∷ []
contexts exposing = printing_layer ∷ door_closed ∷ printer_on ∷ []
contexts separating = printing_layer ∷ door_closed ∷ printer_on ∷ []
contexts approaching = printing_layer ∷ door_closed ∷ printer_on ∷ []
contexts _ = door_closed ∷ printer_on ∷ []

-- The initial states inside a state: the third argument of `sc::state`, repeated.
abbrev pub inner_initial : PrintEngineState → List PrintEngineState
inner_initial printer_on = door_closed ∷ initializing ∷ []
inner_initial door_closed = initializing ∷ []
inner_initial printing_layer = pressing ∷ []
inner_initial _ = []

-- A printer with its innermost active state, and the deep histories of PrinterOn, DoorClosed and
-- PrintingLayer (`sc::has_deep_history`).
pub record Active (D W : Type 0) : Type 0 where
  pub state : PrintEngineState
  pub printer_on_history : Option PrintEngineState
  pub door_closed_history : Option PrintEngineState
  pub printing_layer_history : Option PrintEngineState
  pub printer : Printer D W

abbrev member : PrintEngineState → List PrintEngineState → Bool
member s [] = false
member s (t ∷ ts) = s =ₛ t || member s ts

-- The states before the first one that is in the second list.
abbrev before : List PrintEngineState → List PrintEngineState → List PrintEngineState
before [] common = []
before (s ∷ ss) common = if member s common then [] else s ∷ before ss common

abbrev both : List PrintEngineState → List PrintEngineState → List PrintEngineState
both [] ts = []
both (s ∷ ss) ts = if member s ts then s ∷ both ss ts else both ss ts

abbrev pub last_or : PrintEngineState → List PrintEngineState → PrintEngineState
last_or s [] = s
last_or s (t ∷ ts) = last_or t ts

-- A transition leaves the active states up to the innermost context that the state of the reaction and
-- the target have in common, the innermost state first.
abbrev pub left_states :
    PrintEngineState → PrintEngineState → PrintEngineState → List PrintEngineState
left_states active source target =
    before (active ∷ contexts active) (both (contexts source) (contexts target))

-- It enters the contexts of the target below that one, the target, and its initial states.
abbrev pub entered_states : PrintEngineState → PrintEngineState → List PrintEngineState
entered_states source target =
    reverse (before (target ∷ contexts target) (both (contexts source) (contexts target)))
    ++ inner_initial target

abbrev or_else : Option PrintEngineState → PrintEngineState → PrintEngineState
or_else (some s) d = s
or_else none d = d

module _ (devices : Devices) where
  open devices use {doubles, World}
  open doubles use {Double}

  abbrev pub Machine : Type 0
  Machine = Active Double World

  unfoldable pub leave_all : List PrintEngineState → Engine devices → Engine devices
  leave_all [] m = m
  leave_all (s ∷ ss) m = leave_all ss (leave devices s m)

  unfoldable pub enter_all : List PrintEngineState → Engine devices → Engine devices
  enter_all [] m = m
  enter_all (s ∷ ss) m = enter_all ss (enter devices s m)

  -- A state that is left remembers, if it has a deep history, the innermost active state.
  abbrev remember : PrintEngineState → PrintEngineState → Machine → Machine
  remember leaf printer_on a = record a { printer_on_history = some leaf }
  remember leaf door_closed a = record a { door_closed_history = some leaf }
  remember leaf printing_layer a = record a { printing_layer_history = some leaf }
  remember leaf _ a = a

  remember_all : PrintEngineState → List PrintEngineState → Machine → Machine
  remember_all leaf [] a = a
  remember_all leaf (s ∷ ss) a = remember_all leaf ss (remember leaf s a)

  abbrev history_of : PrintEngineState → Machine → Option PrintEngineState
  history_of printer_on a = a.printer_on_history
  history_of door_closed a = a.door_closed_history
  history_of printing_layer a = a.printing_layer_history
  history_of _ a = none

  innermost : List PrintEngineState → Machine → Option PrintEngineState
  innermost [] a = none
  innermost (s ∷ ss) a = history_of s a

  -- The state that `sc::deep_history<d>` stands for.
  abbrev restored : PrintEngineState → Machine → PrintEngineState
  restored d a = or_else (innermost (contexts d) a) d

  -- The transition of a reaction of `source` to `target`.
  unfoldable pub move : PrintEngineState → PrintEngineState → Machine → Machine
  unfolding leave_all enter_all remember_all
  move source target a =
      let left = left_states a.state source target in
      let inside = entered_states source target in
      record (remember_all a.state left a) {
        state = last_or target inside;
        printer = enter_all inside (leave_all left a.printer);
      }

  -- What the result of a reaction means; `within` processes an event inside a reaction.
  unfoldable pub conclude :
      (PrinterEvent → Machine → Machine)
      → PrintEngineState
      → Outcome Double World
      → Machine
      → Machine
  unfolding innermost
  conclude within source discard_event a = a
  conclude within source (transit t) a = move source t a
  conclude within source (deep_history d) a = move source (restored d a) a
  conclude within source (nested e after) a =
      let done = within e a in record done { printer = after done.printer }

  abbrev answer :
      (PrinterEvent → Machine → Machine) → PrintEngineState → Handled devices → Machine → Machine
  answer within source h a = conclude within source h.0 (record a { printer = h.1 })

  -- The innermost active state with a reaction for the event reacts; without one it is discarded.
  unfoldable pub dispatch :
      (PrinterEvent → Machine → Machine) → List PrintEngineState → PrinterEvent → Machine → Machine
  dispatch within [] e a = a
  dispatch within (s ∷ ss) e a = elim (reactions devices s e) [
    | some h ↦ answer within s (h a.printer) a
    | none ↦ dispatch within ss e a
  ]

  -- The library: how it processes an event, and an event inside a reaction, of which its documentation
  -- says nothing.
  pub record Statechart : Type 0 where
    pub process : PrinterEvent → Machine → Machine
    pub within : PrinterEvent → Machine → Machine
    pub documented :
        (e : PrinterEvent) (a : Machine)
        → process e a ≡ dispatch within (a.state ∷ contexts a.state) e a

  module _ (chart : Statechart) where
    -- Posted events are processed in order, after the one that posted them.
    unfoldable pub settle : ℕ → Machine → Machine
    settle zero a = a
    settle (suc fuel) a = elim a.printer.posted [
      | [] ↦ a
      | e ∷ es ↦
          settle fuel (chart.process e (record a { printer = record a.printer { posted = es } }))
    ]

    -- `process_event`, with a bound on the events that are posted.
    unfoldable pub process_event : ℕ → PrinterEvent → Machine → Machine
    process_event fuel e a = settle fuel (chart.process e a)

    -- `MotionCompleted(true)`
    unfoldable pub motion_completed_successfully : ℕ → Machine → Machine
    motion_completed_successfully fuel a =
        process_event fuel ev_motion_completed
          (record a { printer = record a.printer { motion_completed = true } })
