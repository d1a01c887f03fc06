-- ===== src/Printer/Engine/LayerSettings/Agreement.antt =====
-- The two ways in which the print engine tells the type of a layer.
use ember_firmware.Prelude.{ℕ, ◌≤◌, ◌≡◌, Bool, if◌then◌else◌, ◌&&◌, ltb, ◌==◌, arith}
use ember_firmware.Printer.Codes.{LayerType, first, burn_in, model, burn_in_layers}
use ember_firmware.Printer.Devices.{Devices}
use ember_firmware.Printer.Engine.{Engine}
use ember_firmware.Printer.Engine.LayerSettings.{type_of_layer, is_first_layer, is_burn_in_layer}

-- From layer 1 on, the test for layers after the first one makes no difference.
same_type :
    (n : ℕ) (some_layers not_after : Bool)
    → 1 ≤ n
    → (if n == 1 then first else if some_layers && not_after then burn_in else model)
      ≡ (if n == 1 then first else if some_layers && ltb 1 n && not_after then burn_in else model)
same_type n some_layers not_after h = ground arith

module _ (devices : Devices) where
  -- The type that `IsFirstLayer` and `IsBurnInLayer` tell.
  abbrev pub told_type : Engine devices → LayerType
  told_type m =
      if is_first_layer devices m
      then first
      else if is_burn_in_layer devices m
      then burn_in
      else model

  -- From the first layer on, the type of layer whose settings GetCurrentLayerSettings reads is
  -- the type that IsFirstLayer and IsBurnInLayer tell.
  pub types_agree :
      (m : Engine devices)
      → 1 ≤ m.status.current_layer
      → type_of_layer m.status.current_layer (devices.get_int burn_in_layers m.world) ≡ told_type m
  unfolding type_of_layer is_first_layer is_burn_in_layer
  types_agree m h = same_type m.status.current_layer _ _ h
