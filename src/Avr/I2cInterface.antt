-- ===== src/Avr/I2cInterface.antt =====
-- The I2C interrupt of the controller, AVR/MotorController/I2CInterface.cpp. The registers of the
-- two-wire hardware are values that the code reads and writes.
pub mod Acknowledge
use ember_firmware.Prelude.{ℕ, ◌*◌, ◌+◌, Bool, true, false, ◌||◌, if◌then◌else◌}
use ember_firmware.Avr.Codes.{
  Status, status_success, status_error, status_eagain, status_noop, status_complete,
  status_setting_command_unknown, status_max_jerk_setting_invalid, status_speed_setting_invalid,
  status_microstepping_mode_setting_invalid, status_units_per_revolution_setting_invalid,
  status_step_angle_setting_invalid, status_planner_buffer_full, status_command_buffer_full,
  status_event_queue_full, status_command_unknown, status_state_machine_error,
  status_move_length_too_small, status_move_time_too_small, status_block_skipped,
  status_internal_error,
}
use ember_firmware.Avr.CommandBuffer.{CommandBuffer}
use ember_firmware.Avr.CommandBuffer

abbrev pub i2c_address : ℕ
i2c_address = 0x10

-- The bits of the control register TWCR that the code writes.
pub record Twcr : Type 0 where
  pub twint : Bool
  pub twea : Bool
  pub twsto : Bool
  pub twen : Bool
  pub twie : Bool

-- `TWCR |= mask`
abbrev pub or_bits : Twcr → Twcr → Twcr
or_bits r mask = record {
  twint = r.twint || mask.twint;
  twea = r.twea || mask.twea;
  twsto = r.twsto || mask.twsto;
  twen = r.twen || mask.twen;
  twie = r.twie || mask.twie;
}

-- `(1<<TWIE) | (1<<TWINT) | (1<<TWEA) | (1<<TWEN)`
abbrev pub return_ack : Twcr
return_ack = record { twint = true; twea = true; twsto = false; twen = true; twie = true }

-- `(1<<TWIE) | (1<<TWINT) | (0<<TWEA) | (1<<TWEN)`
abbrev pub return_nack : Twcr
return_nack = record { twint = true; twea = false; twsto = false; twen = true; twie = true }

abbrev pub release_bus : Twcr
release_bus = record { twint = true; twea = true; twsto = true; twen = true; twie = true }

-- `TW_STATUS`; `tw_other` stands for the codes that the switch does not name.
pub data TwStatus : Type 0 where
  tw_sr_sla_ack tw_sr_arb_lost_sla_ack tw_sr_gcall_ack tw_sr_arb_lost_gcall_ack : TwStatus
  tw_sr_data_ack tw_sr_gcall_data_ack tw_sr_data_nack tw_sr_gcall_data_nack : TwStatus
  tw_sr_stop tw_st_sla_ack tw_st_arb_lost_sla_ack tw_st_data_ack tw_st_data_nack : TwStatus
  tw_st_last_data tw_no_info tw_bus_error tw_other : TwStatus

-- `MC_STATUS_*` of C++/include/MotorController.h
unfoldable pub status_code : Status → ℕ
status_code status_success = 0
status_code status_error = 1
status_code status_eagain = 2
status_code status_noop = 3
status_code status_complete = 4
status_code status_setting_command_unknown = 5
status_code status_max_jerk_setting_invalid = 6
status_code status_speed_setting_invalid = 7
status_code status_microstepping_mode_setting_invalid = 8
status_code status_units_per_revolution_setting_invalid = 9
status_code status_step_angle_setting_invalid = 10
status_code status_planner_buffer_full = 11
status_code status_command_buffer_full = 12
status_code status_event_queue_full = 13
status_code status_command_unknown = 14
status_code status_state_machine_error = 15
status_code status_move_length_too_small = 16
status_code status_move_time_too_small = 17
status_code status_block_skipped = 18
status_code status_internal_error = 19

-- The registers, the command buffer, and the status of `mcState`.
pub record I2c : Type 0 where
  pub twcr : Twcr
  pub twar : ℕ
  pub twdr : ℕ
  pub commands : CommandBuffer
  pub status : Status

abbrev write_twcr : Twcr → I2c → I2c
write_twcr mask i = record i { twcr = or_bits i.twcr mask }

abbrev twen_mask : Twcr
twen_mask = record { twint = false; twea = false; twsto = false; twen = true; twie = false }

abbrev twie_twea_mask : Twcr
twie_twea_mask = record { twint = false; twea = true; twsto = false; twen = false; twie = true }

unfoldable pub initialize : I2c → I2c
initialize i = record (write_twcr twie_twea_mask (write_twcr twen_mask i)) {
  twar = i2c_address * 2;
}

-- A received byte goes to the command buffer.
unfoldable pub store_byte : I2c → I2c
store_byte i =
    let stored = record i { commands = CommandBuffer.add_command_byte i.commands i.twdr } in
    if CommandBuffer.is_full stored.commands
    then write_twcr return_nack stored
    else write_twcr return_ack stored

-- The status is sent; the case has no `break`, so what follows "all done" is run too.
unfoldable pub send_status : I2c → I2c
send_status i =
    write_twcr return_ack (write_twcr return_nack (record i { twdr = status_code i.status }))

-- `ISR(TWI_vect)`
unfoldable pub twi_isr : TwStatus → I2c → I2c
twi_isr tw_sr_sla_ack i = write_twcr return_ack i
twi_isr tw_sr_arb_lost_sla_ack i = write_twcr return_ack i
twi_isr tw_sr_gcall_ack i = write_twcr return_ack i
twi_isr tw_sr_arb_lost_gcall_ack i = write_twcr return_ack i
twi_isr tw_sr_data_ack i = store_byte i
twi_isr tw_sr_gcall_data_ack i = store_byte i
twi_isr tw_sr_data_nack i = write_twcr return_nack i
twi_isr tw_sr_gcall_data_nack i = write_twcr return_nack i
twi_isr tw_sr_stop i = write_twcr return_ack i
twi_isr tw_st_sla_ack i = send_status i
twi_isr tw_st_arb_lost_sla_ack i = send_status i
twi_isr tw_st_data_ack i = send_status i
twi_isr tw_st_data_nack i = write_twcr return_ack i
twi_isr tw_st_last_data i = write_twcr return_ack i
twi_isr tw_no_info i = i
twi_isr tw_bus_error i = write_twcr release_bus i
twi_isr tw_other i = i
