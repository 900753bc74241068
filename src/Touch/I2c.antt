-- ===== src/Touch/I2c.antt =====
-- The bus methods of src/TouchController.cpp over the Arduino Wire library, which is a parameter:
-- its state and its calls. The waits (`delay`, `delayMicroseconds`) only let time pass.
use Prim.Native.Nat.{bit_and, bit_or}
use hardware.Base.{ℕ, zero, suc, ◌*◌, Bool, true, false, Option, none, some, ◌==◌, if◌then◌else◌}
use hardware.Config.{
  cap1188_reg_main_control, cap1188_reg_sensitivity_control, cap1188_reg_sensor_input_status,
  cap1188_reg_sensor_input_enable, cs1_bit_mask, default_sensitivity,
}

-- `Bus` is the state of the bus, its pins and all that hangs on it.
pub record Wire : Type 1 where
  pub Bus : Type 0
  pub begin_transmission : ℕ → Bus → Bus
  pub write : ℕ → Bus → Bus
  -- The flag asks for a stop condition.
  pub end_transmission : Bool → Bus → ℕ × Bus
  pub request_from : ℕ → ℕ → Bus → ℕ × Bus
  pub read : Bus → ℕ × Bus
  pub start : Bus → Bus
  pub stop : Bus → Bus
  pub set_clock : ℕ → Bus → Bus
  pub pin_mode : ℕ → ℕ → Bus → Bus
  pub digital_write : ℕ → ℕ → Bus → Bus

-- The pins and levels of the Arduino core that the recovery uses; only their difference matters.
abbrev pin_sda : ℕ
pin_sda = 18

abbrev pin_scl : ℕ
pin_scl = 19

abbrev mode_input_pullup : ℕ
mode_input_pullup = 2

abbrev mode_output : ℕ
mode_output = 1

module _ (w : Wire) where
  open w use {
    Bus, begin_transmission, write, end_transmission, request_from, read, start, stop, set_clock,
    pin_mode, digital_write,
  }

  unfoldable pub read_register : ℕ → ℕ → Bus → Option ℕ × Bus
  read_register address reg bus =
      let (result, bus₁) = end_transmission false (write reg (begin_transmission address bus)) in
      let (received, bus₂) = request_from address 1 bus₁ in
      let (value, bus₃) = read bus₂ in
      if result == 0
      then (if received == 1 then (some value, bus₃) else (none, bus₂))
      else (none, bus₁)

  unfoldable pub write_register : ℕ → ℕ → ℕ → Bus → Bool × Bus
  write_register address reg value bus =
      let (result, bus₁) =
        end_transmission true (write value (write reg (begin_transmission address bus))) in
      (result == 0, bus₁)

  -- Clears the INT bit of the main control register, if it can be read.
  unfoldable pub clear_interrupt : ℕ → Bus → Bus
  clear_interrupt address bus =
      let (control, bus₁) = read_register address cap1188_reg_main_control bus in
      elim control [
        | none ↦ bus₁
        | some c ↦ (write_register address cap1188_reg_main_control (bit_and c 0xFE) bus₁).1
      ]

  unfoldable pub read_raw_touch : ℕ → Bus → Bool × Bus
  read_raw_touch address bus =
      let (status, bus₁) = read_register address cap1188_reg_sensor_input_status bus in
      elim status [
        | none ↦ (false, bus₁)
        | some s ↦
            if bit_and s cs1_bit_mask == 0
            then (false, bus₁)
            else (true, clear_interrupt address bus₁)
      ]

  unfoldable pub init_sensor : ℕ → Bus → Bool × Bus
  init_sensor address bus =
      let (answer, bus₁) = end_transmission true (begin_transmission address bus) in
      let (enabled, bus₂) =
        write_register address cap1188_reg_sensor_input_enable cs1_bit_mask bus₁ in
      let (tuned, bus₃) =
        write_register address cap1188_reg_sensitivity_control
          (bit_or 0x20 (default_sensitivity * 16)) bus₂ in
      let (dummy, bus₄) = read_register address cap1188_reg_sensor_input_status bus₃ in
      if answer == 0
      then (if enabled
          then (if tuned then (true, clear_interrupt address bus₄) else (false, bus₃))
          else (false, bus₂))
      else (false, bus₁)

  -- for (i = 0; i < 9; i++): SCL low, then high
  pulses : ℕ → Bus → Bus
  pulses zero bus = bus
  pulses (suc n) bus = pulses n (digital_write pin_scl 1 (digital_write pin_scl 0 bus))

  unfoldable pub recover_i2c_bus : ℕ → Bus → Bus
  unfolding pulses
  recover_i2c_bus clock_speed bus =
      let idle = pin_mode pin_sda mode_input_pullup (pin_mode pin_scl mode_output (stop bus)) in
      let pulsed = pulses 9 idle in
      let low = digital_write pin_sda 0 (pin_mode pin_sda mode_output pulsed) in
      set_clock clock_speed (start (digital_write pin_sda 1 (digital_write pin_scl 1 low)))
