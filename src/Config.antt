-- ===== src/Config.antt =====
-- include/Config.h: the sizes, times and addresses that the controllers share.
-- NO_COMMAND_ID is declared in the part of that file which is cut off, so it is a parameter of the
-- model (`Env.no_command_id`).
use hardware.Base.{ℕ, List, [], ◌∷◌}

abbrev pub max_line_len : ℕ
max_line_len = 64

abbrev pub command_queue_size : ℕ
command_queue_size = 8

abbrev pub event_queue_size : ℕ
event_queue_size = 16

abbrev pub touch_poll_interval_ms : ℕ
touch_poll_interval_ms = 10

abbrev pub debounce_ms : ℕ
debounce_ms = 30

abbrev pub num_touch_sensors : ℕ
num_touch_sensors = 25

abbrev pub num_positions : ℕ
num_positions = 25

-- The counts of LEDs on the two strips.
abbrev pub num_leds_strip1 : ℕ
num_leds_strip1 = 190

abbrev pub num_leds_strip2 : ℕ
num_leds_strip2 = 190

abbrev pub success_expansion_radius : ℕ
success_expansion_radius = 5

abbrev pub animation_step_ms : ℕ
animation_step_ms = 80

abbrev pub cap1188_reg_main_control : ℕ
cap1188_reg_main_control = 0x00

abbrev pub cap1188_reg_sensitivity_control : ℕ
cap1188_reg_sensitivity_control = 0x1F

abbrev pub cap1188_reg_sensor_input_status : ℕ
cap1188_reg_sensor_input_status = 0x03

abbrev pub cap1188_reg_sensor_input_enable : ℕ
cap1188_reg_sensor_input_enable = 0x21

abbrev pub cap1188_reg_calibration_active : ℕ
cap1188_reg_calibration_active = 0x26

abbrev pub cs1_bit_mask : ℕ
cs1_bit_mask = 0x01

abbrev pub default_sensitivity : ℕ
default_sensitivity = 0

-- The bus address of each sensor, A to Y.
abbrev pub sensor_i2c_addresses : List ℕ
sensor_i2c_addresses =
    0x1F ∷ 0x1E ∷ 0x1D ∷ 0x1C ∷ 0x3F ∷ 0x1A ∷ 0x28 ∷ 0x29 ∷ 0x2A ∷ 0x0E ∷ 0x0F ∷ 0x18 ∷ 0x19 ∷ 0x3C
    ∷ 0x2F ∷ 0x38 ∷ 0x0D ∷ 0x0C ∷ 0x0B ∷ 0x3E ∷ 0x2C ∷ 0x3D ∷ 0x08 ∷ 0x09 ∷ 0x0A ∷ []
