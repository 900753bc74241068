-- ===== src/Touch.antt =====
-- include/TouchController.h and src/TouchController.cpp: 25 touch sensors on the I2C bus, polled,
-- debounced and reported through the event queue.
pub mod State
pub mod Letters
pub mod I2c
pub mod Poll
pub mod Controller
pub mod Reports
pub mod ActiveList
pub mod Debounce
pub mod Expectations
pub mod History
