-- ===== src/Led.antt =====
-- include/LedController.h and src/LedController.cpp: 25 positions on two LED strips, with the SUCCESS,
-- BLINK and SEQUENCE_COMPLETED animations.
pub mod State
pub mod Strip
pub mod Controller
pub mod Update
pub mod Blind
pub mod Positions
pub mod Invariant
pub mod Loops
pub mod Watch
pub mod Timing
pub mod Celebration
pub mod Pixels
pub mod Regions
pub mod Shows
pub mod Repaint
pub mod Growth
pub mod Display
pub mod Ticking
pub mod Truth
