-- ===== src/Tests.antt =====
-- Runs of the model at concrete inputs, and the theorems at inputs that meet their hypotheses.
mod Decimal
mod Parts
mod State
mod Queue
mod Touch
mod Led
mod Command
mod World
mod MockPi
mod Pace
mod Firmware
