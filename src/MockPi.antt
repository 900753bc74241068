-- ===== src/MockPi.antt =====
-- include/MockPiPrograms.h and src/MockPiPrograms.cpp: a host that runs on the board itself, plays a
-- sequence of positions, and sends its commands by `injectCommand`.
-- MockPiPrograms.cpp is cut off inside the case TWO_HAND_SUCCESS of `updateStateMachine`. What stands
-- after that is the parameter `Unseen` of the model (MockPi/State).
pub mod State
pub mod Start
pub mod Spec
pub mod Touch
pub mod Feed
pub mod Update
pub mod Sending
pub mod Diagram
pub mod Follows
pub mod Guards
pub mod Cases
pub mod Protocol
pub mod Pace
pub mod Valid
pub mod Course
pub mod Letters
pub mod Sequence
pub mod TwoHand
pub mod Masks
pub mod Recording
pub mod Polling
pub mod Decimal
pub mod Feeding
pub mod Obeyed
pub mod Groups
pub mod SpecTrip
pub mod SpecEnds
pub mod SpecFits
