-- ===== src/Lib.antt =====
-- The firmware of an interactive board: 25 positions, each with a capacitive touch sensor and LEDs, run by
-- an Arduino that obeys command lines on its serial port and answers with events.
--
-- How the parts interact. `loop` (src/main.cpp) takes the bytes that have come over the serial port,
-- executes the complete lines among them, ticks the long-running commands, the sensors and the animations,
-- and prints up to three events. Every answer to a command, and every touch, is an event in
-- one ring of 16 places, which the touch controller and the command controller fill and the loop empties.
--
-- - EventQueue (include/EventQueue.h, src/EventQueue.cpp): the ring. `enqueue`, `flush`, and the text of
--   an event; EventQueue/Emit has the methods queueAck ... queueInfo; EventQueue/Fifo and EventQueue/Flush
--   are the contract, a bounded queue.
-- - Touch (include/TouchController.h, src/TouchController.cpp): Touch/State has the record and
--   construction, Touch/Letters the letters and addresses, Touch/I2c the bus methods, Touch/Poll the
--   loops `pollSensors` and `processDebounce`, Touch/Controller the public methods. Touch/Reports,
--   Touch/ActiveList, Touch/Debounce, Touch/Expectations and Touch/History are about them.
-- - Led (include/LedController.h, src/LedController.cpp): Led/State has the mapping table and the
--   positions, Led/Strip the strips, Led/Controller the commands, Led/Update the animations. Led/Blind,
--   Led/Positions, Led/Invariant, Led/Loops, Led/Watch, Led/Timing and Led/Celebration are about the positions and
--   the celebration; Led/Pixels, Led/Regions,
--   Led/Shows, Led/Repaint, Led/Growth, Led/Display, Led/Ticking and Led/Truth about what the strips show.
-- - Command (include/CommandController.h, src/CommandController.cpp): Command/Actions and Command/Parse
--   are the parser, Command/Rx the receive ring and `extractLine`, Command/Execute, Command/Tick and
--   Command/Machine the executor. Command/LexerLaws has the documented behaviour of the missing string
--   utilities; Command/ParseEnds, Command/WellFormed, Command/Names, Command/Lexing and Command/RoundTrip
--   are about the parser,
--   Command/Ring, Command/Lines, Command/TakeLine and Command/Extract about the ring, Command/Steps,
--   Command/Expected, Command/Changes, Command/Instant, Command/Answers, Command/Ticks, Command/LastWords,
--   Command/Endings, Command/Completed,
--   Command/AckLine, Command/Portions, Command/Alone, Command/Progress and Command/Recalibration
--   about the executor.
-- - MockPi (include/MockPiPrograms.h, src/MockPiPrograms.cpp): MockPi/State has the record, and the methods
--   that are cut off as parameters; MockPi/Start and MockPi/Spec start the programs, MockPi/Touch polls the
--   sensors, MockPi/Feed reads event lines, MockPi/Update sends commands and has the state machine. The
--   other files of MockPi are about them: MockPi/Letters, MockPi/Sequence, MockPi/TwoHand,
--   MockPi/Groups, MockPi/SpecTrip, MockPi/SpecEnds and MockPi/SpecFits about the start, MockPi/Masks,
--   MockPi/Recording and MockPi/Polling about the touches, MockPi/Decimal, MockPi/Feeding,
--   MockPi/Sending and MockPi/Obeyed about the lines, MockPi/Diagram, MockPi/Guards, MockPi/Follows,
--   MockPi/Cases, MockPi/Valid, MockPi/Course, MockPi/Protocol and MockPi/Pace about the state machine.
-- - Firmware (src/main.cpp): `setup` and one round of `loop`, with the lines of the Mock Pi as an argument;
--   Firmware/Mocked has both with the Mock Pi of program 4, the one that main.cpp is configured for.
--   Firmware/Rounds and Firmware/Played are about them.
-- - Config (include/Config.h): the constants. Base and its children: numbers, lists, machine words.
-- - Tests: runs at concrete inputs.
--
-- Correspondence. A C++ object is a record with the members' names, a method a function from the record to
-- its result and the record after it. `millis()` is an argument at each of its calls. A uint8_t and a
-- uint32_t is a number with its wrap-around written out (Base/Words); an int16_t of the LED code, which
-- stays far from its limits, an integer. A C string is the list of its characters.
--
-- Parameters. The Wire library (Touch/I2c), the Adafruit NeoPixel library with the documented effect of its
-- calls (Led/Strip), decimal printing (`Env`). Four source files are cut off in this repository: the end of
-- Config.h (NO_COMMAND_ID), of EventQueue.cpp (`sendEvent` from its ERR case on) and of
-- CommandController.cpp (skipWhitespace, findTokenEnd, strcasecmpN, charToIndex) are fields of `Env` and
-- `Lexer`. What is proved about lines supposes the documented behaviour of the latter (`LexerLaws`).
-- The end of MockPiPrograms.cpp (the cases of the state machine from TWO_HAND_SUCCESS on, `transitionTo` and
-- the helpers on masks and steps) is the record `Unseen`, and `UnseenLaws` says what their names do.
--
-- Bounds and fuel. The loops over the 25 sensors and positions recur on the arrays or on the number of rounds
-- left, and those of `flush` on the number of events it may send. The loops over the receive ring have 128
-- rounds, one for each of its places. `processCompletedLines` has 128 rounds too, since each line takes at
-- least one byte. The parser has a round for each character,
-- and so have the loops of the Mock Pi over a sequence.
--
-- Not modelled: the log messages of the Mock Pi and the part of it that is cut off, and in `setup` the waits,
-- the banner, and the branches of MOCK_PI_PROGRAM that are not compiled.
pub mod Base
pub mod Config
pub mod EventQueue
pub mod Touch
pub mod Led
pub mod Command
pub mod MockPi
pub mod Firmware
pub mod Tests
