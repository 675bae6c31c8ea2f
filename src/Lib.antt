-- ===== src/Lib.antt =====
-- remoses, a server that lets several clients share amateur radio transceivers over a network: it talks
-- to each radio over a serial line or a socket, keeps a connection to it alive, sends Morse through it,
-- hands out advisory locks and checks who may connect.
--
-- The parts that are modelled, and the files they stand in:
--
--   * internal/rig/backend/civ/bcd.go: the BCD fields of Icom's CI-V protocol. Civ/Bcd.antt.
--   * internal/rig/backend/civ/frame.go: CI-V frames, and the function that cuts them out of a noisy
--     stream. Civ/Frame.antt; `split` is Split, `frame` is frame, `is_echo` is isEcho.
--   * internal/rig/backend/kenwood/codec.go: the framing of Kenwood's protocol. Kenwood.antt;
--     `split_frames` is splitFrames.
--   * internal/lock/lock.go: the locks, one per radio, with a lease that ends by a timer. Lock.antt;
--     `Manager` is Manager, and each method has the function of its name.
--   * internal/morse: the Morse table, the parser of canonical text and the timing of elements.
--     Morse/Table.antt, Morse/Parse.antt, Morse/Timing.antt.
--   * internal/cw/chunk.go and cat.go: the sender that keeps a rig's keyer buffer fed. Cw/Chunk.antt
--     validates a text and cuts it into chunks, Cw/Cat.antt has the calls of the sender, Cw/Cat/Loop.antt
--     its pacing loop. The sender uses `estimate` of Morse/Timing.antt.
--   * internal/cw/serialkey.go: the sender that makes the Morse itself and keys a control line.
--     Cw/Serial.antt has its settings and its calls, Cw/Serial/Keyer.antt its goroutine, with a position
--     between any two locked regions. It uses the parser and the timing of Morse.
--   * internal/radio/types.go: the state of a radio, the changes to it, Apply and Diff. Radio.antt and
--     Radio/Change.antt. Floating-point numbers are a type with a comparison.
--   * internal/rig/session.go: the state cache of a session with the events it publishes, and the
--     transmit time-out. Rig/Cache.antt; `cache_apply` is apply, `refresh_cw` is refreshCW, each of a locked
--     part and one behind the lock. Rig/Cache/Flow.antt lets the calls of several goroutines interleave.
--     Rig/Patch.antt has the requests for several settings: Rig/Patch/Check.antt what ApplyPatch checks
--     first, Rig/Patch/Apply.antt what it then sends. Rig/Setters.antt has the setters for one field, with
--     `session_` in front of their names, and EnsureCWWillTransmit.
--   * internal/auth/auth.go: HTTP Basic credentials and the cache of verified ones. Access/Basic.antt.
--   * internal/ws/ticket.go: the tickets that open a WebSocket once. Access/Ticket.antt.
--   * internal/ws/client.go, hub.go and message.go: the WebSocket stream. Ws/Client.antt has a connection's
--     two lanes and its marks (enqueue, setRadios), Ws/Drain.antt its turns to write (drain), Ws/Render.antt
--     the frames (changedFields) and the merge of a delta (ApplyDelta of internal/client/stream.go),
--     Ws/Hub.antt the fan-out, the filter of radios and the admission, which uses the tickets.
--     Ws/Stream.antt puts the steps of a connection in sequence.
--   * internal/rig/conn.go: the requests that wait for a radio's reply. Rig/Conn.antt.
--   * internal/rig/event.go: the fan-out of a radio's events to subscribers. Rig/Events.antt.
--   * internal/rig/supervisor.go and poller.go: reconnecting, and giving up on a radio that does not
--     answer. Rig/Backoff.antt.
--
-- Prelude.antt and the files below it have the tests on numbers, the lemmas on lists, the integers and
-- the association lists that the parts share. A file below a part's own proves what it is named for;
-- the Tests files hold runs at concrete inputs.
--
-- How the code is read. A function that holds a mutex throughout is a function from state to state, and
-- the regions between two holds of a mutex are functions of their own. Clock readings, random values,
-- the answers of a radio and the results of library functions that are not part of the repository, such
-- as bcrypt and SHA-256, are arguments. Instants and durations are natural numbers of nanoseconds, and
-- Go's zero time is 0. Texts that are read rune by rune are lists of code points, and bytes are numbers.
-- The 64-bit counters of the locks, of the chunks, of
-- the local keyer, of a session's changes and of dropped events wrap around as written; theorems
-- on runs ask that they do not get that far, which takes 2^64 steps. A pointer or a context is a number
-- that stands for its identity. The calls that run at the same time as a loop are steps that interleave
-- with those of the loop in any order.
--
-- Fuel. `groups_loop` and `units_loop` of Cw/Chunk.antt recurse on the length of the text, which is
-- enough since each turn moves on by a rune at least. `settle_loop` of Rig/Patch/Apply.antt recurses on the
-- six attempts that settlePTT makes. All other loops recurse on a list; the goroutines are steps.
--
-- What is not modelled: log lines and the texts of errors; the HTTP handlers, JSON, the keepalive of a
-- WebSocket, the configuration file, the transports and the command lines, which are input and output; how
-- a session is switched off and on, and the commands and answers of the radio families, but for the
-- CI-V framing and BCD fields and the framing of Kenwood's protocol.
pub mod Prelude
pub mod Civ
pub mod Lock
pub mod Morse
pub mod Cw
pub mod Access
pub mod Rig
pub mod Ws
pub mod Radio
pub mod Kenwood
