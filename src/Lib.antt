-- ===== src/Lib.antt =====
-- A model of the ROM robot control server, a Go program that connects browsers to a fleet of ROS robots
-- over rosbridge web sockets, and the theorems that hold of it.
--
-- The parts and how they interact. A `Client` (rosbridge/client.go) keeps the web socket of one robot:
-- it subscribes to topics, publishes velocity commands, calls services, parses what arrives and calls
-- back. A `Robot` (robot/robot.go) owns a client, stores what the callbacks bring, and holds the
-- navigation points that robot/navigation.go edits and transfers. The `Manager` (robot/manager.go)
-- keeps the robots by id, wraps their callbacks, and broadcasts each event to the channels of the
-- browsers' sessions (handlers/ws_handler.go). The requests of handlers/robot_api.go act on it, those of
-- handlers/nav_api.go and handlers/map_api.go on its current robot. The `Server` (main.go) routes the
-- requests to their handlers and starts with the settings of `Config` (config/config.go);
-- handlers/speech_api.go turns recorded speech to a command for the current robot.
--
-- Which file models what:
--   Prelude           shared tests, lists, association lists, decimal numerals, machine integers, and
--                     `float64` as a parameter
--   Rosbridge/Types   rosbridge/types.go; Rosbridge/Protocol: rosbridge/protocol.go
--   Rosbridge/Codec   `json.Unmarshal` as a parameter: decoders at the types that the client reads
--   Rosbridge/Client  rosbridge/client.go: the state and the connection; its children are Topics
--                     (subscriptions), CmdVel (velocity commands; CmdVel/Publishing), Services (service
--                     calls; Services/Calls, Services/Channels), Replies (calls whose response is
--                     decoded), Parsers (parse functions; Parsers/Cells, Parsers/Transforms), Inbound
--                     (dispatch of a message; Inbound/Routing) and Lifecycle (turns of the goroutines;
--                     Lifecycle/Steps, Link, Invariant, Moves, Calls, Frames, Spoken, Leaks)
--   Robot             robot/robot.go; Robot/Sensors (rates), Robot/History (velocity history)
--   Navigation        robot/navigation.go: local edits; Navigation/Remote: transfers to the robot;
--                     Navigation/Remote/Readings: how a request with points is read; Navigation/Names,
--                     Navigation/Edits and Navigation/Remote/Sends hold proofs
--   Hub               robot/manager.go: Subscribe, Unsubscribe, Broadcast; Hub/Sound, Hub/Delivery;
--                     Hub/Sessions: the session of handlers/ws_handler.go around a channel
--   Manager           robot/manager.go: the registry; Manager/Steps: its operations in sequence;
--                     Manager/Evolution: the changes that any part of the server makes to it;
--                     Manager/Hearing: what they broadcast;
--                     Manager/Directory: its abstract specification; Manager/Invariant, Updates,
--                     Registry, History, Keys and Refinement hold proofs
--   Browser           handlers/ws_handler.go: the writer by itself and the browser's commands;
--                     Browser/Writer: a round of the writer's loop; Browser/Throttle,
--                     Browser/Commands and Browser/Writer/Ends hold proofs
--   Api               handlers/robot_api.go: the requests that change robots; Api/Lists: those that read;
--                     Api/Current: the start that the other handlers share; Api/Points:
--                     handlers/nav_api.go; Api/Maps: handlers/map_api.go; Api/Requests and Api/Rows hold
--                     proofs
--   Speech            handlers/speech_api.go; Speech/Paths: its paths and texts; Speech/Reasons: how a
--                     transcription ends; Speech/Traces holds proofs
--   Config            config/config.go; Config/Paths: its paths; Config/Joins holds proofs
--   Server            main.go: the events of the whole server; Server/Routes: the routing table;
--                     Server/Answers: the answers, with the index page of handlers/pages.go;
--                     Server/Kept, Robots, Edits, Points, Transfers, Changes, Requests, Events,
--                     Composition, Turned, Refusals, Frame and Listings hold proofs
--   Server/Sockets    handlers/ws_handler.go: the sessions of the browsers, each with its reader and its
--                     writer, among the events of the server; Server/Sockets/Safety, Manned, Shut,
--                     Rounds and Ends hold proofs
--   Server/Start      main.go: what the server starts with
--   Examples          concrete inputs for the theorems
-- A Go method `DoThis` of a type is the definition `do_this` in the type's module, which takes the
-- state and returns the new one.
--
-- How the code is modelled:
--   - A method that mutates its receiver returns the new record; an error is a value beside it. A lock
--     that is held for a whole method makes it one step; `publishCmdVelTick`, which takes its lock
--     three times, is one step as well.
--   - Goroutines are counted, and their turns are the events of a step function, in any order. What
--     other goroutines do during the wait of a service call is an argument. The outcome of a dial and
--     of a write, the time, and the map entry that a `range` visits first are arguments too.
--   - A timeout is a call whose channel is still empty when the wait ends. Logging, deadlines and the
--     lengths of the timers are left out.
--   - `int` is a 64-bit pattern and wraps; `int8` is an 8-bit pattern. `float64` is any type with the
--     operations that the code uses, so no theorem rests on its rounding.
--   - A channel is a list of bounded length and a flag; a send on a closed channel and a second close
--     set a flag that stands for the panic. A robot removed from the registry is kept in a list.
--   - Every loop of the code is structural recursion on a list, so there is no fuel. The endless loops
--     of the goroutines are turns, which come from a list of events that the world gives.
--   - A request is its method, its path, the values of its form and its query, and its decoded bodies;
--     an answer is a status, or the data of a body or a page. `Env` holds what the world outside decides
--     while one event is handled. An event of the server is one step: handlers of requests that overlap
--     are not interleaved, but for what the other goroutines of a client do while it waits.
--   - What speech recognition does to files and programs is a trace of actions, and `Host` decides how
--     each of them ends.
--
-- Not modelled: the rendering of templates/ and of bodies, the page that an HTMX request gets in place
-- of a status, static/, and in main.go the templates, the timeouts and the listener. `strconv`, the JSON
-- decoders and the text of the settings are parameters. The bytes of JSON messages are not modelled:
-- outgoing messages are trees, incoming ones go through the decoder parameter.
mod Prelude
pub mod Rosbridge
pub mod Robot
pub mod Navigation
pub mod Hub
pub mod Manager
pub mod Browser
pub mod Api
pub mod Speech
pub mod Config
pub mod Server
mod Examples
