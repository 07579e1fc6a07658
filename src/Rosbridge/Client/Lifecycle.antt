-- ===== src/Rosbridge/Client/Lifecycle.antt =====
-- rosbridge/client.go: the life of a connection. The goroutines of a client take turns in any order;
-- an event is one turn, and its data are what the outside world decides.
pub mod Link
pub mod Steps
pub mod Invariant
pub mod Moves
pub mod Calls
pub mod Frames
pub mod Spoken
pub mod Leaks
