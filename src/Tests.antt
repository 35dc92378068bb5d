-- ===== src/Tests.antt =====
-- The examples: every general theorem at concrete inputs, over a transport that is two lists of
-- bytes, or over a `TcpConnection` on sockets that are.
mod Bench
mod Lines
mod Wires
mod Completions
mod Reads
mod Messages
mod Answers
mod Sessions
mod Sockets
mod Clients
mod Connections
mod Openings
mod Sketches
