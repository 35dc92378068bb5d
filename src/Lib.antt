-- ===== src/Lib.antt =====
-- ESP32-ControlLogix: an EtherNet/IP client for Allen-Bradley ControlLogix controllers, without
-- threads and without dynamic memory. Every operation returns a status at once and goes on in the
-- next `poll`.
--
-- The parts, from the wire up, and the files that model them:
--   * src/transport/Status.h, the result codes: Status.
--   * src/eip/Encapsulation.{h,cpp}, the 24-byte header and the little-endian readers and writers:
--     Encapsulation, with Encapsulation/Words (the numbers) and Encapsulation/Header (the header).
--   * src/transport/TcpConnection.{h,cpp}, a non-blocking socket: Tcp, over the socket calls of lwIP
--     as parameters (`Platform`), with Tcp/Contract, Tcp/Results (the numbers returned), Tcp/Ready
--     (a connection on a live socket) and Tcp/Owned (the descriptors). What the layers above use of
--     it is the interface `Transport` of Transport.antt, with the bounds `IsTransport` and with
--     `Streams` for a transport that is a byte stream.
--   * `writePending` and `readResponse`, which stand with the same text in src/eip/Session.cpp,
--     src/cip/ExplicitMessage.cpp and src/cip/Connection.cpp: Wire, with the bound on the body as an
--     argument; Wire/Loops, Wire/Sending, Wire/Framing and Wire/Conservation. Wire/Ready has
--     the states in which a transport moves bytes (`IsReady`), Wire/Delivery a frame that waits in
--     such a state, and Encapsulation/Windows and Packet/Frame the fields and the items of such a
--     frame. Wire/Kept, with Message/Kept, Session/Kept and Tag/Kept, is about what the calls leave
--     true of the state behind the transport.
--   * the test of the timeout, which every layer writes out: Transport, with Transport/Deadline.
--   * src/cip/Cip.h, path segments, data types and codes: Cip, Cip/Codes and Cip/Symbolic.
--   * src/cip/ExplicitMessage.{h,cpp}, one unconnected request and its answer: Message, with
--     Message/Request (the bytes of the request), Message/Response (what is accepted),
--     Message/Answer (every well-formed answer is), Message/Exchange (the invariant),
--     Message/Progress and Message/Flight (what the statuses mean), Message/Run (the calls of a
--     program in any order), Message/Reply and Message/Completion (a request from `send` to its
--     answer). Packet.antt is an independent description of the packets.
--   * src/eip/Session.{h,cpp}, RegisterSession and UnregisterSession: Session,
--     Session/Lifecycle (the invariant), Session/Run, Session/Outcomes (what the
--     operations leave), Session/Packets and Session/Completion (a session from `open` to its grant).
--   * src/cip/Connection.{h,cpp}, a connected CIP connection: Connection (the data and the packets),
--     Connection/Calls (the operations) and Connection/Response (parseConnectedResponse), with
--     Connection/Identity and Connection/Answer (what is accepted), Connection/Exchange and
--     Connection/Run (the invariant), Connection/Progress (what the statuses mean),
--     Connection/Request and Connection/Forward (the bytes of the requests), and Connection/Reply,
--     Connection/Opening and Connection/Completion (a Forward Open and a request up to the answer).
--   * src/tag/Tag.{h,cpp}, a tag that is read and written through a shared message: Tag, with
--     Tag/Access (the typed accessors), Tag/Access/RoundTrip, Tag/Access/Strings, Tag/Exchange,
--     Tag/Packets (the two requests), Tag/Completion (a read) and Tag/Written (a write).
--   * src/PlcClient.{h,cpp}, the client: PlcClient, with PlcClient/Tags (the tags) and
--     PlcClient/Link (the connection); PlcClient/Tags/Single, PlcClient/Tags/Wedge,
--     PlcClient/Tags/Pool, PlcClient/Link/Run and PlcClient/Link/Disconnect. PlcClient/Tags/Calls
--     and PlcClient/Link/Moves are about the callbacks and the connection states of one `poll`;
--     PlcClient/Link/Opening, PlcClient/Tags/Reading and PlcClient/Link/Completion follow a client
--     that connects and a tag that it reads. What it uses of the transport is the interface
--     `Network` of Network.antt.
--   * src/transport/Client.{h,cpp}, the Ethernet interface: Ethernet, over the driver of the Arduino
--     core as a parameter (`Driver`). Station and Station/Contract put a `Client` and a
--     `TcpConnection` on one platform: this is the `Network` that the program has. Address and
--     Address/Order stand for the `IPAddress` of the Arduino core.
--   * the sketches under examples/: Sketch. EipSession, IdentityQuery, TagReadWrite and
--     ConnectedTagReadWrite share the text of their phases, which is Sketch/Cycle, with
--     Sketch/Cycle/Lifecycle, Sketch/Cycle/Stuck and Sketch/Runs; each has a module for what it does
--     on the registered session. PlcClientDemo and ReliabilityDemo (with ReliabilityDemo/Exhaust)
--     use the client. LanInventory has its data in Sketch/LanInventory and its `loop` in
--     LanInventory/Loop; LanInventory/Hosts, Scan, Calls, Probes and Subnet are about the addresses
--     that it probes. The globals of a sketch are one record, and one call of `loop` is one step.
--   * Base holds the shared helpers: lists, buffers, tests, integers and bits. Tests holds the
--     examples.
--
-- How the state corresponds: an object is a record, and an operation takes the object and the state
-- `W` of the transport and returns them changed, after the status. `tx_`, `txLen_`, `txSent_`, `rx_`,
-- `rxLen_` and `rxExpected_` are a `Wire`. `conn_` is the flag `attached`. A pointer into the receive
-- buffer is an offset, and `nullptr` is `none`. The arrays of `PlcClient` are one list of slots. The
-- numbers are natural numbers with the wrap-around of their C++ types written out; `size_t` has 32
-- bits. `millis()` and `esp_random()` are operations of the transport. The names are those of the
-- source in another spelling, and where a name is a word of the language another one is taken:
-- `open` of a session is `open_session`, `open` of a connection `open_connection`, `State::Open`
-- `open_state`, and `data_` of a tag `payload`.
--
-- Bounds: the loops of `Wire` recurse on a bound on their rounds, the bytes still to send, or the
-- bytes still to read with the largest body while the header is not complete. The bound is
-- enough because a round that goes on moves at least one byte (Wire/Loops). The loops over the items
-- of a packet recurse on the item count, as in the source.
--
-- Not modelled: what the sketches print to the serial port and their delays, and what a sketch does
-- in a callback (the calls are recorded); the version string; the server under tools/, which is a
-- test tool in another language.
pub mod Base
pub mod Status
pub mod Address
pub mod Encapsulation
pub mod Transport
pub mod Wire
pub mod Cip
pub mod Packet
pub mod Message
pub mod Session
pub mod Connection
pub mod Tag
pub mod Network
pub mod PlcClient
pub mod Tcp
pub mod Ethernet
pub mod Station
pub mod Sketch
pub mod Tests
