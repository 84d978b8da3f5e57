-- ===== src/Lib.antt =====
-- quic-go (the plus-quic-go fork): a model of the parts of the transport that decide which packets
-- count as received, acknowledged, lost or allowed, and the theorems about them.
--
-- The program. A session receives packets: the public header gives the packet number, which the wire
-- format shortens, and the unpacker opens the packet and parses its frames. The session hands every
-- number to the received packet handler, which refuses duplicates and builds the ACK frames, and every
-- ACK and STOP_WAITING frame to the sent and the received packet handler. The sent packet handler
-- keeps the packets in flight, declares losses, and runs the retransmission alarm; it owns the stop
-- waiting manager and drives the congestion controller. The flow control manager limits what the
-- streams and the connection send and receive; the streams map decides which streams exist, and in
-- which order they are asked for data. The stream framer keeps the STREAM frames of lost packets and
-- gives as many of them as fit the next packet. The connection parameters manager negotiates the limits
-- of the flow control and of the streams.
--
-- Files and what they model:
--   Base                  Go's words, errors, slices and maps, and the lemmas that the parts share
--   Protocol              protocol/packet_number.go, protocol/server_parameters.go,
--                         protocol/version.go
--   Wire                  utils/utils.go: integers on a byte stream; Wire/Float16 is utils/float16.go
--   Frames/Ack            frames/ack_frame.go (Ack/Parsing: ParseAckFrame, Ack/Writing: Write and
--                         MinLength)
--   Frames/Stream         frames/stream_frame.go
--   Frames/StopWaiting    frames/stop_waiting_frame.go
--   Frames/Control        frames/window_update_frame.go, frames/blocked_frame.go,
--                         frames/rst_stream_frame.go, frames/ping_frame.go, frames/goaway_frame.go,
--                         frames/connection_close_frame.go, frames/plus_feedback_frame.go
--   Ackhandler/History    ackhandler/received_packet_history.go
--   Ackhandler/Received   ackhandler/received_packet_handler.go
--   Ackhandler/StopWaiting ackhandler/stop_waiting_manager.go
--   Ackhandler/Sent       ackhandler/sent_packet_handler.go
--   Flowcontrol/Controller flowcontrol/flow_controller.go
--   Flowcontrol/Manager   flowcontrol/flow_control_manager.go
--   Congestion/PrrSender  congestion/prr_sender.go
--   Congestion/HybridSlowStart congestion/hybrid_slow_start.go
--   Packets/Generator     packet_number_generator.go
--   Packets/PublicHeader  public_header.go
--   Packets/Unpacker      packet_unpacker.go
--   Packets/Framer        stream_framer.go: the queues, and the frames to send again
--   Packets/Frames        the methods of the interface of frames/frame.go, for each frame
--   Handshake/Parameters  handshake/connection_parameters_manager.go
--   Streams/Map           streams_map.go (Map/Iteration: Iterate and RoundRobinIterate)
--   Session               session.go: garbageCollectStreams
--   Tests                 runs at concrete inputs, and every theorem below applied to one
-- A component's file declares its state, as a record with the fields of the Go struct, and a function
-- for each method, under the Go name in snake case; its child modules hold the proofs.
--
-- How state and errors are modelled. A method takes the state as its last argument and returns the new
-- one. Where Go may have changed the state before it fails, the result is the state and an optional
-- error; where it cannot, it is a `Result`. A method under a mutex is one step. Linked lists are lists
-- of their values, maps are association lists (lookup, insert, delete of Base/Keyed), and a nil
-- pointer or a zero time is `none`; the time field of an ACK frame, which parsing does not set, is 0
-- there. Times and durations are natural numbers of nanoseconds; what the
-- code reads from the clock is an argument, one reading for each call. A panic is a result of its own.
-- uint64 fields are natural numbers, and every operation that can leave the range writes its
-- wrap-around out; theorems state the range they need. A parser takes the bytes that are still to be
-- read and gives a value and the bytes behind it, or an error; a writer gives the bytes that it appends
-- to the buffer, with the error where it can fail. A byte is a number, and the bits of a byte are
-- combined by `+` where the code sets each of them once, and taken apart by `/` and `%`. All loops are
-- structural: over a list, or over the number of rounds that the code's bounds give (DeleteBelow,
-- SentPacket, GetOrOpenStream, RoundRobinIterate, the blocks of an ACK frame), which is exact, for
-- GetOrOpenStream on ids below 2^32 - 2. The loop of Unpack over the frames runs on fuel, one for each
-- byte of the packet, which is enough as every frame takes a byte; a lack of fuel would be `none`.
--
-- What other code answers is a parameter: the congestion controller with the RTT statistics is a record
-- of functions on an unspecified state (SendAlgorithm), the connection parameters are a record of
-- the answers (Handshake/Parameters gives those of the manager), and the AEAD that opens packets is a
-- function. No law about them is assumed. What makes a stream for the streams map is a record too
-- (StreamFactory), of which theorems assume only that a stream has the id that it was made for.
--
-- Not modelled: the packet packer, the frames with new data that the stream framer asks the streams
-- for, the stream frame sorter, handshake messages and the rest of the handshake, the cryptography, the
-- cubic sender and the RTT statistics (which use floating point), the rest of the session, server and
-- client with their goroutines and sockets, HTTP/2 over QUIC, logging, and the examples.
pub mod Base
pub mod Protocol
pub mod Frames
pub mod Handshake
pub mod Ackhandler
pub mod Flowcontrol
pub mod Congestion
pub mod Packets
pub mod Streams
pub mod Session
pub mod Wire
pub mod Tests
