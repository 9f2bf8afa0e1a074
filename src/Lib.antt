-- ===== src/Lib.antt =====
-- The analyzer's server, 01.Sources/SERVER/src, and the C++ client's side of the protocol,
-- 01.Sources/CLIENT/CPP/src/net: clients upload a log over TCP in frames, the server parses it as it
-- arrives, and sends back a report. The files here model both from the wire to the report, and prove
-- what their parts promise.
--
-- The parts of the server, in the order in which bytes go through them:
--   Protocol     net/Protocol.h: message types, error codes, integers and headers on the wire
--   Payload      net/FrameDecoder.h and .cpp: PayloadWriter (Writer) and PayloadReader (Reader)
--   Decoder      FrameDecoder::feed and reset_frame; Serialize has serialize_frame, serialize_error
--   Splitter     parse/LineSplitter.h: the pieces of an upload to lines
--   LogLine      parse/LogLine.h and .cpp: parse_log_line; Whitelist has lookup_module, Speed has
--                find_spd
--   Aggregator   analyze/Aggregator.h and .cpp: add_line; BucketTable has bucket_for, RejectLog
--                record_reject, Excerpt escape_excerpt; Entries and Accounting what a line
--                adds to the counts
--   Csv          analyze/CsvWriter.cpp: build_result_csv; Quote has csv_quote, Fields a reader of its fields
--   Config       app/Config.h and Config.cpp: parse_args; Ranges has its bounds
--   Session      net/TcpSession.h and .cpp: the state machine of one connection. State has its
--                fields, Outbox what it writes and how it closes, Upload and UploadEnd the handlers,
--                Dispatch the loop over a read, Events the callbacks of the event loop. Intake,
--                Reading, UploadFrames, Phases, Whole, Uploads and Reads follow an upload from
--                read to read, and Analysed says what it comes to
--   Server       net/TcpServer.h and .cpp: accepting, the limit on sessions, shutdown; Startup is
--                start with its handles, Sessions the map of the sessions, Waiting and Drain the end of a
--                shutdown. A call that makes a session tell its owner that it is closed takes it off
--                the map, as on_session_closed does
--
-- The parts of the client, under Client:
--   System       what it uses of the operating system and of the user interface
--   Actions      calls that change the client's state and may fail with a text, the `err` of the source
--   State        net/Transfer.h: the snapshot, the log and the queue of commands
--   Controls     the calls of the user interface
--   Socket       net/Socket.cpp: send_all, recv_exactly; Connect has connect
--   Frames       net/Transfer.cpp: send_frame, read_frame; Texts has server_error_text, human_bytes
--   Handshake    handshake; Progress what the client takes from the server's payloads
--   Upload       the chunks of do_upload; Cancel has send_cancel_and_wait, Result receive_result, and
--                Analysis do_upload as a whole
--   Run          run_session, the worker's thread
-- The other files under Client hold proofs: Logic and Meets how properties pass through a sequence of
-- calls, Stable and Steady what no call of an upload touches, Bounded, Outcome, Delivery, Sending and
-- Payloads what the results say, and Delivered what is received call by call.
--
-- Of the client's windows, 01.Sources/CLIENT/CPP/src/ui:
--   Browser      FileBrowser.h and .cpp, without what it draws; Filter the search, Order the sorting,
--                Start where it begins
--
-- For both:
--   Tests        sample data, and each theorem below at it
--   Prelude      names, tests, lists, text and bits that the others share
--
-- State is a record and an operation returns the state after it. What a member function reports
-- through a reference or a callback is part of its result: Decoder.feed returns the bytes consumed and
-- the piece for the sink, Splitter.feed the lines for on_line in order. A session runs the piece of a
-- frame through payload_chunk right after the call of the decoder that yields it, as the sink does.
--
-- Bytes are numbers below 256, and counters of received lines, of which there are fewer than 2 ^ 64,
-- do not wrap; the byte counts of a session do, and integers on the wire are cut to their width. Loops
-- are recursion on the bytes that are left, or on fuel: Splitter.scan has one unit for each byte,
-- LogLine.Speed.find_spd_loop one for each byte and one more, UploadEnd.send_chunks one for each byte of
-- the report, Dispatch.process one for each byte of a read. The loops of the client may go on for as
-- long as the other side or the user lets them: each is followed for System.passes passes, and ends as
-- `stuck` past them, which is not an outcome of the source. Delivered says how many passes are
-- enough. Text.decimal prints 20 digits at most, all that 64 bits need.
--
-- Parameters stand for what is not in the repository's own code: LogLine.Floats.Doubles for
-- the arithmetic, reading and printing of double, Config.Strtol for strtol, and Session.Host for
-- libuv, the clock and the memory in use; Server.Accept for its answers to a connection, and
-- Server.Startup.Answers for those to start; Browser.FileSystem for std::filesystem; and
-- Client.System for the sockets, the clock and the files of the client. The answers of Host and System
-- may depend on all that went before, their state World. The thread of the client's user interface is
-- the list of its calls since the worker last looked at the flag or at the queue, the two places where
-- the worker can see them. What theorems need of them is said by Client.Delivery.Line, a stream of bytes
-- that ::recv takes from the front, and Client.Sending.Sink, one that ::send adds to.
--
-- The client's net/Payload.h repeats the server's reader and writer of payloads, and Payload stands for
-- both.
--
-- Not modelled: the log of the server, its daemon and main; what the client's
-- windows draw, the client in C#; and the copies of libraries in the 3rdparty folders.
pub mod Prelude
pub mod Protocol
pub mod Payload
pub mod Decoder
pub mod Splitter
pub mod LogLine
pub mod Aggregator
pub mod Csv
pub mod Session
pub mod Server
pub mod Config
pub mod Client
pub mod Browser
pub mod Tests
