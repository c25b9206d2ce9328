-- ===== src/Lib.antt =====
-- Verification library of BoxRtsp, a box that opens the RTSP streams of cameras and sends their video to
-- clients.
--
-- The program has one event thread and one thread per camera that is watched. The event thread takes
-- commands from clients (src/libevent_server.c), loads a camera's addresses from a data base, asks the
-- camera for its description and reads the answer with an RTSP parser (src/dev_opt.c and
-- src/common/rtsp-parser.c), and connects to the servers to which the video goes. A camera's thread
-- (read_video_data_from_dev_task in src/dev_opt.c) reads packets and writes them to the output buffer
-- of each of these servers. Names of devices in commands are URL-coded (src/common/url_code.c).
--
-- Prelude: shared names, Boolean tests (Tests), lists over native numbers (Lists), integers (Int).
--
-- UrlCode: src/common/url_code.c. url_encode and url_decode are loops over the source that carry the
-- bytes written so far; a count of -1 is a source that is read to its NUL. Bounds and RoundTrip prove.
--
-- Rtsp: src/common/rtsp-parser.c. Parser is the structure: the buffer as a list of bytes, the state
-- machine, the slices, the stored headers. Exec has the ways a call ends: with a value, by a failed
-- assertion, by an access outside the buffer, or, in the model only, without fuel. Sizes are those of
-- a 32-bit target, as in the Makefile's default, and wrap. Buffer is rtsp_rawdata; RequestLine,
-- StatusLine, HeaderLine and Chunked are the machines, one function per state with the guards in the
-- source's order; Headers is rtsp_header_add and rtsp_header_handler; Input is rtsp_parser_input with
-- rtsp_parser_create, rtsp_parser_clear and rtsp_parser_destroy; Getters is the rest of the interface,
-- of which Found proves. Bytes is about what stands at an offset of the buffer, Runs about a loop that
-- is followed turn by turn. With these, Body writes bodies in chunks by the grammar of the protocol and
-- follows rtsp_parse_chunked through them, Fields writes lines of headers and follows
-- rtsp_parse_header_line through them, and Answer writes the first line of an answer, follows
-- rtsp_parse_status_line through it, and puts the parts of a call of rtsp_parser_input together. Trail is
-- the end of a line, which two of the machines read alike, and Numbers is about digits.
-- The machines loop on fuel: nine turns for each byte that is left and ten more (line_fuel),
-- which the proofs under Safe show to be enough for the start lines and the headers; for a chunked body
-- one turn for each byte that is left and one more is enough. Env has what lies
-- outside: the limit of a body's size and whether an allocation is granted. A string that a function of
-- the C library reads ends at its NUL or at the end of the allocated bytes.
--
-- Safe: the invariant of a parser (Place) state by state, the rule for the loops (Rules), and what each
-- machine keeps. Chunked and Overrun are about chunked bodies.
--
-- Relay: read_video_data_from_dev_task in src/dev_opt.c. Lists has the calls of libevent's buffers and
-- of SimCList as operations with their documented behaviour. Packets chooses the packets, Client serves
-- one client with one frame, Dispatch is the loop over the positions of the list with its deletions,
-- Task the loop over the packets. The list holds addresses and a store has the clients. The packets are
-- those that av_read_frame gives before it fails. The loop over the clients has the list's size for
-- fuel. Order, Queue, Bounds and Restart prove, with Members, Served and Sent for the clients of the list.
--
-- Server: src/libevent_server.c. Frames takes a command out of the received bytes, Json is what is used
-- of cJSON, Command is deal_client_cmd with the calls that it makes as a list of effects, Device is
-- load_device_ip_port_cb and the URLs that src/dev_opt.c forms, Sdp is analysis_sdp_info, Digest is
-- get_realm_and_nonce and get_response with md5_packages_string (src/common/md5gen.c) for a hash that
-- is a parameter. Framing, Replies, Addresses, Descriptions and Responses prove, with the rules of
-- Returned.
--
-- Registry: the state that src/libevent_server.c and src/dev_opt.c share, and the callbacks on it. World
-- is listDevList, the devices, clients, callback arguments, bufferevents and threads in memory, and
-- rwlockMyLock; an address is a number, an allocation is always granted and gives a new one, and a read
-- through NULL or of what was freed is a fault. Run has the ways a callback ends: with a state, by a
-- fault, or waiting for a lock that is not given back. Outside bundles what is a parameter: libevent's
-- buffers, SimCList, cJSON, SQLite, the sum of MD5. Database is sql_operation, Lookup
-- analysis_json_dev_info and DevSeeker, Open deal_open_video_cmd and test_dev_connection, Request and
-- Push are push_stream, stop_stream and connect_to_rtsp_server, Session has the callbacks of a server's
-- connection and the error callbacks of clients, Describe the callbacks of a camera's connection, Reader
-- the steps of a camera's thread, Commands deal_client_cmd with the handlers that it calls. Steps puts
-- them together: an action is an event of a bufferevent or a step of a thread, and Reached are the states
-- that actions lead to. A callback is one step, and so is a packet of a thread. A client of a wait list
-- stands for its bufferevent. Events are reported as libevent documents it: none for a freed
-- bufferevent, none of the reading side while EV_READ is disabled; which of them come, and in which
-- order, is left open. The value of WWW-Authenticate is read after its buffer was freed; the bytes
-- are taken to be still there. Rules and Induction are the rules for steps; Lock and Sound, with a
-- child for each group of callbacks, carry two invariants through all of them; Delivery, Sending,
-- Waiting, Finding, Refusing and Stuck prove.
--
-- Start: src/main.c and what it calls. Serial is get_sys_sn of src/dev_opt.c, which prints the network
-- card's address as a number, with the answers of socket and ioctl as a parameter; Listen is
-- libevent_server_main_listen of src/libevent_server.c, with the answers of libevent as a parameter, a
-- NULL that is freed being a fault; Main is main, with the state that Registry starts from. What the
-- event loop makes of that state is a parameter here; its steps are those of Registry. Digits and Number
-- prove.
--
-- Tests: runs at concrete inputs, and the theorems at inputs where their conditions hold.
--
-- Not modelled: the traces that are printed, the opening of a camera's stream by FFmpeg, the text that
-- stop_stream writes into an array that is gone when it is read, and the libraries themselves (SimCList,
-- cJSON, MD5, SQLite, libevent, FFmpeg). Steps of other threads within one callback or one packet are not
-- modelled, nor are the sending of a client's output buffer between two frames and addresses that are
-- given away again after they were freed.
pub mod Prelude
pub mod UrlCode
pub mod Rtsp
pub mod Relay
pub mod Server
pub mod Registry
pub mod Start
mod Tests
