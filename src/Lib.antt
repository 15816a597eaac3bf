-- ===== src/Lib.antt =====
-- network-gamepads passes input devices over a network connection. The server (server/) waits for
-- clients, negotiates a slot and a password with each, makes a virtual input device from what the
-- client says of its device, and writes the events that the client sends to that device.
--
-- The files, and the code each is about:
--   Base       what all modules share: library names, lists, signed integers, strings of C.
--   Os         the system: sockets, devices and the heap, as the parameter `Os`. What it answers may
--              depend on all calls made so far, which a trace records, the newest first.
--   Protocol   common/protocol.h and common/protocol.c: message types, sizes, get_size_from_command.
--   Network    common/network.h: send_message, Receiving (recv_message) and Connecting (tcp_connect,
--              tcp_listener, udp_listener).
--   Uinput     server/uinput.c: create_device, enable_events, cleanup_device.
--   Server     server/input-server.c: State (the structs), Handlers (client_close and the handlers of
--              the messages), Data (client_data, recv_data), Hello (client_connection, client_hello),
--              Rounds (the core loop and the shutdown of main), Main (add_arguments and main) and
--              Access (the machine that client_data refines).
--   Acl        setCodeList, setWhitelist and setBlacklist of server/input-server.c, over the lines of
--              the file; the names of libevdev are the parameter `Evdev`.
--   Args       libs/easy_args.c: the table of arguments, and Parse with eargs_parse; strtol and strtoul
--              are the parameter `Numerals`.
--   Client     client/input-client.c: the messages PASSWORD, REQUEST_EVENT and DATA, and Connect with
--              init_connect, setup_device and send_key_info, over the answers of the input device;
--              Run (device_reopen, set_slot, run), Scan (scan_devices), Main (add_arguments, main)
--              and Streamed (the client's loop together with client_data of the server).
--   Osc        osc/osc-xlater.c: Parse (osc_parse), Negotiate (enable_codes, input_negotiate), Mapping
--              (configure_mappings), Translate (osc_msg_xlate) and Main (main); floats are the parameter
--              `Floats`.
--   Settings   the defaults of common/protocol.h, and getenv and getaddrinfo as the parameter `World`.
--   Logger     libs/logger.c: logprintf and log_dump_buffer, as the texts that go to the two streams.
--   Words      words as bytes, which the client and the translator share.
--   Tests      concrete systems and clients, to which the theorems are applied.
--
-- A handler changes a Session, that is one client and the trace, and its result is an Option: `none`
-- stands for undefined behaviour of C, such as a read outside of a buffer. A pointer into a buffer is
-- the list of the bytes from there to the end of the buffer. Signed results are integers, and -1 is
-- negsuc 0; byte counts that C converts to unsigned numbers are converted in the model.
--
-- Bounds and fuel: the loop of client_data has as much fuel as bytes are waiting, and that of
-- send_message as the message has bytes; recv_message has one round more than its buffer has bytes.
-- This is enough, since every round uses a byte or more: a handler that does not fail returns at
-- least 1, and send(2) with a nonzero length on a blocking socket fails or takes at least one byte
-- (SendReply). The host is little-endian, as the example of REQUEST_EVENT in protocol/protocol.md
-- has it; constants of the Linux headers have their values. device_reopen has one unit of fuel for
-- each test of its loop, so one more than the attempts that are configured; a negative number of
-- attempts is no limit, and there it ends with a device, an error or a signal only.
-- configure_mappings has one unit for each round of its outer loop. The loops that end with a signal
-- (those of the three main programs and of run) go over the list of what the system gives them.
--
-- Not modelled: the calls of logprintf and all that is printed, which changes no state; getaddrinfo,
-- libevdev, strtol, printf and strftime, which are parameters; strdup.h, a copy of a library function;
-- and the dissector for Wireshark, which is a script of its own.
pub mod Base
pub mod Os
pub mod Words
pub mod Settings
pub mod Logger
pub mod Protocol
pub mod Network
pub mod Server
pub mod Uinput
pub mod Acl
pub mod Args
pub mod Client
pub mod Osc
pub mod Tests
