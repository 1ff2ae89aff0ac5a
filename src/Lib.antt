-- ===== src/Lib.antt =====
-- portable_terminal: a terminal for ESP32-P4 boards, which reaches hosts over a USB serial
-- adapter, Telnet or SSH through a Tailscale network. What is modelled is the terminal emulator,
-- and the code that the terminal's own authors wrote for the Telnet connection, the screen lock,
-- the serial driver and the Tailscale client, component by component.
--
-- The parts and how they interact. The emulator components/term_core is fed the bytes that a host
-- sends: its parser (src/parser.cpp) calls the screen (src/screen.cpp) for each character and
-- control sequence, and the terminal (src/terminal.cpp) draws what has changed on a display. A
-- host over Telnet is behind main/telnet_connection.cpp, which takes the protocol's commands out
-- of the stream and answers them; main/screen_lock.cpp keeps the screen dark and the keys away
-- from the terminal until a PIN is entered. The driver components/usb_host_ftdi_sio finds the two
-- bulk endpoints of an FTDI chip (src/ftdi_host_descriptor_parsing.c), sets it up by vendor
-- requests (src/ftdi_host_protocol.c, sent by src/ftdi_sio_host_ops.c) and strips the status bytes
-- of what it receives (src/ftdi_sio_host.c). In components/tailscale the control server's network
-- map is read by an event parser (src/tailscale_jstream.c) and kept as a table of peers
-- (src/tailscale_netmap.c), which tells WireGuard of them. DISCO (src/tailscale_disco.c) probes
-- the peers' addresses and moves a peer to a direct path when a Pong comes back; until then its
-- traffic goes over a relay (src/tailscale_derp.c).
--
-- The files. Base is the shared library: Boolean tests, byte strings and arrays as lists over the
-- native numbers, and `|` of disjoint fields. Esp holds the error codes, Libc the string functions
-- of the C library that the code calls.
--
-- Term/Parser is parser.cpp: State has the class's fields as a record and its buffers, Feed
-- `Parser::feed` over any sink, the interface `IParserSink` as a record of functions. Term/Screen
-- is screen.cpp: State has the fields, those that `swap_with_backup` exchanges as a `Page`;
-- Scroll, Erase, Pages, Print and Control have the methods under their names. Term/Grid is the
-- vector of cells with the loops over it; Term/Terminal is terminal.cpp, `feed_terminal` being
-- `Terminal::feed`. Every method that reads or writes a cell returns an `Option`, which is `none`
-- if the index is outside the grid.
--
-- Telnet is main/telnet_connection.cpp: `Session` has the fields that the functions change,
-- `process_rx`, `handle_negotiation`, `send_naws_sb` and `write_raw` are the functions of these
-- names, `escape_tx` the escaping in `telnet_task`, `resize_window` and `stop_session` the methods
-- `resize` and `stop`. `write_raw` changes no field, so a function that calls it returns its calls
-- as a list, and its own loop is modelled on the answers of `send`. Telnet/Requests describes a
-- server's stream by RFC 854 and the policy of the answers.
--
-- CookedInput is main/cooked_input.cpp, the filter that a serial line's bytes pass; `filter_bytes`
-- is `CookedInputFilter::process`.
--
-- ScreenLock is main/screen_lock.cpp function by function, with `Lock` for its variables: the
-- entry of a PIN there, the configuration in ScreenLock/Storage, the lock in ScreenLock/Runtime.
-- ScreenLock/Inputs has the inputs that app_main sends it, with their times, and
-- ScreenLock/Outcomes what one input can come to.
--
-- Ftdi holds the driver's types. Ftdi/Protocol is ftdi_host_protocol.c function by function
-- (`build_set_baudrate` is `ftdi_protocol_build_set_baudrate`, and so on), Ftdi/Interface is
-- ftdi_host_descriptor_parsing.c, Ftdi/Transfer the bulk IN callback `in_xfer_cb`,
-- Ftdi/Transfer/Requests the calls of ftdi_sio_host_ops.c as the type `Op`.
--
-- Jstream is tailscale_jstream.c: `Js` is `ts_js_t` with its cursor as the list of the bytes that
-- are left, `next` is `ts_js_next`; Jstream/Skip is `ts_js_skip` and Jstream/Token the comparison
-- and the copy of a token.
--
-- Netmap/Candidates is the scoring of endpoints and the table of eight in `peer_key_handler`;
-- Netmap/Peers is the peer table (`apply_one_peer`, the sweep after a full snapshot, the removal
-- by id), with the calls to WireGuard and DISCO as a list; Netmap/Lookup is
-- `ts_netmap_lookup_by_disco`, `ts_netmap_get_peer_by_wg_idx` and `ts_netmap_resolve`.
--
-- Disco is the state, the frames and the pool of pending Pings of tailscale_disco.c; Disco/Send
-- has `ts_disco_send_ping`, `ts_disco_send_call_me_maybe` and `send_pong`, Disco/Receive
-- `ts_disco_rx`, Disco/Liveness the sweep and the reset of a peer. Derp is the framing of
-- tailscale_derp.c, Derp/Pool its connections, one per region (`derp_find_region`,
-- `derp_reserve_slot`, `derp_ensure_region`).
--
-- State is passed explicitly: a C function that changes a static variable takes the record of it
-- and returns the new one. An integer of w bits keeps its wrap-around as `% 2 ^ w`; signed
-- integers that the code compares are kept as bit patterns. An output pointer is the optional old
-- content of what it points to.
--
-- Bounds and fuel. The theorems on the screen ask for two columns and one row at least and for
-- less than 2^16 of either, which a `uint16_t` counts; the loops over the grid are counted loops.
-- A parameter of a control sequence is a number that is not negative, as the parser gives it. `%u`
-- prints ten digits at most. `in_xfer_cb` takes the number of bytes of the transfer as fuel, since
-- each round takes one off; `ts_js_skip` the number of bytes left, since each event moves the
-- cursor on; `derp_tls_read` the number of bytes that are wanted, since each read gives at least
-- one. That this is enough is part of the theorems. The tables have the sizes of the source: 32
-- open brackets, 8 candidates, 16 peers, 64 pending Pings, 4 relay connections.
--
-- Parameters. ESP-IDF's walk over USB descriptors (`UsbHelpers`) and its transfers, lwIP's
-- `ip4addr_aton`, WireGuard's outcomes (`Netmap.Peers.Env`), the crypto library, random bytes and
-- the sending functions (`Disco.Env`), the TLS connection (`conn_read`, `conn_write`), the answers
-- of the socket (`SendAnswer`) and of the NVS storage (`NvsResult`), SHA-256 (`sha256`) and the
-- display (`draw_cells`, `flush`, `bell`) are arguments. One call of the screen lock reads the
-- clock once. WireGuard may answer anything; what follows if it gives out an index at which it has
-- a peer is part of the theorem on the peer table. What else is relied on is stated beside the
-- theorems that need it: `IsBox`, `IsReading`, `IsWriting`, `IsDisplay`.
--
-- Not modelled. Logging; FreeRTOS tasks, mutexes and timers; the walkers that drive the event
-- parser over the map, and the table of relay regions; opening and closing of devices; the connect
-- task, the HTTP upgrade and the send queue of the relay client, and the closing of its
-- connections; keys, public-address discovery, the Noise handshake and the control connection.
-- components/wireguard is a copy of another project. Of main, the user interface and glue to
-- ESP-IDF, only the files named above are modelled: of the Telnet connection not the dialling, the
-- start and the loop of its task, of the screen lock not what is painted.
pub mod Base
pub mod Esp
pub mod Libc
pub mod Term
pub mod Telnet
pub mod CookedInput
pub mod ScreenLock
pub mod Ftdi
pub mod Jstream
pub mod Netmap
pub mod Disco
pub mod Derp
