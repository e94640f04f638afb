-- ===== src/Lib.antt =====
-- Two parts of the repository: the server of wisp/ with its control protocol, in C, and the tool that
-- makes the documentation, in Python.
--
-- The wisp server lets one client at a time render on a real-time slot. session_table.c keeps an array of
-- client sessions, each with a state; control_plane.c handles the messages of the clients, the queries of
-- the admin thread and two deadlines, one function for each, and grants, evicts and queues sessions. A
-- session asks for the slot (QUEUED while another has it), is granted it (GRANTED_WARMUP), starts
-- (ACTIVE_RT), and winds down when another is to have it (EVICTING_COOPERATIVE). The control plane names
-- the session that winds down (evicting_slot), the one that is to follow (pending_grant_target) and the
-- time at which it stops to wait. socket_message.c frames the messages on a stream socket, and
-- control_query.c carries the queries of the admin thread to the thread of the control plane.
--
-- data_plane.c shows the latest frame of the ring, fb_sink_file.c writes frames to files, and
-- admin_plane.c takes the requests of admin clients. On the other side, client_control.c connects, answers
-- the server on a thread of its own, and publishes frames into the ring. A client, the control plane and
-- the data plane share the ring and signal each other; the models of the three meet in Wisp.Session and
-- Wisp.DataPlane, where sequences of steps have any order.
--
-- docs/generate_rst.py writes a page of the documentation for each of the three parts of wisp/, with one
-- line for each source.
--
-- The model of the control plane is a function, handle, of its state, a reading of the clock and an event
-- of the poll loop; what it sends, closes or tells the data plane is a list of effects in the state. The
-- abstract view is Wisp.Arbiter: a slot that is vacant, or has one holder that warms up, runs or winds
-- down, and six moves. An event is one turn: no move, one move, or the end of a hold and a grant. IsIn
-- relates a state of the control plane to one of the slot, session by session, and the theorems of
-- Wisp.Arbiter follow each handler in its turn. A CONNECT is taken there only of a session that does not
-- hold the slot: the code does not check this, and a second CONNECT of a holder breaks the rule of one
-- holder.
--
-- The documentation tool: docs/generate_docs.sh runs Sphinx with the kernel-doc
-- extension, which reads C sources through the Python library docs/kerneldoc-src/tools/lib/python/kdoc,
-- a copy of the one of the Linux kernel.
--
-- How the parts of the tool work together: kdoc_parser.py reads a source line by line and gathers the comment and the
-- prototype of each documented declaration. Before it takes a prototype apart it lets CTransforms.apply
-- (xforms_lists.py) rewrite macros. apply cuts the text into tokens (CTokenizer), and each CMatch of a
-- table finds the calls of one macro among them and replaces them by a template, whose references
-- CTokenArgs fills in. CTokenizer.__str__ turns the tokens into a text again, without comments and without
-- members behind a "private:" comment.
--
-- Files:
--   Wisp.Types            wisp/protocol/include/wisp/types.h, wire.h and the enum of session_table.h
--   Wisp.Dmabuf           the dmabuf sets of wisp/server/src/shm/server_shm.c
--   Wisp.Table            wisp/server/src/session/session_table.c, wisps_session_table_x as Table.x
--   Wisp.Queue            its two functions on the queue; Order and Places have what holds of them
--   Wisp.Ring             the frame ring of wire.h and server_shm.c; Tearing has its use by both sides
--   Wisp.Control          wisp/server/src/control/control_plane.c: the state, do_grant to
--                         maybe_grant_next_queued
--   Wisp.Handlers         its handle_ functions for the messages
--   Wisp.Loop             its admin queries and wisps_control_plane_run: handle, and tick for the deadlines
--   Wisp.Arbiter          the specification of the slot; below it Views, Grants, Releases, Messages and
--                         Turns follow the code in that order, Runs has sequences of events, Service,
--                         Waiting, Fairness and Stopped the sessions that wait, Deadline and Handover the
--                         end of an eviction, Heartbeat and Switch what their names say
--   Wisp.DataPlane        wisp/server/src/dataplane/data_plane.c; Shown has the three threads on the ring,
--                         Latest one frame from the client to the sink
--   Wisp.FileSink         fb_sink_file.c beside it; Snapshots and Pixels have what holds of its files
--   Wisp.AdminPlane       wisp/server/src/admin/admin_plane.c; Answers has its connections
--   Wisp.Client           wisp/client_sdk/src/client_control.c and client_shm.c; Connect and Thread are
--                         wispc_connect and wispc_control, Usable, Stale, Held and Waiting what holds
--   Wisp.Session          the client library and the control plane together: Granted, Evicted and Alive
--   Wisp.Channel          wisp/server/src/control/control_query.c; Answered has its use by both threads
--   Wisp.Listing          what holds of the LIST query
--   Wisp.Wire             wisp/protocol/src/socket_message.c, with its theorems in Chunks, Frames,
--                         Passing, Leaks, Ended, Delivered
--   Base, and below it    shared names: the libraries', Boolean tests, lists, texts of code points
--   Regex                 kdoc_re.py as c_lex.py and kdoc_parser.py use it: patterns as syntax trees, and
--                         a matcher that lists the matches at a position in the order Python tries them;
--                         Search has match, search, finditer, split and sub
--   Regex.KernRe          KernRe as an object: its flag, re_cache and the sum of two expressions
--   CLex.Token            CToken; its level is the record Level
--   CLex.Scanner          RE_SCANNER_LIST, one definition for each pattern; fill_re_scanner
--   CLex.Tokenizer        CTokenizer._tokenize is tokenize
--   CLex.Render           CTokenizer.__str__ is render
--   CLex.Refs             CTokenArgs and its __init__, which is token_args
--   CLex.Args             CTokenArgs: groups is groups, tokens is arg_tokens; Substituted has what a
--                         template stands for
--   CLex.Match            CMatch: _search is search_spans, sub is sub_tokens and sub_text
--   CLex.Raised           exceptions as values
--   KdocParser.Entry      KernelEntry
--   KdocParser.Patterns   the regular expressions at the top of kdoc_parser.py
--   KdocParser.Doc        the state of KernelDoc, output_declaration, reset_state, process_normal
--   KdocParser.Names      process_name
--   KdocParser.Sections   is_new_section, is_comment_end, process_decl, process_body, process_docblock and
--                         process_inline_text; Special has process_special
--   KdocParser.Prototype  process_proto with its two kinds, and process_inline_name; Munge has the macros
--   KdocParser.Enum       dump_enum
--   KdocParser.Export     process_export
--   KdocParser.Reader     state_actions and parse_kdoc, over the lines of a file
--   RstPages              docs/generate_rst.py; Sorted and Found have what holds of find_sources
--   Xforms                CTransforms: the tables and apply
--   Tests                 runs at fixed inputs, and each theorem at an input that meets its hypotheses
--
-- An index or a descriptor that may be -1 is an Option. A slot is read with a free one as the default and
-- written where the index is in range; the code has no index out of range. Times are pairs of naturals,
-- and the signed differences of milliseconds are compared with both sides written out as sums. Seconds are
-- taken to be small enough for 64 bits; the generation of the ring wraps at 2 ^ 32. The loops over the
-- slots are recursion on the list. The loops of socket_message.c run on the answers of the kernel, a list:
-- a call that moves bytes moves at least one, so as many answers as bytes are enough
-- (Wisp.Wire.Chunks.recv_all-IsWhole). The descriptors of a control message are passed on with the first
-- byte that sendmsg takes, as its cmsg_len counts them.
--
-- A call on the ring is one step, since it holds the mutex, but for the two writes of
-- wisp_shm_ring_publish_slot before it takes the mutex: they are stamp_slot, and where other threads may
-- come in between, stamp_slot and make_latest are two steps. The stages of wispc_handle_grant that other
-- threads may see are those of grant_steps.
--
-- Texts are lists of code points, and the classes \s \w \d know ASCII only. A generator is the list of
-- what it yields, and an exception is a value of CLex.Raised.Result. `-1` and None in the attributes of
-- CTokenArgs are `none`.
--
-- Fuel: `x*` runs for at most as many rounds as the text has characters, since a round that takes nothing
-- is not repeated. The walk of finditer and sub tries each position once behind a character and once
-- behind an empty match, so 2 * length + 2 rounds are enough (Regex.Pieces.pieces-flat).
--
-- The state machine: a KernelDoc has its state, the entry, the items and what was logged. Each handler is
-- a function of the line's number, the line and a KernelDoc; a helper that reports whether it has taken
-- the line returns an Option. How dump_typedef, dump_struct, dump_var and dump_function parse a whole
-- prototype is the record Dumpers, an argument of the handlers that call them and of parse_kdoc. A message
-- has no name of its file.
--
-- Not modelled: the four functions of Dumpers with what they call, log messages that change nothing
-- else, __repr__, files and processes; the rest of the kernel-doc tools, which is the copy of another
-- project's library (its output, file driver, parser for data structures, scripts and Sphinx
-- extensions); of wisp/, sockets, the start and the end of the threads, server.c, client_gbm.c and the clients/.
pub mod Base
pub mod Regex
pub mod CLex
mod Tests
pub mod Wisp
pub mod Xforms
pub mod KdocParser
pub mod RstPages
