-- ===== src/Lib.antt =====
-- A model of ehttpd, a small HTTP/1.x server in C around an event loop: the bytes of a connection
-- are read into its buffer (core/ehd_socket.c), the request line, the URI and the header lines are
-- parsed (http/ehd_http_parse.c) by the read handlers of http/ehd_http_request.c, and a response, a
-- chain of buffers and files, is written by the write handler of http/ehd_http_core.c. A handler
-- is called for each event of an edge-triggered socket, so it goes on where the last call
-- stopped, and returns when the socket has nothing more to give or take.
--
-- The files:
--   Prelude        names of the libraries passed on, Boolean tests and lists over native numbers
--   Request        `ehd_http_request_t` as far as the parsers use it, `ehd_buf_t`, the return codes
--   Scanner        what the two parsers of lines have in common: `for (p = b->pos; ...; p++)` around
--                  a `switch (state)`. Scanner/Cut, Commute and Resume compare a loop over some
--                  bytes with one over their pieces, Scanner/Invariant is induction over the loop.
--   RequestLine    `ehd_http_parse_request_line`: one function per case in RequestLine/Method, Target
--                  and Version, put together as `step`, and what is done around the loop
--   HeaderLine     `ehd_http_parse_header_line`, in the same way, with the cases in HeaderLine/Cases
--   ComplexUri     `ehd_http_parse_complex_uri`, which decodes and normalises a path
--   Strings        `ehd_atoi` and `ehd_cpystrn` of core/ehd_string.c
--   Socket         `ehd_recv` and `ehd_send` of core/ehd_socket.c
--   Headers        `ehd_http_read_request_header` and `ehd_http_process_request_headers` of
--                  http/ehd_http_request.c, which use Socket and HeaderLine
--   LineHandler    `ehd_http_process_request_line` of http/ehd_http_request.c, which uses the reading of
--                  Headers, RequestLine and ComplexUri, and its call of the handler of headers
--   SetUp          `ehd_http_init_connection` and `ehd_http_init_request`, which lead to LineHandler, and
--                  `ehd_create_temp_buf` of core/ehd_buf.c
--   KeepAlive      `ehd_http_keep_alive` of http/ehd_http_request.c
--   NodeList       `ehd_list_t` of core/ehd_list.c
--   Pool           core/ehd_palloc.c, over the answers of `malloc`
--   Array          core/ehd_array.c and core/ehd_array.h, over Pool
--   ResponseHead   `ehd_http_special_response_handler` and `ehd_http_response_gen_header` of
--                  http/ehd_http_core.c: the pages of errors and the head of a response
--   StaticFiles    `ehd_http_handler` and `ehd_http_file_writer_handler` of http/ehd_http_core.c up to
--                  the writer, which use ResponseHead
--   Writer         `ehd_http_writer` of http/ehd_http_core.c, which uses Socket
--   Kernel         the system calls around sockets and epoll, as calls that are recorded in a log
--   Listening      `ehd_open_listening_socket` of core/ehd_connection.c, over Kernel
--   Events         the loop: `ehd_event_init` of event/ehd_event.c (Events/Start), add, mod and del of
--                  event/ehd_epoll.c, `ehd_event_accept_handler` of event/ehd_event_accept.c,
--                  `ehd_close_connection` of core/ehd_connection.c, and `ehd_event_epoll_process` with
--                  `ehd_event_enable_accept` (Events/Loop). The handlers that the loop calls, but the
--                  accepting one, are a parameter; Events/Acts has those that do to the tables what
--                  the handlers of HTTP do.
--   Echo           the two handlers of event/ehd_event_echo.c, which use no other part but the buffer
--   Program        `main` of core/ehttpd.c down to the loop: `ehd_conf_init`, `ehd_listening_init`,
--                  `ehd_cycle_init` and `ehd_http_init`, which use Listening and Events
--
-- How the code is told: a pointer is an address, a natural number, with NULL = 0; memory is a
-- function from addresses to bytes, and code that writes to it gives back another one. A
-- function that changes `*r` and `*b` returns the new records with its code. `uint` and `size_t`
-- wrap round where a value can leave their range; an enumerator in `r->state` is kept as its
-- number. In ComplexUri the bytes that were written to `r->uri.data` are a list, the last one
-- first, so that `u--` takes off its head. What a system call answers is not the program's: the
-- answers are a list and an argument, one for each call, and so is the success of the pool's
-- allocations where a component allocates, and `strcasecmp` and the numbers of `snprintf` of the C
-- library. In Kernel, Listening and Events a function of all the calls made so far answers them.
--
-- Loops: the loops over a line are recursion on the number of bytes that are left. The walk of
-- ComplexUri, the reading of headers and the writer are recursion on fuel, and a result of theirs is
-- proved to exist: 2 * n + 2 rounds for a path of n bytes (the walk looks at a byte twice at most),
-- 2 * n + 2 rounds for n bytes of headers in the buffer and still to come (a byte more is read in
-- each round but one behind EHD_OK), and a round for each answer and one more for the writer. The
-- handler of the request line takes a round for each byte that is pending and one more, `ehd_palloc`
-- calls itself once at most in a pool with room for an entry of a large block, and the accepting
-- handler takes a round for each client that the queue gives and one more. The echo module's loops are
-- recursion on the list of answers.
--
-- Not modelled: the hand-over from the two handlers of StaticFiles to the writer,
-- `ehd_event_disable_accept` (it reads a variable that is not set), the tests, and core/ehd_file.c,
-- which only passes on system calls.
pub mod Array
pub mod ComplexUri
pub mod HeaderLine
pub mod Headers
pub mod KeepAlive
pub mod NodeList
pub mod Pool
pub mod Program
pub mod LineHandler
pub mod Kernel
pub mod Listening
pub mod Echo
pub mod Events
mod Prelude
pub mod Request
pub mod ResponseHead
pub mod RequestLine
pub mod Scanner
pub mod SetUp
pub mod Socket
pub mod StaticFiles
pub mod Strings
pub mod Writer
