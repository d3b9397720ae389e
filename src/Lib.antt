-- ===== src/Lib.antt =====
-- mnet, a small web framework for C: its server, from the accepted connection to the answer.
--
-- The program. An application (src/mnet_app.c) collects routes and settings. `mnet_run`
-- (src/mnet_server.c) accepts connections and queues them for its workers; a worker serves one
-- connection at a time (`mnet_handle_client`): it reads a request, parses it (src/mnet_parse.c), looks
-- for its route (src/mnet_router.c, src/mnet_dispatch.c), calls the handler, which reads its request
-- through src/mnet_request.c, and writes the response (src/mnet_dispatch.c). src/mnet_response.c holds
-- the decoding of URLs, the tests of header names and values and the escaping of JSON texts that the
-- others use.
--
-- The files.
-- - Base: Boolean tests on the native numbers, lists measured by them, and C strings as the bytes
--   before their NUL, with the functions of the C library that the sources call.
-- - Limits: the constants of src/mnet_internal.h.
-- - Url, Header, Json: `mnet_url_decode_ex` and its wrappers, `mnet_header_value_valid` and
--   `mnet_header_name_valid`, `mnet_json_escape`, all of src/mnet_response.c.
-- - Router: `mnet_route_match`. A match runs over the rest of the pattern and the rest of the path; an
--   oracle says which allocation fails.
-- - App: `struct mnet_app` as a record over the types of handlers and middleware, with one function
--   for each function of src/mnet_app.c that changes it.
-- - Dispatch: `mnet_find_route` and `dispatch`; the result says what is called, with which request.
-- - RequestAccess: the lookups of src/mnet_request.c, with a read behind an array as a result of its
--   own.
-- - Response: `send_response` and the error pages; the result is the list of the texts that are sent.
-- - Pool: `mnet_pool_t` with push, pop and the drain at shutdown; below it Server, the accept loop,
--   the workers and the shutdown as a step relation, one step for each critical section, with
--   the threads that sleep in mnet_cond_wait; Refinement
--   has the abstract queue that the ring implements.
-- - Run: `mnet_run` up to its loops, and its single-threaded loop over what the accepts return.
-- - Parse: `parse_request` from its parts: the request line, Content-Length, the body, the headers,
--   the query string and the cookies. What the network delivers is a list of events.
-- - Connection: `mnet_handle_client` over such events.
-- - Serve: what `mnet_handle_client` sends, composed of Connection, Dispatch and Response; the user's
--   handlers and middleware are parameters.
-- - Client: `mnet_url_parse`, `mnet_call` and `mnet_read_response` of src/mnet_client.c;
--   Serve/Loopback puts it against the server.
-- - Format: `mnet_jsonfv` of src/mnet_response.c: its buffer, the directives, the verdict on a
--   specifier of a number and the loop. snprintf and the success of allocations are parameters; what C
--   leaves undefined is an outcome of its own.
-- - Handlers: the static files of src/mnet_handlers.c, over parameters for realpath and the reading of
--   a file, the welcome page, and the constructors of responses of src/mnet_response.c.
-- - Log: src/mnet_log.c: where a message goes.
-- - Sockets: src/mnet.c and the connecting of src/mnet_client.c: the loops over the addresses, and the
--   lengths.
--
-- Bounds and fuel. Loops over a text are recursions on it. The loop over a format (`mnet_jsonfv`) runs
-- on the length of the format, of which each round passes a byte at least, and the growth of its
-- buffer on the length that is needed, since each round doubles the capacity; running out of that fuel is an outcome of its own. The drain of the queue
-- runs on the number of the queued connections, which is what each round lowers. Printing a number
-- takes the number itself as fuel, and each round divides it by the base. Where size_t arithmetic can
-- wrap around (the digits of Content-Length, the index of the queue) the wrap-around is written out.
-- The loops on the network end with the list of events, as they do in the source at the deadline.
--
-- Not modelled. Sockets, threads, clocks and signals are the operating system's; a deadline that
-- passes is an event like a failed read. Allocations fail only where a definition takes an oracle for
-- them. Freeing memory and the debug output are left out. The middleware and the handlers are the
-- user's: Dispatch identifies them and Serve takes them as parameters.
pub mod Base
pub mod Url
pub mod Header
pub mod Router
pub mod Json
pub mod Pool
pub mod Limits
pub mod Parse
pub mod Connection
pub mod App
pub mod Dispatch
pub mod Response
pub mod RequestAccess
pub mod Client
pub mod Handlers
pub mod Serve
pub mod Run
pub mod Log
pub mod Sockets
pub mod Format
