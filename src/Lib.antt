-- ===== src/Lib.antt =====
-- Boost.Taar: a verification library for the HTTP toolkit under include/boost/taar.
--
-- The toolkit serves HTTP over Boost.Asio and Boost.Beast. A session parses a request, its matchers
-- choose a handler by method, header, cookie and path template, and the handler builds a response.
-- The parts modelled here are those with logic of their own: the text formats of the protocol, the
-- path templates, and the shared state that handlers of concurrent requests meet in.
--
-- Common holds the shared helpers: tests on the native numbers, lists, options, and texts as lists
-- of bytes with the `trim`, `iequals` and cutting loops that the sources repeat as lambdas.
--
-- Core, for include/boost/taar/core:
--   Base64          base64.hpp: base64_encode, base64_decode
--   ByteRange       byte_range.hpp: parse_range, coalesce_ranges, over 64-bit offsets
--   Cookies         cookies.hpp: the state machine of parse_cookies
--   EntityTag       entity_tag.hpp: parse_entity_tag, the comparisons, etag_list_matches
--   AcceptEncoding  accept_encoding.hpp: parse_qvalue, accept_encoding_quality, in thousandths
--   AsyncChannel    async_channel.hpp: each member as one step under the mutex, with what it completes
--   AsyncLock       context_store.hpp: async_lock, with the client that a step resumes
--   ContextStore    context_store.hpp: context_store, its entries on a heap that callers share
--   PartHeaders     multipart.hpp: multipart_boundary, parse_disposition, parse_headers
--   Multipart       multipart.hpp: multipart_scanner, parse_multipart, multipart_form
--   Mime            mime.hpp: the table, file_extension, mime_type_for, is_text_mime_type
--   Cors            cors.hpp: origin_allowed, apply, preflight_handler
--   SegmentedBody   segmented_body.hpp: the body value and its writer, over a file that may fail
--   HttpDate        http_date.hpp: format_http_date, parse_http_date, and the calendar they use
-- JsonRpc, for include/boost/taar/jsonrpc:
--   Json            the values of Boost.JSON that the sources pass on
--   Envelope        envelope.hpp, response.hpp, error.hpp: parse_envelope and the two responses
--   Requests        endpoint.hpp, request_scope.hpp: begin_request, cancel, end_request
--   Endpoint        endpoint.hpp: methods, the error mapping, dispatch, handle_json, handle, to_http
-- Mcp, for include/boost/taar/mcp:
--   EventStream     endpoint.hpp: session_slot and what event_stream takes of its mailbox
--   Pending         endpoint.hpp: the requests of a session_slot to its client, and their replies
--   Paging          endpoint.hpp: paginate, with strtoull and to_string for its cursor
-- Matcher, for include/boost/taar/matcher:
--   Template        template_parser.hpp: the character classes and parse_template
--   Target          target.hpp: the loop of target_t that matches a path and stores its arguments
-- Handler, for include/boost/taar/handler:
--   Glob            htdocs.hpp: cache_rules::glob_match
--   Paths           htdocs.hpp: is_plain_relative, requested_segments, the relative path of serve
--   Conditional     htdocs.hpp: evaluate_preconditions, if_range_holds, select_variant
--   ContentCache    htdocs.hpp: lru, and the two critical sections of open_content
-- Session, for include/boost/taar/session:
--   Failures        core/error.hpp: error codes, failures and their HTTP statuses
--   Routes          http.hpp: the choice of the route, and allowed_methods
--   Message         http.hpp: finish_response, finish_header, the soft error handlers
--   Stream          http.hpp: write_chunked_response, from the header to the last chunk written
--   Answer          http.hpp: the handlers of install_handler and register_raw_handler, 404 and 405
--   Turn            http.hpp: run_interceptors, and one round of the loop of operator()
-- Tests holds concrete runs, and each result at a concrete input.
--
-- A text is the list of its bytes. A loop over a text is structural where the source reads one
-- character at a time; the loops of etag_list_matches, parse_disposition and parse_multipart run on
-- fuel. The fuel is more than the length of the text, which each round shortens; for
-- parse_multipart it is twice that, since a round may end a part without reading. The loop
-- that shrinks the memory cache has a round for each entry, and the bisection of the MIME table one
-- for each row. The clock, the
-- drawn keys, the request fields and boost::urls::decode_view are arguments. Calls on a Beast
-- response are data, in order. Concurrency is a sequence of steps, since each member holds a mutex
-- for all of its effect; what it posts to executors is its output.
--
-- Not modelled: sockets, TLS, coroutines and the serializers, which are Boost's; the compile-time
-- machinery that binds handlers to requests; and so far the methods of MCP, the close
-- sequence and deadlines of the HTTP session, and how the static file handler resolves a path on disk.

pub mod Common
pub mod Core
pub mod Handler
pub mod JsonRpc
pub mod Matcher
pub mod Mcp
pub mod Session
mod Tests
