-- ===== src/Lib.antt =====
-- libgdata: a GObject library, in C, for the web services that speak the GData protocol.
--
-- The program's parts, and the files that model them:
--
-- - gdata/gdata-buffer.c, the byte queue between a network thread and the stream that reads from it:
--   Buffer.antt (`GDataBuffer`, `gdata_buffer_push_data`, the copying part of `gdata_buffer_pop_data`)
--   and Buffer/Wait.antt (the waits, `gdata_buffer_pop_data_limited`, `pop_cancelled_cb`). A buffer is
--   a record; the linked list is the list of the chunks' bytes; a `gsize` wraps at 2^64. A step of
--   another thread is an event; a schedule lists the events before each wake-up of a waiting pop, so
--   that a wait is structural recursion on the schedule, and a schedule that runs out is the outcome
--   `blocked`. A read past a chunk is the outcome `overrun`, a failed `g_assert` is `assertion`.
-- - gdata/gdata-types.c, the two conversions of `GDataColor`: Color.antt. Values are `guint16`.
-- - gdata/gdata-parser.c: Parser/Errors.antt (the errors and their messages), Parser/Element.antt (the
--   readers of one XML element or one JSON member), Parser/Numbers.antt (the reader of an integer, and
--   dates), Parser/Escape.antt
--   (`gdata_parser_string_append_escaped`), Parser/Trim.antt (`gdata_parser_utf8_trim_whitespace`).
-- - gdata/gdata-query.c: Query.antt (the fields and setters), Query/Pages.antt (pagination),
--   Query/Uri.antt and Query/Build.antt (the query URI). A class that extends the query passes its own
--   `get_query_uri` as the argument `klass` of `query_uri`, as the class structure does.
-- - gdata/gdata-service.c: Service.antt (`_gdata_service_actually_send_message`,
--   `_gdata_service_send_message`, `_gdata_service_query`) and Service/Errors.antt
--   (`real_parse_error_response`). What the server, the network, libsoup and the authorizer answer is
--   the parameter `Surroundings`. The errors that are set are kept in a list, so that one that is set
--   over another shows; a failed `g_assert` is `none`. Service/Entries.antt has the message that is built
--   and the calls that change an entry (`gdata_service_insert_entry`, `gdata_service_update_entry`,
--   `gdata_service_delete_entry`), Service/Feeds.antt `__gdata_service_query`, with what it leaves in the
--   query, and `gdata_service_query_single_entry`, and Service/Uris.antt `_gdata_service_build_uri` and
--   `_gdata_service_fix_uri_scheme`. The parsers of an entry and of a feed are parameters.
-- - gdata/gdata-batch-operation.c: Batch.antt (the table of operations, `add_operation` and the four
--   calls over it, `_gdata_batch_operation_run_callback`, `run_callback_cb`) and Batch/Run.antt
--   (`gdata_batch_operation_run`, which sends through `_gdata_service_send_message`, and its
--   asynchronous form). The hash table is a function of the id, calls of callbacks are a log, and the
--   idle sources of the main loop a queue.
-- - gdata/gdata-batch-feed.c: Batch/Feed.antt, with the walk over the nodes of a document that
--   gdata/gdata-parsable.c makes. What the classes of the entries and of the feed make of a node is a
--   part of the parameter `Library`, as are libxml and `strtoul`. A NULL pointer that is used, and a
--   failed assertion, are `crashed`.
-- - gdata/gdata-upload-stream.c: Upload.antt (the constructor), Upload/Writing.antt (`write_next_chunk`,
--   `wrote_headers_cb`, `wrote_body_data_cb`), Upload/Thread.antt (`upload_thread`) and
--   Upload/Client.antt (the calls of the client, and `gdata_upload_stream_get_response`). A message is what libsoup does with it: the list of its calls
--   while the message is sent, and the answer. A thread that gets no more answers is `blocked`. The
--   client's waits read a list of snapshots of the fields that the thread changes.
-- - gdata/gdata-download-stream.c: Download.antt (`gdata_download_stream_read`), Download/Network.antt
--   (`download_thread` and libsoup's calls), Download/Closing.antt (`gdata_download_stream_close`,
--   `reset_network_thread`) and Download/Seeking.antt (`gdata_download_stream_seek`). What the network
--   thread does while a call waits is the schedule of its pop; a `goffset` is an integer. What a call sees
--   of the message's status, and of a cancellation, is a part of its context.
-- - gdata/gdata-client-login-authorizer.c: ClientLogin/Fields.antt (the lines of a body),
--   ClientLogin/Answers.antt (`parse_authentication_response`, `parse_error_response`, `authenticate`)
--   and ClientLogin/Authorizer.antt (`authenticate_loop`, `set_authentication_details`,
--   `process_request`). What the server and the application answer in turn is a list, on which a login
--   that asks for CAPTCHAs is structural recursion; domains are numbers.
-- - gdata/gdata-oauth1-authorizer.c: Oauth1.antt (`sign_message`), Oauth1/Authorizer.antt (the
--   domains, `process_request`, `is_authorized_for_domain`) and Oauth1/Requests.antt
--   (`gdata_oauth1_authorizer_request_authentication_uri` and
--   `gdata_oauth1_authorizer_request_authorization`, which send through
--   `_gdata_service_actually_send_message`). The hash table of parameters is a list of pairs, and the
--   order of its iteration is a parameter, as are `g_list_sort`, the HMAC, and libsoup's forms.
-- - gdata/services/calendar/gdata-calendar-query.c, gdata/services/contacts/gdata-contacts-query.c,
--   gdata/services/tasks/gdata-tasks-query.c, gdata/services/documents/gdata-documents-query.c: the
--   four classes over the query, in Services/CalendarQuery.antt and the files beside it.
-- - gdata/services/documents/gdata-documents-upload-query.c: Services/DocumentsUploadQuery.antt, over
--   Service/Uris.antt.
--
-- Base.antt has what they share: lists and texts over native numbers, machine words, and C's printf of
-- a number. Below a component stand the files for what is proved about it; Tests has concrete runs.
--
-- A text is a list of numbers, its bytes or its code points as each file says; a NULL string is `none`.
-- A `g_return_if_fail` on the type of an object, and on NULL where the type rules it out, always
-- holds here; the others are branches. Signals that tell of a changed property are left out. Library
-- code is a parameter: of GLib, the URI escaping and the writing of a time (`Glib`, with what the
-- documentation says as `IsDocumented`), the value of a hexadecimal digit, the test for white space,
-- and the reading of a time; of libxml and json-glib, what a node shows of itself (`Element`,
-- `JsonMember`).
--
-- The digits of a printed number are produced with fuel: the numbers are `unsigned int`, and the fuel is
-- eight hexadecimal or ten decimal digits, which is what such a number has at most.
--
-- Not modelled: the parse of entries and feeds, and the classes of single elements, which are planned; the
-- asynchronous forms of the requests of the service and the authorizers, which run the modelled calls in
-- a thread; the session, its logging, and the properties of the proxy and the timeout; and what is memory
-- management or property boilerplate.
pub mod Base
pub mod Batch
pub mod Buffer
pub mod ClientLogin
pub mod Color
pub mod Download
pub mod Oauth1
pub mod Parser
pub mod Query
pub mod Service
pub mod Services
pub mod Tests
pub mod Upload
