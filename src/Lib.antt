-- ===== src/Lib.antt =====
-- libnodecc, a C++ library in the manner of node.js over libuv: buffers, streams, events, HTTP.
--
-- Util.Power and Util.Digits are include/libnodecc/util/math.h and src/util/math.cc (`ipow`,
-- `digits2`, `digits`). Buffer.Number and Buffer.Mutable are `mutable_buffer` of
-- src/buffer/mutable_buffer.cc: a record of the bytes, the capacity and whether there is memory;
-- each method is a function to the new record. Http.Outgoing is `outgoing_message` of
-- src/http/outgoing_message.cc: `http_write` takes the state and the buffers to the new state and
-- the calls of the socket's write; it is over a HeaderCompiler, the virtual `compile_headers`, which
-- Http.Request implements for src/http/request.cc. Http.Chunked is the reader of RFC 7230 and not
-- code of the repository: the theorems on messages are stated by it.
--
-- Stream is include/libnodecc/stream.h: the records Writable and Readable, with a function for each
-- method; what an implementation does in the virtual `_write` and `_end` is a list of changes.
-- Stream.Uv is the implementation of include/libnodecc/uv/stream.h over libuv, which is third-party:
-- the result of `uv_try_write` is an argument of each write, and the requests under way are a queue.
-- Util.Uri is `uri::component_decode` of src/util/uri.cc, with `none` for an exception.
-- Buffer.Shared is `buffer` of src/buffer/buffer.cc with its counted blocks: the store has a list of
-- all blocks ever allocated, each with its bytes and its count, and the buffers of the program by
-- number; a count of 0 is a freed block, and `none` a read of one. Buffer.Shared.Runs has the same
-- operations on byte strings, which the buffers refine.
-- Buffer.View is `buffer_view` of src/buffer/buffer_view.cc over the same kind of memory as
-- Buffer.Hashed; `memchr` and `std::search` are written out.
-- Util.Bits has masks and shifts as arithmetic. Util.Base64 is src/util/base64.cc: `encode` and
-- `decode` take the address of their input as an argument, 0 being null, and each loop what is left
-- of the input; the number of rounds of the loop over words is the distance of its pointers, divided
-- and rounded up.
-- Util.Base64.Reference is RFC 4648 and not code of the repository.
-- Util.Crc32c is src/util/crc32c.cc in little endian, with the tables of
-- src/util/crc32c_8x256_tables.cc entry by entry; a round of its loop over words is two halves, and
-- the numbers of rounds are again distances of pointers. Util.Crc32c.Reference is CRC-32C by its
-- polynomial and not code of the repository.
-- Http.Incoming is `incoming_message` of src/http/incoming_message.cc: one function for each callback
-- of the HTTP parser, which is third-party, over the record of the fields, with the events that it
-- emits. Http.Incoming.Exchange puts the callbacks in the order of a whole request. Http.Url is
-- `url::_parse_params` of the same file, a loop over the query, and Http.Url.Object
-- the class around it, which parses when it is first asked. Http.Headers is the map of either.
--
-- Http.Server is src/http/server.cc: the record of a response, its head (which fills a
-- HeaderCompiler too) and, in Http.Server.Handler, what a complete head of a request leads to.
-- Http.Server.StatusCodes is the table of src/http/_status_codes.h; Http.Server.Fields is a reader of
-- RFC 7230 and not code of the repository. Http.DateBuffer is src/http/_http_date_buffer.cc; what
-- `gmtime_r` gives is an argument, and Http.DateBuffer.Races has the threads that share the buffer
-- as a step relation.
--
-- Events is src/events/emitter.cc and include/libnodecc/events/emitter.h: the handlers are nodes with
-- pointers, each of them there or deleted, and the use of a deleted one is a fault; a callback is a
-- program on the same emitter. Events.Spec has a list of handlers for each symbol instead. A walk
-- along the links has one round more than handlers were ever made, which is enough, since no list
-- is longer; the rounds of an emit, to which callbacks may add handlers for ever, and the nesting
-- of calls are arguments.
--
-- Channel is include/libnodecc/channel.h, and Channel.Async is
-- include/libnodecc/util/async_channel.h with src/uv/async.cc: the threads that send and the thread
-- of the loop as a step relation, over what libuv documents of `uv_async_send`.
--
-- Object is include/libnodecc/object.h: all objects that were ever made, by number, the list of
-- the shared_ptrs, and the calls of the virtual `_destroy` that are running, the innermost first;
-- what a program does in a `_destroy` are steps between its beginning and its end.
--
-- Util.Fnv is include/libnodecc/util/fnv.h for a size_t of 64 bits, and Buffer.Hashed the trait of
-- include/libnodecc/buffer/_hashed_trait.h, over a memory that is a function from addresses to bytes.
--
-- A `size_t` is a number below 2 ^ 64, with each wrap written out where a wrap can matter. What the
-- compiler and platform supply (`__builtin_clz`, the logarithm, the branch of the preprocessor) is
-- the record Platform; Util.Sample is one. Allocations succeed, and the sizes of objects in memory
-- add up without a wrap. `none` is a fault: a division by zero, or a read or a write
-- out of bounds.
-- `ipow` runs 64 rounds, one for each bit of its exponent, and `emit` 64, since a divisor below
-- 2 ^ 64 in a base of 2 or more has at most 64 digits. The reader of chunks takes one unit of fuel
-- for each chunk and one for the end.
--
-- In the streams and messages, handlers run behind the call that emits their event, not inside it.
--
-- Not modelled: the event loop, sockets, files and threads, since they are I/O or the platform,
-- sha1, which is adapted from another library, callbacks, which are templates over storage, the
-- strings of src/buffer/string.cc, and the server's list of clients.
pub mod Prelude
pub mod Util
pub mod Buffer
pub mod Stream
pub mod Events
pub mod Channel
pub mod Http
pub mod Object
