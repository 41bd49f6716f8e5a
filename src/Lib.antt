-- ===== src/Lib.antt =====
-- Beast: HTTP and WebSocket over buffers, a library of C++ headers under include/beast. This
-- library models the parts of it that decide what goes over the wire and what is made of it.
--
-- The program. A stream reads octets into a dynamic buffer (core). The HTTP parser finds the end of
-- a header in it, scans its fields, decides how the body is delimited, and hands the body to a
-- derived class (http). After an upgrade the WebSocket stream (websocket) reads a header before
-- each frame, in two parts, and masks the payloads that it exchanges.
--
-- The files, and what they model:
--   Base: the names that the modules share: Boolean tests, lists over native numbers, bit
--     operations
--   Core/FlatBuffer: include/beast/core/flat_buffer.hpp and
--     include/beast/core/impl/flat_buffer.ipp: prepare, commit, consume, reserve, shrink_to_fit,
--     next_pow2, move_from, copy_from. Room: the size of a new block; Queue: the buffer as a
--     queue of octets; Leak: what is deallocated; Laws: the buffer as a dynamic buffer
--   Core/StaticBuffer: include/beast/core/static_buffer.hpp and
--     include/beast/core/impl/static_buffer.ipp: prepare, commit, consume
--   Core/MultiBuffer: include/beast/core/multi_buffer.hpp and
--     include/beast/core/impl/multi_buffer.ipp: prepare, commit, consume, clear, the copy
--     constructor. Sound: what holds of the list between two calls; Prepare, Fill, Commit, Consume:
--     each operation; Queue: the buffer as a queue of octets; Sizes: clear and read_size_helper
--   Core/BufferSequences: include/beast/core/detail/buffer_prefix.hpp and
--     include/beast/core/impl/consuming_buffers.ipp
--   Core/DynamicBuffer: what the streams rely on of a buffer, as an interface; Core/Memory: octets
--     between two offsets
--   Core/Base64: include/beast/core/detail/base64.hpp: encode and decode with their tables
--   Http/Chars: include/beast/http/detail/basic_parser.hpp and
--     include/beast/http/detail/rfc7230.hpp: the tables of characters
--   Http/Scan: include/beast/http/detail/basic_parser.hpp: parse_dec, parse_hex, parse_method,
--     find_eol, find_eom and the others. Eom: the end of a header; Numbers: lengths; Hex: chunk
--     sizes
--   Http/Params: include/beast/http/detail/rfc7230.hpp (param_iter) and
--     include/beast/http/impl/rfc7230.ipp (param_list, ext_list). Print: the text of extensions;
--     RoundTrip: that it is read back; Defined: that every text has a list
--   Http/Parser: include/beast/http/basic_parser.hpp and
--     include/beast/http/impl/basic_parser.ipp: the parser's state, do_header, is_keep_alive,
--     parse_body and the other ways of reading a body, write_eof, maybe_flatten. Framing, Body,
--     Flatten, Valid: their properties
--   Http/Lists: include/beast/http/detail/rfc7230.hpp and include/beast/http/impl/rfc7230.ipp:
--     skip_ows, skip_ows_rev, token_list, opt_token_list_policy, validate_list
--   Http/Outcome: error codes, failed assertions and reads past the end as results, and the
--     derived class that a parser calls
--   Http/StartLine, Http/Field, Http/Fields, Http/Header, Http/Write:
--     include/beast/http/impl/basic_parser.ipp: parse_startline, do_field, parse_fields,
--     parse_header, parse_chunk_header and do_write. Defined, Safe, Loop, Lines, AtLine: that a
--     header is read within it; Resume: headers that arrive in pieces; Valid: what holds of a parser
--     between two calls; Chunk, Data, Last: what is read of a chunk; Length: the
--     body that a field about its length asks for
--   Http/ChunkEncode: include/beast/http/chunk_encode.hpp and
--     include/beast/http/detail/chunk_encode.hpp. Digits: sizes in hexadecimal; RoundTrip: bodies in
--     chunks, as the parser reads them
--   Core/CiEqual: include/beast/core/detail/ci_char_traits.hpp
--   Websocket/Opcode: include/beast/websocket/rfc6455.hpp and
--     include/beast/websocket/detail/frame.hpp: opcodes and close codes
--   Websocket/Endian: include/beast/websocket/detail/endian.hpp
--   Websocket/StreamBase: include/beast/websocket/detail/stream_base.hpp: the state, rd_begin
--     and wr_begin
--   Websocket/Frame: frame_header and write of include/beast/websocket/detail/frame.hpp,
--     read_fh1 and read_fh2 of include/beast/websocket/detail/stream_base.hpp. Accepts: which
--     headers RFC 6455 lets a stream accept; Codec and Sound: that these are the ones read
--   Websocket/Mask: include/beast/websocket/detail/mask.hpp: the optimised routines of both
--     widths. Rotation: one octet at a time; Fast: that the routines agree with it
--   Websocket/Utf8: include/beast/websocket/detail/utf8_checker.hpp: write, finish, check_utf8.
--     CodePoint: the test of one code point; Begun: the front of one; Text: text in one buffer,
--     whose last code point may be cut; Buffers: text cut into buffers; Overlong: overlong forms
--   Websocket/Pmd: include/beast/websocket/detail/pmd_extension.hpp but for inflate and deflate,
--     permessage_deflate of include/beast/websocket/option.hpp, and set_option of
--     include/beast/websocket/impl/stream.ipp. Bits: window bits in decimal; Text and Written: what
--     is read of the texts that are written; RoundTrip, Valid and Agree: the two sides
--   Websocket/Close: close_reason of include/beast/websocket/rfc6455.hpp, its read in
--     include/beast/websocket/detail/frame.hpp and write_close of
--     include/beast/websocket/detail/stream_base.hpp
--   Websocket/Ping: write_ping of include/beast/websocket/detail/stream_base.hpp, and the read of
--     ping_data in include/beast/websocket/detail/frame.hpp
--
-- How code is modelled. An octet is a number below 256 and a buffer a list of them; an integer of
-- w bits wraps around by `% 2 ^ w` where the code lets it. A pointer that moves over memory is the
-- memory from it on, with a result of its own for a read past the end. A function that changes an
-- object returns the object as well. A failed BOOST_ASSERT and std::length_error are `none` in the
-- buffers and the parser's small functions, and `undefined` where it drives a message, as is a read
-- past the input; an error code is an `Option`, or `err` of an `Outcome`. The
-- code after a test that returns early is a function of its own, with clauses for what was tested.
-- The loop of next_pow2 runs on fuel, as much as its argument, which it halves. The loops of
-- parse_fields, and those over folded lines in it, run on fuel, as much as there are octets, of which
-- each line takes two. A step of a list of tokens, parameters or extensions takes a character, and
-- as much fuel as there are characters, and one, is given; a step of the UTF-8 checker takes an
-- octet. The second loop of a multi buffer's prepare runs on one more than the octets that are
-- missing; its first block is large enough. All others recurse on their input. The parser's derived
-- class, the allocator and Boost.Endian are parameters, the last two with the laws that the code
-- relies on.
--
-- Not modelled: the direct parser, which hands its buffers to the derived class, fields and messages,
-- the asynchronous operations and all that drives sockets, the handshake but for the negotiation of
-- permessage-deflate, zlib, the moves and assignments of a multi buffer,
-- and buffer_cat and the other sequences of buffers.
pub mod Base
pub mod Core
pub mod Http
pub mod Websocket
