-- ===== src/Lib.antt =====
-- nginx-hls-module: an nginx module that serves an MP4 file as an HLS playlist and as MPEG-TS
-- segments. A request opens the file, reads its movie atom into a tree of structures, builds an
-- index of the samples of every track, and writes either the playlist or the segment that the
-- request names: the samples of the segment go as PES packets into packets of 188 bytes, and those
-- into a chain of buffers that nginx sends.
--
-- Files and code:
--   Base      the libraries' names, Boolean tests, lists over the native numbers, and the laws of
--             `|`, `&` and `^` on fields of bits.
--   Run       what a call does: it returns, it faults (an access outside an allocation, a NULL
--             pointer, memory that nothing has set), or it outlasts the rounds it is given.
--   Memory    src/mp4_io.h, read_8 to write_64, on an allocation of bytes at a 64-bit address.
--   Mp4       src/mp4_io.h and src/ngx_http_streaming_module.h, the structures of the atoms and
--             their initial values. A pointer that may be NULL is an Option, an array a list.
--   Reader    src/mp4_reader.h: atom_reader and its lists of rows, and the reader of every atom of
--             a movie up to moov_read.
--   Lookup    src/mp4_io.h: times, samples and key frames in the sample tables.
--   Index     src/mp4_reader.h: trak_build_index and moov_build_index.
--   Bucket    src/output_bucket.h: the chain of buffers. The link to the last buffer is the end of
--             the list.
--   Adts      src/mp4_io.h: the header in front of an AAC frame.
--   Ts        src/output_ts.h: the checksum (Ts/Crc), time stamps (Ts/Pts), packets (Ts/Packet),
--             the two tables (Ts/Psi), and the handling of samples (Ts/Mux). A stream is passed
--             beside the muxer that it belongs to and returned with it; the muxer's fragments hold
--             it for the tables, which read its PID alone.
--   File      src/mp4_io.h: the buffer that mp4_read keeps, the headers of atoms (File/Open), and
--             mp4_open. The pool and the reads of the file are parameters.
--   Segment   src/output_ts.h: get_next, and output_ts in two parts, the choice of the samples
--             (Segment/Select) and the sending of them (Segment/Output). The comparison of a
--             duration in floating point is a parameter.
--   Playlist  src/output_m3u8.h: the segments that a playlist lists, under the same parameter.
--   Options   src/moov.h: the tests on strings, the options of a request (Options/Parse) and the
--             alignment of a time span to key frames (Options/Split). The C library's parsing of
--             numbers is a parameter.
--   Handler   src/ngx_http_streaming_module.c: the settings and the answer to a request, which calls
--             File, Playlist, Segment and Options. The results of nginx are a part of the request.
--   Tests     the theorems at concrete inputs.
-- Names are those of the source, without the underscore at the end of a field.
--
-- Numbers have their width: sums and shifts that can wrap are taken modulo 2^32 or 2^64, and
-- differences of addresses and times likewise. An int that the source bounds is a number; a
-- size in `write_packet` that an int does not hold is a fault.
--
-- Loops over tables and lists recurse on them. The loop of atom_reader, the descent of the atom
-- tree, the conversion to start codes and the audio loop take a number of rounds: each round moves
-- on by at least 8 bytes for atoms whose sizes do not wrap, by 4 bytes for units and by 1 for audio,
-- so that the bytes of the input are enough. The loop of write_packet recurses on the packets that
-- are reserved for it: one more or one less than is needed is a fault.
--
-- A file is opened with a round for each atom up to the media data; the loop of output_ts takes one
-- for each sample.
--
-- Not modelled: the text of a playlist, the counter of views and the log, which are printing; the
-- registration of the module and the sending of headers and buffers, which are calls of nginx; the
-- functions that free memory; failing allocations, but for the buffer of mp4_read; structures of
-- fragmented files, which no function uses; sample_entry_assign, get_filesize and remove_path, which
-- no modelled function calls.
pub mod Base
pub mod Run
pub mod Memory
pub mod Mp4
pub mod Reader
pub mod Lookup
pub mod File
pub mod Index
pub mod Bucket
pub mod Adts
pub mod Ts
pub mod Segment
pub mod Options
pub mod Playlist
pub mod Handler
pub mod Tests
