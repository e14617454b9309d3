-- ===== src/Lib.antt =====
-- libntech: the containers of libutils, its CSV and its JSON readers and writers, and what makes
-- them correct.
--
-- The library is a set of C modules that share a few conventions: containers hold `void *` items
-- and may own them through a destroy function; memory comes from wrappers of malloc that exit when
-- it fails; sizes are size_t. The containers build on one another: a map starts as an array map and
-- turns into a hash map; the CSV parser returns a sequence; a JSON array or object is a sequence of
-- its children, and is written after it was sorted; threads talk through a threaded queue or deque.
--
-- Prelude: shared names. Prelude/Memory (libutils/alloc.c) has pointers as numbers, NULL as 0,
--   size_t arithmetic modulo 2 ^ 64, and arrays as lists; words that malloc or realloc leave
--   indeterminate stand as NULL. Prelude/Lists and Arrays have list laws over the native numbers,
--   Prelude/Circular a circular array read from its head, Prelude/Bits bitwise operations,
--   Prelude/Order well-founded order.
-- RingBuffer (libutils/ring_buffer.c): the record, RingBufferNew, -Append, -Clear, -Length, -IsFull,
--   -Head, -Destroy and the iterator; Contents has its contents and invariant, Iterate the iterator.
-- Sequence (libutils/sequence.c, sequence.h): Seq and its operations; Search has SeqIndexOf,
--   SeqLookup, SeqBinaryIndexOf, SeqBinaryLookup and SeqAppendOnce, Reverse has SeqReverse, Filter
--   has SeqFilter and SeqRemoveNulls, Sort has SeqSort and SeqSoftSort, with the proofs in Exchange,
--   Scan, Partition, Cut and Sorted; Growth and Ranges prove what appends and ranges do.
-- Csv (libutils/csv_writer.c, csv_parser.c): Writer has CsvWriterField, -NewRecord and -Close,
--   Parser the automaton of LaunchCsvAutomata, SeqParseCsvString and GetCsvLineNext, and RoundTrip
--   the proofs. The parser's buffer starts with arbitrary bytes, and a step that would leave it or
--   copy an unterminated string is a fault, `none`.
-- ThreadedQueue (libutils/threaded_queue.c): every function runs under one lock, so that calls of
--   many threads are a sequence of steps; Run compares such a sequence with a list. A wait is a list
--   of wakes, each with the queue as the other threads left it; Wait is about those.
-- ThreadedDeque (libutils/threaded_deque.c): the same with pushes and pops at both ends; State has
--   the invariant, Left, Right and Many the two ends, Run any sequence of calls, Wait the waits,
--   Destroy the destruction.
-- Json (libutils/json.c): the elements; Strings has JsonEncodeString, JsonDecodeString and the
--   parser of strings, Numbers the automaton of JsonParseAsNumber, Parser the mutual parsers of
--   arrays and objects, JsonParse and JsonParseAll, Writer the compact and the indented printer, Sort
--   JsonSort and JsonWriteCompact and JsonWrite, which sort what they write, Objects JsonObjectGet
--   and what is kept of the keys. Progress is about the end of the parsers, RoundTrip and
--   Sort/Printed about reading what the printers write.
-- Version (libutils/version_comparison.c): CompareVersion and CompareVersionExpression; Order has the
--   order of versions and the operators, Written the versions as texts.
-- Stack (libutils/stack_base.c, stack.c): the stack and all its operations; Run compares calls with
--   a list whose top is first.
-- MapCommon (libutils/map_common.h): entries and the functions on keys, with the laws that a map
--   relies on; HashMap (libutils/hash_map.c): the table of chains, its resizing and its operations;
--   ArrayMap (libutils/array_map.c): the array of 14 entries; Map (libutils/map.c): the union of the
--   two with the conversion. HashMap and ArrayMap are compared with finite maps, functions from keys
--   to entries, and Map uses only what is proved of them.
--
-- A destroy function is code of the client, so an operation that calls it returns the list of the
-- pointers that it destroys, in order. Comparison, filter, copy and hash functions are parameters.
--
-- Bounds and fuel: arrays are shorter than the address space (`Fits`: 16 times the capacity is below
-- 2 ^ 64, since a doubled array of 8-byte pointers must be), and operations that append many items
-- ask it of the result. SeqBinaryIndexOf runs on fuel for the length of the sequence and one round,
-- and SeqFilter on fuel for its int length; the theorems show that they end. DestroyRange of the
-- threaded queue and deque takes its fuel as an argument, and the number of items is enough. A hash
-- map has between 2 ^ 5 and 2 ^ 30 buckets, as in the code; `hash & (size - 1)` is bitwise, on 64
-- bits.
--
-- A JSON text is the list of its bytes before the terminator; a parser that reads behind the
-- terminator, or outside it by an index that overflows, ends in `overrun`. The loops of arrays and objects run on fuel, one unit for
-- each byte of the container and one more, and Json/Progress shows that it is never used up. SeqSort
-- runs on fuel for the number of items and one more.
--
-- Lengths that the code stores in an int (SeqSort, SeqFilter, the trim of the CSV parser,
-- StringStartsWith, PrintIndent) go through `int_rounds`, with the wrap-around to a negative number;
-- the theorems that need it ask for fewer than 2 ^ 31 items or bytes. `isspace` is that of the C
-- locale, and `sscanf` that of glibc.
--
-- Not modelled: allocation failure, locks and condition variables themselves, deallocation,
-- assertions. Of JSON: the lookup function of JsonParseWithLookup, merging, copying, comparing,
-- selecting and walking of elements, JSON5 escapes, numbers made from C numbers, files and YAML. The
-- other containers, the string library, templates, files, processes and logging.
pub mod Prelude
pub mod RingBuffer
pub mod Sequence
pub mod Csv
pub mod ThreadedQueue
pub mod ThreadedDeque
pub mod MapCommon
pub mod HashMap
pub mod Json
pub mod ArrayMap
pub mod Map
pub mod Stack
pub mod Version
