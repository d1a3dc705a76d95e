-- ===== src/Lib.antt =====
-- nanozap: a logger for Go that writes in the background.
--
-- A call of the logger (nanozap.go) puts a message into a ring of buckets (randring.go). One
-- background loop takes messages out, checks their level, and has the core (zapcore/core.go) encode
-- them (zapcore/json_encoder.go, over buffer/buffer.go) and write them, usually to a log file that is
-- buffered and rotated by size (zaproll/).
--
-- Which file models which part:
--   RandRing        randring.go: newRandRing, Push and TryPop on a record of the indices and buckets;
--                   RandRing/Interleave splits both into their atomic operations (claim and store of
--                   a producer, check_guard and take_bucket of the consumer) under a step relation
--   Logger          nanozap.go: the logging calls, check, and writeLoop, turn by turn; Logger/Pool is
--                   bodypool.go with the callers and the loop that share its messages, step by step;
--                   Logger/Life is startLoop, Close and the select of the loop, under a step relation
--   Zapcore/Level   zapcore/level.go; AtomicLevel is level.go of the root package
--   Zapcore/Entry   zapcore/entry.go: CheckedEntry with AddCore, Should and Write; Entry/Pool is
--                   references to checked entries and the pool that Write gives them back to
--   Zapcore/Core    zapcore/core.go: ioCore
--   Zapcore/Encoder zapcore/encoder.go: the calls of ObjectEncoder and ArrayEncoder as trees, the
--                   configuration and what the encoders take from Go's library; Encoder/Standard has
--                   the standard encoders of levels, times and durations
--   Zapcore/Json    zapcore/json_encoder.go: separators, keys, values, EncodeEntry; Json/Escape is
--                   safeAddString, Json/Reader an independent reader of JSON strings, and
--                   Json/Printer a recursive printer of the calls; Json/Parser is a parser of JSON
--                   after RFC 8259, Json/Meaning says which JSON value the calls stand for, and
--                   Json/Parsed and Json/RoundTrip read the printed text and an entry back;
--                   Json/OneLine is about line feeds in the text of an entry
--   Zapcore/Memory  zapcore/memory_encoder.go: the encoder into Go maps, on a heap; Memory/Tree is the
--                   nested value it is meant to keep
--   Zapcore/Field   zapcore/field.go: AddTo and Equals; Zapcore/Failure is zapcore/error.go
--   Fields          field.go, and error.go of the root package; Fields/Arrays and Fields/Slices are
--                   the constructors and the marshalers of array.go
--   Zapcore/WriteSyncer  zapcore/write_syncer.go
--   Buffer          buffer/buffer.go
--   Zaproll/BufIo   zaproll/bufio.go; Zaproll/Config is config.go, Zaproll/Backup is backup.go, and
--                   Zaproll/Rotation is zaproll.go
--   System          the logger over the core, the JSON encoder and a rotation, put together;
--                   System/ReadBack reads the lines of the log files with the JSON parser
--   Base            Boolean tests, lists with native indices, signed integers, int64 words, bit masks
--
-- How the code is modelled. Bytes and indices are native numbers; an index of the ring wraps at 2^64
-- and a size of the configuration at int64. A panic of Go is a result: `none` for an index out of
-- range in the ring, `panic` where backups are listed. The standard library's container/heap, the
-- io.Writer of the buffer, the parser of times and the clock are parameters; their documented
-- contracts are the records HeapPackage and IsWriter and the hypothesis LowersAscii; PrintsSolid,
-- PrintsLines and PrintsJson are what is used of the printing of floats and of encoding/json. A marshaler and a user's
-- encoder are the calls they make on the encoder.
--
-- Fuel. The loop of bufIO.write has three turns, of which the last only looks; the loop that removes
-- backups has one more than there are backups; the loop of safeAddString has the length of the text,
-- since every turn takes a byte; a number of 64 bits has at most twenty digits; the JSON parser
-- takes at most two calls for each byte.
--
-- Not modelled: mutexes, the pools of buffers and encoders (what comes out of one is reset first),
-- the capacity of buffers and the one that listBackups asks for; what Go's library prints of
-- floats, times, base64 and reflected values, which is a parameter, as are reflect.DeepEqual and Go's
-- equality of interfaces.
pub mod Base
pub mod RandRing
pub mod System
pub mod Zaproll
pub mod Zapcore
pub mod AtomicLevel
pub mod Buffer
pub mod Fields
pub mod Logger
