-- ===== src/Lib.antt =====
-- logme is a C++ logging library. A record passes a channel, which hands it to its backends; a
-- file backend appends its bytes to a queue of buffers, which a writer thread takes and writes
-- to the file; other backends keep their lines in memory; the configuration sets the sizes and
-- times of all of them. This library models the parts that decide what happens to a record's
-- bytes, and proves what they promise.
--
-- - Buffer (logme/source/Buffer, logme/source/MemoryUsageTracker.cpp): Buffer/Data.antt is
--   DataBuffer with its bytes, Buffer/Data/Usage.antt the charges to a MemoryUsageTracker.
--   Buffer/Queue is BufferQueue.cpp: State.antt its options, counters and members, Pool.antt
--   where buffers come from and go to (TryTakeFreeBuffer, TryCreateBuffer, ReleaseBuffer,
--   DecayFreeLocked, MaybeGrowAdaptive), Lifecycle.antt the constructor and the destructor,
--   Ops.antt Append, PublishCurrent, PublishCurrentIfMatches, PrepareSoftFlushCurrent,
--   TakeReady, Recycle and the others. Buffer/Queue/Stream.antt is the abstract view of a queue,
--   its bytes in order; Invariant.antt its well-formedness, kept by each operation in the
--   modules below it; History.antt the interleavings of loggers and writer.
-- - Text (logme/source/Utils.cpp): TrimSpaces, ToLowerAsciiInplace and ReplaceAll (Text/Replace,
--   whose loop runs on fuel: one round more than the text has bytes is enough where the
--   replacement is shorter than what it replaces), with the functions of the standard library
--   that these and the configuration go through (find, ends_with, rfind, to_string, strtoull).
-- - Config (logme/source/Config/TimeIntervalValue.cpp, ByteSizeValue.cpp): ParseSmartValue and
--   FormatSmartValue in SmartValue.antt, the two tables of suffixes with their entry points in
--   Units.antt.
-- - Backend (logme/source/Backend/RingBufferBackend.cpp, BufferBackend.cpp): Ring.antt keeps the
--   last records in a list, Growing.antt the output in one vector; the capacity of a string and
--   of a vector after reserve are functions that the definitions take, since the standard leaves
--   them open. The loop that drops lines has one round more than the vector has bytes.
-- - Obfuscation (logme/source/Obfuscate.cpp, FileBackend::AppendObfuscated of
--   logme/source/Backend/FileBackend.cpp): Bytes.antt and Cipher.antt are ChaCha20, which
--   Tests/Obfuscated.antt checks against RFC 8439; Record.antt the encryption and decryption of
--   one record and the generator of nonces; File.antt DeobfuscateLogFile on the bytes of a file,
--   its loop with more rounds than bytes as fuel; Line.antt Logger::DeobfuscateRecord. The clock
--   and the address that seed the generator are arguments, and so is what an uninitialised array
--   holds. File names, failures of reads and writes, and the replacement of the input file are
--   left out.
-- - Channel (logme/source/Channel.cpp, ReentryGuard.cpp): Reentry.antt is the guard against
--   displaying on a channel twice, with its small and its large stack; State.antt a channel's
--   links, backends and flags; Display.antt Channel::Display, with the logger's look-ups, the
--   filters, Context::Apply and the backends as arguments, and fuel for the depth of the calls
--   through links. ThreadNames.antt and Shortener.antt are the names of threads and the
--   replacement of prefixes. Of Backend::Freeze the flag is modelled. Channels are displayed on
--   by one thread, while nothing changes them.
-- - Logger (logme/source/Logger.cpp): Sorted.antt is std::lower_bound on vectors in order;
--   Filters.antt the lists of blocked, allowed and reported subsystems with the test of a record
--   in DoLog, against the sets of Filters/View.antt; Levels.antt the levels of subsystems,
--   against a map; Snapshots.antt the protocol by which readers take the published levels
--   without a lock, each access to a shared variable a step of its own. Collapse.antt is
--   Context::ApplyCollapse (logme/source/Context.cpp), with the regular expression as the
--   function that removes its matches.
-- - Control (logme/source/Control/EnvironmentControl.cpp, ControlPolicy.cpp): Policy.antt,
--   Split.antt and Environment.antt, where the answer of Logger::Control to a command is a
--   parameter, a function of all that was done before, and the environment another.
-- - File (logme/source/File/RetentionCleaner.cpp, FileTimeRotationPolicy.cpp): Retention.antt,
--   with the entries of the directory, the regular expression and the outcome of a removal as
--   parameters; Rotation.antt, with localtime and mktime as parameters, of which
--   Rotation/Linear.antt says what is relied on.
-- - Format (logme/source/FastFormat.cpp): Fast.antt is the analysis of a format and its
--   execution without vsnprintf; Fast/Printf.antt says what printf prints for the conversions
--   that it knows, in a definition of its own; what it prints for a null pointer is a parameter.
--   The caches of entries per thread and per context are left out.
-- - Tests: runs at concrete inputs.
--
-- Each operation is a function on an explicit state: what the C++ function does while it holds
-- its locks. An object is a record; a pointer to a DataBuffer that is compared is the number of
-- its object. A size_t or a uint64_t is a natural number below 2^64, with add64 and sub64 where
-- the source adds and subtracts. A null pointer and a failure are none. Bytes and characters are
-- natural numbers. The two callbacks to a cache of buffers belong to the caller of the queue,
-- and so are functions in the options; the memory tracker that one of them is given is the same
-- for the life of a queue and is left out. Counters are modelled as they are when FILE_CNT
-- counts.
--
-- Loops are structural recursion on the lists that they shorten. decimal, behind to_string, and
-- hexadecimal take n + 1 rounds of fuel, more than n has digits.
--
-- Not modelled: clocks, threads and locks themselves, file and socket I/O, the console and the
-- event log, the JSON reader (a copy of another project) and TLS.
pub mod Prelude
pub mod Buffer
pub mod Backend
pub mod Channel
pub mod Obfuscation
pub mod Text
pub mod Config
pub mod Control
pub mod Tests
pub mod File
pub mod Format
pub mod Logger
