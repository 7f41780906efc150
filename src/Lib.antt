-- ===== src/Lib.antt =====
-- A verification library for the gateway of the tick data platform: the wire protocol of the
-- producers, the write-ahead log that makes their batches durable, the journal that is rebuilt from
-- the log, and the policies that decide what a batch does to the cursor and when the gateway may
-- acknowledge.
--
-- How the parts interact: a producer sends frames (internal/protocol). The gateway (internal/ingest)
-- decodes a batch, computes the outcome of the batch for the cursor, appends its frame to the log
-- (internal/wal), records it with the outcome in the journal (internal/journal), and answers with an
-- acknowledgement if the disk's state allows one.
--
-- The files:
--   Common, Common/*        shared types and lemmas: Result for Go's (value, error) pairs, lists, bytes
--                           and little-endian words, int64 and int32 as integers with their unsigned
--                           patterns.
--   Golib, Golib/*          the functions of Go's standard library that the code calls, written out
--                           from their standards so that the models run: CRC-32C, SHA-256, UTF-8
--                           validity and hexadecimal printing.
--   Protocol, Protocol/*    internal/protocol/protocol.go. Buffer is the state of `writer` and of
--                           `reader`; Writer and Reader are their methods; Framing is EncodeFrame and
--                           DecodeFrame; Encode is encodePayload and EncodeMessage; Decode is
--                           DecodeMessage and the decoders; Hashes are the hash domains. Ranges says
--                           which values a Go field can hold. FramingLaws, FrameBytes, Transfer,
--                           RoundTrip, Recovery, Canonical, Canonicity and Laws are proofs.
--   Wal, Wal/*              internal/wal. Entry is the layout of an entry (in Append) and parseEntry;
--                           Header is writeHeader's layout, parseHeader and matchesIncompleteHeader;
--                           Segment is parseEntries, isPartialTrailer, encodeTrailer and
--                           verifySealedBytes; Store is Append, Sync and loadActive on the state of a
--                           started store. EntryBytes, ParseEntry, CanonicalEntry, Chain, CrashTail,
--                           Recovered, Growth, Durable, Appended and Termination are proofs.
--   Journal, Journal/Laws   internal/journal/journal.go: the two tables and the operations on them.
--   Ingest, Ingest/*        internal/ingest: Config is config.go, Cursor is cursor.go, Disk is disk.go.
--                           Of gateway.go, Session is the lease (validateHello, startSession,
--                           sessionActive, touchSession, releaseSession), Gateway the state, Reconcile
--                           is reconcileJournal with what it calls, and Accept is acceptBatch with
--                           findWALIdentity; Wire is readFrame, writeMessage and writeError, and
--                           Connection is HandleConn. CursorLaws, DiskLaws, SessionLaws, SessionStart, Generations, Replay,
--                           Rebuilt, Ownership, Recorded, Answered, Storable, Durability, LogGrowth, InStep,
--                           Later, Resent, Poisoning, WireLaws, Acknowledged, ConnectionLaws and ConnectionEnd
--                           are proofs: Replay is the abstract view of the journal, a replay
--                           of the log; Events is what reaches a gateway; Answered and Recorded
--                           say what an answer of acceptBatch is.
--   Continuity, Continuity/* internal/continuity/reducer.go: Overlap is overlapLength with
--                           equalSuffixPrefix; OverlapLaws are proofs.
--   */Tests, Ingest/GatewayTests, Ingest/ResentTests, Ingest/ConnectionTests,
--   Ingest/Samples
--                           concrete data and the theorems at it.
--
-- Conventions: an unsigned Go integer is a natural number, with its wrap-around written out where the
-- code can reach it; an int64 or int32 is an integer; a byte is a natural number, a string and a byte
-- slice are lists of them. Errors are constructors; the text of one that is sent is an argument. Clock readings, what the
-- operating system does to a write, a sync, a stat or a truncation, the readings of the disk usage and
-- whether SQLite carries a transaction out are arguments. The journal's tables are a row and a list of
-- rows under the keys of the CREATE TABLE statements. A mutex makes the code that holds it one step: a
-- call of acceptBatch, of startSession and of reconcileJournal is a function of the gateway's state.
-- Its hooks are arguments, too: each either returns nil or an error. A connection is the list of the bytes
-- that it delivers before it ends, and the messages that reach the other side whole are its result; what
-- the outside does in a round of its loop is an argument for the round, and the loop is a recursion on the
-- list of them.
--
-- Fuel: the loop of parseEntries runs on the number of bytes of its data. A round takes the bytes of
-- an entry, which are at least 140, so that a log of entries and a cut tail never exhausts it; the
-- theorems that say what is read back from a log state the result itself.
--
-- Not modelled: of internal/ingest/gateway.go the listener, connections that interleave, Status and the
-- text of the last error; sealing, the directory of sealed segments and the prune anchor of
-- internal/wal; opening and closing of SQLite; the rest of internal/continuity, which emits the rows of
-- internal/protocol/replay.go; that file, replay_publication.go and the canonical JSON; and the other
-- parts downstream of the log (internal/retention, archive, publication, delivery, parquet, r2, httpapi,
-- operations, credentials, config, app and cmd).
pub mod Common
pub mod Golib
pub mod Protocol
pub mod Wal
pub mod Journal
pub mod Ingest
pub mod Continuity
