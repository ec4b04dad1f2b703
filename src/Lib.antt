-- ===== src/Lib.antt =====
-- Private Communication: the PCBK backup format, the restoring of a backup, and the server's protocol.
--
-- A backup file is a prelude (magic, version, flags, the length of the clear header), the clear header
-- in canonical CBOR, a tag of 32 bytes over both, and encrypted records, the last of which is the
-- manifest. The passphrase gives a root key by Argon2id; HKDF derives from it the key of the tag and
-- the key that wraps the content key; the records are encrypted under the content key with nonces made
-- of the header's prefix and the record's index, and with the record's header as additional data. The
-- restore pipeline reads a file back: it checks the prelude and the tag, unwraps the content key,
-- takes the records one by one, collects objects that arrive in chunks, and compares what it found
-- with the manifest.
--
-- The server keeps a WebSocket connection for each user. A connection is challenged with a nonce and
-- signed in by a signature of it; then it may send messages, which reach the recipient's socket or
-- wait in Redis, acknowledge them, and pass on the signals of calls. Each connection has rate limits;
-- the session manager maps users to sockets, and a map of pairs says who is in a call with whom.
-- Attachments are uploaded in encrypted chunks, completed with a signed manifest, and read by their
-- two users. A request is signed like a challenge; a call that the app lost can be recovered, and a
-- page can be asked for its preview.
--
-- The files, and the code that they are about:
--   Common            shared names: tests, lists on native numbers, results, texts, integers
--   Pcbk/Constants    packages/pcbk-core/src/constants.ts
--   Pcbk/Value        validation.ts, and the values that the CBOR decoder may return
--   Pcbk/Preamble     prelude.ts (parsePrelude, readUint32LittleEndian), and the two functions of
--                     header.ts that write what it reads
--   Pcbk/Cbor         cbor.ts (canonicalizeForCbor, compareUtf8Keys, encodeCanonicalCbor, decodeCbor)
--   Pcbk/ClearHeader  header.ts (building, validating, authenticating, wrapping)
--   Pcbk/Subtle       hkdf.ts, argon2.ts and the imports of keys
--   Pcbk/Record       record-encryption.ts
--   Pcbk/RecordHeader record-header.ts
--   Pcbk/Manifest     manifest.ts (validateManifestPayload, assertManifestMatchesExpected), and in
--                     Builder the state of createManifestBuilder
--   Restore           frontend/src/services/backup/restore/pipeline.ts: Objects has the maps of chunked
--                     objects, Records the switch over a record's type, Loop parsePcbkBackupBytes;
--                     Payloads is about validators.ts beside it
--   Backend/Sessions  backend/src/services/session-manager.ts
--   Backend/Redis     backend/src/services/redis.ts: keys, presence and calls; Backend/Queue has the
--                     queues of messages and receipts of the same file
--   Backend/...       backend/src/websocket/connection-handler.ts: Limits (the rate limits), Calls (the
--                     pairs and their timers), Messages, Signals and Auth (the handlers), Connection
--                     (handleConnection), World (what they share); Events is types/websocket.ts
--   Backend/Attachments  backend/src/routes/attachments.ts (Routes, Downloads, Chunks),
--                     services/attachments.ts (Store, Cleanup) and utils/attachments.ts (Policy)
--   Backend/Requests  backend/src/middleware/request-auth.ts, and the chunk route behind it
--   Backend/Recovery  backend/src/routes/call.ts, and the two functions of redis.ts that it calls
--   Backend/LinkPreview  backend/src/routes/link-preview.ts
--   Tests             runs at concrete inputs
--
-- A function that throws returns a result with its message, without the values that a template puts
-- into it. A byte string is a list of numbers, a JavaScript number an integer or any other double, and
-- an object a list of its entries. Asynchronous calls return their result. The loop over the records
-- takes fuel, and the file's length is enough of it, since each record takes four bytes or more.
--
-- A handler of the server takes the shared state and returns the new one. Users are texts, sockets and
-- times are numbers, a text that is sent is the value that is made into it. A handler runs as one step
-- with one reading of the clock; the life of a connection is a sequence of such steps between which
-- the shared state may change in any way.
--
-- Parameters: the CBOR codec (cbor-x), the cryptography (Web Crypto, hash-wasm, Unicode
-- normalisation), localeCompare, and the abort signal, which is an oracle that is asked at each look;
-- the Redis client with JSON's two functions, the disk, hashes, the schemas (zod), the verification of
-- a signature (Node's crypto), new identifiers, and the limits and times that the environment sets;
-- JavaScript's URLs, numbers and regular expressions, net.isIP, and fetch with the redirects that it
-- follows.
-- The pipeline is stated for any validators of the payloads that the records carry; those of
-- attachments and remote media are instances.
--
-- Not modelled: the progress callback, which only observes, and the outer catch of the pipeline, which
-- wraps the errors of other modules; passphrases; the export of a backup and the stores that a restore
-- writes to; the server's figures for the dashboard, the other HTTP routes, push subscriptions, the
-- heartbeat of a connection, and what other handlers do while one awaits Redis; the user interface,
-- the service worker, the dashboard page, scripts and containers, which are presentation and glue.
pub mod Backend
pub mod Common
pub mod Pcbk
pub mod Restore
pub mod Tests
