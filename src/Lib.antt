-- ===== src/Lib.antt =====
-- The bridge between Matrix and Meta's messengers: the protocols that it speaks to Meta's
-- servers, the state that it keeps about them, and the identifiers under which it knows their
-- messages.
--
-- The parts and how they interact. The MQTT socket of pkg/messagix builds its packets with the
-- package byter, which reads and writes structs by reflection, and with the packet bytes of the
-- package packets; a packet that arrives is read by Response.Read into one of the response
-- structs. A request registers a channel with the response handler and waits on it for its
-- answer. The sync manager asks the server for what is new in a database, from the cursor that it
-- keeps for it. What the server sends then are steps, which the lightspeed decoder runs to make
-- rows of tables; WrapMessages puts together the rows that belong to a message. The realtime
-- gateway (pkg/messagix/dgw) is a second socket with frames of its own. pkg/metaid makes and
-- parses the identifiers that the bridge stores.
--
-- The files, with paths of the repository.
-- - Prelude and its children: shared names, lists, texts as lists of bytes, outcomes of Go calls,
--   bits, association lists. Word: machine words and their bytes. Strconv: the decimal numbers of
--   strconv as the standard library documents them.
-- - Byter, Byter/Vlq, Byter/Integer, Byter/Struct: pkg/messagix/byter/byter.go, read.go,
--   write.go. reflect's view of a struct is a list of fields with their tags and values.
-- - Packets: pkg/messagix/packets. Mqtt, Mqtt/Calls: request.go, payload.go, response.go and the
--   response structs of events.go in pkg/messagix.
-- - Pending: pkg/messagix/responsehandler.go, and SafePacketID of socket.go. A channel is a
--   number into a heap; an operation under the lock is one step. A run does each operation before
--   the next begins, and ends at a send that has to wait.
-- - Sync, Sync/Socket: pkg/messagix/syncManager.go. The recursion of SyncSocketData runs over the
--   list of the server's replies, so it needs no fuel.
-- - Dgw, Dgw/Codec: pkg/messagix/dgw/frames.go. Dgw/Reader, Dgw/Events: two of the goroutines of
--   readLoop in dgwsocket.go.
-- - MetaId, MetaId/Media, MetaId/Message: pkg/metaid/ids.go, mediaid.go. Platform:
--   pkg/messagix/types/client.go.
-- - Lightspeed, Lightspeed/Rows, Lightspeed/Decode: pkg/messagix/lightspeed/decode.go,
--   lightspeed.go. The steps are JSON values and the tables lists of rows; Decode is structural
--   recursion over the steps, so it needs no fuel. A map is a reference into a heap of maps.
-- - Tables and its children: the structs of pkg/messagix/table, each a schema of its fields with
--   their kinds and tags, with LSTable in Tables/Registry and SPTable in Tables/Procedures, from
--   table.go.
-- - Wrapped and its children: WrapMessages of pkg/messagix/table/wrappedmessage.go on these
--   tables, and ToInsert of messages.go. The two fields of a wrapped message that other packages
--   set are not there.
-- - Epoch: GenerateEpochID of pkg/messagix/methods/methods.go, one call at a time as the mutex
--   has it.
-- - Bitmap: Update of pkg/messagix/crypto/bitmap.go.
-- - Tests: runs at concrete inputs.
--
-- Bounds and fuel. A uint8, uint16 or uint32 is a number reduced by its modulus where the source
-- wraps; an int is its 64-bit pattern where its sign matters. The loop of EncodeVLQ runs on fuel,
-- ten rounds, since a number below 2 ^ 63 has at most nine groups of seven bits. The loop over a
-- gateway message runs on fuel, and as many rounds as the message has bytes are enough where it
-- ends. How long a slice the run time can make is a parameter of Bitmap.
--
-- Outside the model: encoding/json, whatsmeow's JIDs, and the server enter as parameters;
-- dialling, timers, logging and goroutine scheduling are left out; so are bloks, the message
-- conversion, the connector and the database, which the other packages hold. In the decoder, a
-- float64 is an element of a parameter, the contents of a JSON object are not kept, and two
-- appends to one array make two arrays, also where Go lets them share their last place; how fmt
-- prints a key of a map that is no string is a parameter that gives a text, so a map that
-- contains itself is not printed. In byter, a number of variable length goes into a field that
-- holds it, as the uint32 fields of the program do.
pub mod Prelude
pub mod Word
pub mod Byter
pub mod Packets
pub mod Mqtt
pub mod Dgw
pub mod Strconv
pub mod MetaId
pub mod Pending
pub mod Platform
pub mod Sync
pub mod Tests
pub mod Lightspeed
pub mod Tables
pub mod Wrapped
pub mod Epoch
pub mod Bitmap
