-- ===== src/Lib.antt =====
-- Orpal: end-to-end encrypted messages and files between contacts, over WebRTC channels that
-- boards only help to set up. The core is packages/orpal-core/src, which a web application drives.
--
-- The parts modelled. PendingQueue is messaging/pending-queue.ts: the rows of the durable send
-- queue, the in-memory store and the metrics. DeliveryWorker is messaging/delivery-worker.ts,
-- which keeps retrying what the queue holds until the recipient acknowledges it: its timers, its
-- set of messages in flight, and its methods, each cut at its `await`s, so that a schedule of the
-- event loop is a list of moves. Frames is messaging/frames.ts, the envelope of all that goes over
-- a channel, as JSON values (module Json): `encodeAppFrame` is Frames.encode_app_frame and
-- `decodeAppFrame` is Frames.Decode.decode_app_frame. FileTransfer is transfer/file-transfer.ts:
-- the chunks of a file, the sink that puts them together again (FileTransfer.Sink),
-- `sendWithRetry` and `sendFile` with its pool of workers (FileTransfer.Sender), and the
-- `FileReceiver` class (FileTransfer.Receiver), whose transfers are objects on a heap, since a
-- waiting method holds on to its object after the file's id is gone. Contacts is
-- contacts/contact.ts, with Contacts.Bundle for contacts/contact-export.ts: the cards that carry a
-- contact's keys and their signed binding, and the import that runs every entry through the card's
-- checks. ConversationStore is persistence/conversation-store.ts: contacts and messages by key,
-- and the listing of a conversation. ContactRegistry is messaging/contact-registry.ts, the
-- client's records of contacts. ConnectionManager is messaging/connection-manager.ts: the
-- connections and the promises of those who wait for one, with the calls out as a list of events.
-- Keys has the stored keys of identity/secure-store.ts and Orp, the record of what the core calls
-- of the ORP library, which is a parameter of all that uses it; Keys.Toy is one such library, on
-- which the examples run. MigrationManager is messaging/migration-manager.ts: a device that
-- replaces its keys, and with MigrationManager.Incoming and MigrationManager.Challenges its
-- contacts, who learn of it. Sealed is messaging/sealed.ts. Client is messaging/orpal-client.ts:
-- Client.Boards its boards, Client.Contacts the contacts, blocks and requests, Client.Links the
-- connections that boards make, Client.Incoming the frames that come in (`processFrame` is
-- Client.Incoming.process_frame), Client.Sending and Client.Messages the texts on their way out
-- and the messages in the store, Client.Migration the key migration, Client.Backup the restore of
-- a backup (`restoreBackup`); Client.Events puts calls and texts that come in into a sequence.
-- IceConfig is apps/web/src/orpal/ice-config.ts, the form of the ICE servers in the settings; a
-- text is there the list of its code units, and an error of the form is the message's kind and
-- number. Dict and NumberMap are the `Map` of the language with texts and with numbers as keys,
-- Base.KeySet its `Set` of texts; Base has the tests, the lists, the tasks under way and the
-- library names that the parts share.
--
-- Numbers. Times, counts, sizes, indices and delays are natural numbers, which the program's are
-- where it computes with whole milliseconds and bytes; a number on the wire is a natural number
-- too, and a chunk size is positive. The decoder of messaging/frames.ts lets any number through
-- where it tests `typeof`: a negative or fractional size, count, index or time of a frame that
-- comes in is not modelled, nothing is claimed of it, and the test `chunk.i < 0` of `onChunk` has
-- no counterpart. The growth factor of the backoff is a natural number, its jitter and the random
-- number are fractions. The loop of `sendWithRetry` runs on fuel, one more than the retries, which
-- is shown to be enough; every other function is structural.
--
-- Interaction. The worker calls the store's operations and gets rows back; the store performs an
-- awaited operation in one move and the method goes on in a later one. The attempt at delivery is
-- a parameter: a move settles it either way. Timers fire in any order, which covers every order of
-- their delays. The sender's frames are those of Frames; whether each is acknowledged is given by
-- the moves. The base64 and the hash of the libraries are parameters, as is the ORP library's
-- check of a binding's signature. The client holds the states of its parts and calls their
-- operations; a method of it runs from its start to its end or to a wait for a connection, behind
-- which what follows is a function of its own, and so does the worker's `acknowledge` when the
-- client calls it. What the client emits, sends or hands to a file receiver is a list of effects.
-- The text layer of JSON is a parameter of Sealed and, in the record Client.Outside, of the
-- client: `parse_json` is `JSON.parse`, `to_bytes` and `of_bytes` are the bytes of a value's text.
--
-- Not modelled: the user interface, the connection test and the JSON editor of the ICE settings,
-- and the browser's interfaces, the Android shell, the ORP protocol library in orp-ref, whose
-- operations the core calls, the text of JSON values, and, so far, the envelope of a contacts
-- bundle, of the client the sending of a file, the making and reading of a backup, the start and
-- the end and the loopback self-test, and the backup format, key storage and broker parts of the
-- core. The order of a client's updates of one message (`enqueueUpdate`) does not show where a
-- method runs to its end.
pub mod Base
pub mod Dict
pub mod NumberMap
pub mod Json
pub mod PendingQueue
pub mod DeliveryWorker
pub mod Frames
pub mod FileTransfer
pub mod Contacts
pub mod ConversationStore
pub mod ContactRegistry
pub mod IceConfig
pub mod ConnectionManager
pub mod Keys
pub mod MigrationManager
pub mod Sealed
pub mod Client
