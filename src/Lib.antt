-- ===== src/Lib.antt =====
-- A verification library for K3ncrypt's TypeScript: an end-to-end encrypted messenger whose browser
-- client and service library (service/src) talk through a relay (backend) that sees ciphertext only.
--
-- Parts, and the files here:
-- - Calls (service/src/calls): Calls.antt has the data of contracts.ts and callSecurityPolicy.ts;
--   Calls/Machine is stateMachine.ts (`transition_call` is `transitionCall`, with the clock's reading
--   as an argument); Calls/Replay is the in-memory store of replayProtection.ts, which the signaling
--   asks before it handles a signal; Calls/Pending is pendingSignals.ts, which holds signals until a
--   receiver is there.
-- - Guard (service/src/utils/replayGuard.ts): the window of sequence numbers of each context, for
--   payloads that have been decrypted.
-- - Files: Files.antt and Files/Wire are service/src/files/protocol.ts with the validation of
--   service/src/attachments/portableContext.ts; Files/Ledger is the rules of
--   backend/attachments/fileLedger.ts on one account's document, operation by operation; Files/Commit
--   is its `atomic` and the conditional replacement in MongoDB; whether the database rejects a read or a
--   write, before or after it wrote, is an input, and what other processes do to the document in between is
--   a list of steps.
-- - Relay (backend/socket.io): Relay/Clients is clients.ts, the registry of connections; Relay/Slots
--   is the slot counter of socketLimits.ts; Relay/Limiter is the token bucket of rateLimiter.ts.
-- - Mailbox (backend/db, messages for receivers that are away): Mailbox.antt is inMemDB.ts, Mailbox/Store
--   the caps and `storeOfflineMessage` of index.ts and every history of calls; Mailbox/Moves has the calls
--   as one step relation, over which Keys, Lease, Quota and Ack prove; Order and Oldest are about which
--   message a claim takes.
-- - Invitations (backend/db): one-time keys and the publications of an invitation, in the same mode
--   without MongoDB.
-- - Contacts (service/src/identity/contactIdentityRegistry.ts): each call on the storage, with the
--   outcome of its conditional writes as an input; Contacts/Turns reads every call as a sequence of
--   turns of one contact's record, over which Contacts/Trust proves.
-- - Devices (service/src/devices): Devices.antt is deviceIdentity.ts and deviceList.ts, Devices/Epoch
--   is epoch.ts; Devices/Lifecycle has the data and the shared checks of lifecycle.ts, and
--   Devices/Lifecycle/Calls its applyEnrollment, confirmEnrollment and applyRevocation, as functions on
--   the stored state. Digests, Unicode's normal form, the authorization's verifier and the
--   persistence are parameters (`DeviceRuntime`, `Commit`); no law is assumed of them. Devices/Freshness
--   is freshness.ts and Devices/Trust is trust.ts, with what is stored as an argument of each call.
-- - Groups (service/src/groups): who may change a group (membership.ts), the events (protocol.ts), the
--   changes (state.ts) and the calls of runtime.ts. Digests are parameters, and whether the storage's
--   compare-and-swap wrote is an input of a call.
-- - Sync (service/src/sync): Sync.antt is stateMachine.ts, Sync/Fencing is fencing.ts, Sync/Package is the
--   packages of contracts.ts with the checks of codec.ts and authorization.ts, and Sync/Transfer is the
--   controller of transfer.ts. Digests, the size of JSON and the trust boundary's answers are parameters.
-- - Room (service/src/crypto): Room/Floor is roomMessageVersionFloor.ts, on what is stored under a
--   record's address; Room/Floor/Monotone makes the prepared updates as the storage does, only where
--   the expected text is still stored. The runtime's JSON is a parameter (`Json`), relied on to parse
--   what it wrote (`RoundTrips`). Room/Codec is roomMessageV1.ts: texts are their bytes, Room/Codec/Frame
--   has the encoder and the decoder, and UTF-8 and SHA-256 are parameters; of the first it is relied on
--   that bytes below 128 are valid.
-- - Delivery (service/src/delivery): Delivery/Eligibility is pathEligibility.ts.
-- - Base has what they share: tests, lists, association lists for maps, results for what may throw.
--
-- How the code is read. A method is a function on the state it changes, which it returns; what throws
-- returns a `Result` whose error is the category or the message that the source throws. A `Map` or an object used as one
-- is an association list; deleting and inserting are written out in Base/Dict. Times, sizes and
-- counts are natural numbers; where the source subtracts, the term is moved to the other side of the
-- comparison, so that nothing stops at zero. `Date.now` and other collaborators are arguments. Data
-- that TypeScript's types describe is taken to have those types: the shape checks of untyped input
-- (`exact`, `typeof`) are not modelled. Texts are compared as a whole; where the code looks into one,
-- its code points are used.
--
-- Fuel: `atomic` of Files/Commit makes the twelve rounds of the source, and is stated for any number
-- of rounds. Nothing else needs fuel; every other loop is recursion on a list or a number.
--
-- Not modelled: the user interface (client), the Android application, the WebAssembly and native
-- cryptography and its wrappers, WebRTC and the browser's media, and the services, stores and
-- transports of service/src and backend that are not named above.
pub mod Base
pub mod Calls
pub mod Contacts
pub mod Delivery
pub mod Devices
pub mod Files
pub mod Groups
pub mod Guard
pub mod Invitations
pub mod Mailbox
pub mod Relay
pub mod Room
pub mod Sync
