-- ===== src/Lib.antt =====
-- A model of the web client of the messenger: the connection to the relay, the frames that peers
-- send one another, calls of two and of many, the chat storage and file transfer. The sources stand
-- in `web/`.
--
-- The parts and how they interact. WsClient (`web/ws_client.js`) keeps a WebSocket to the relay and
-- hands every frame of a peer to a dispatcher; CallManager._onPeerMessage (`web/webrtc.js`) reads it
-- and calls a handler of the page (`web/app.js`), which stores messages with Storage
-- (`web/storage.js`, over `web/DB.js`) and puts files together. GroupCallManager
-- (`web/group_call.js`) gets the frames of group calls, and the mailbox client of `web/app.js` those
-- of the mailbox. The frames of the relay itself go to the address book of the page (peerBook), whose
-- contacts, like the keys of the user, stand in the localStorage (`web/keystore.js`).
--
--   Prelude            shared names, Boolean tests, lists over the native numbers
--   Bytes              hex, UUID and little-endian codecs: hexOf and u8hex, hexToBytes, hexU8,
--                      uuidToBytes, uuidFromBytes, concatU8; Bytes.Base64 has u8ToB64 and b64ToU8
--   Wire               the bodies of peer frames: the send* methods of WsClient, and
--                      CallManager._onPeerMessage; Wire.Codes has the command codes
--   Client             WsClient. A method is a function on the state; a socket is a number with its
--                      readyState and a flag for its handlers. Client.Receive has onmessage and
--                      onclose, Client.Send has _sendPeer and _sendServer, Client.Step the events,
--                      Client.Upkeep wakeConnection, the staleness watchdog and ensureConnected of
--                      `web/app.js`
--   Call               CallManager: ringing, missed-call notices, acceptance, hangup and _tearDown;
--                      Call.Step has the call frames of _onPeerMessage, _onAnswer and _onCandidate,
--                      and the events. _initiate and _onOffer are `resume` from the point where the
--                      camera is open. Call.Media has toggleVideo, setVideoInput, setAudioInput,
--                      switchCamera, toggleScreenShare, _stopScreenShare and toggleMute
--   Table              an object store of IndexedDB: DB.add, DB.get, DB.del and DB.truncate
--   Storage            the operations of Storage on its three tables, in snake_case; Storage.Rows
--                      has the reading side: history, historyTail, historyBefore, search, pendingFor;
--                      Storage.Flush has flushOutboxFor of `web/app.js`
--   Files              the chunk loop of sendFile and replayFileSend and the reassembly of onFileEnd
--                      (`web/app.js`). Files.Outgoing has sendFile, Files.Inbound the handlers
--                      onFileOffer, onFileChunk and onFileEnd on the page,
--                      Files.Names sanitizeFileName
--   Chat               bumpUnread and clearUnread, the same for missed calls, markHistoryRead,
--                      refreshChat and loadOlderMessages of `web/app.js`; Chat.Links has
--                      linkifyInto and appendHighlighted, Chat.Days the day separators
--   Mailbox            the mailbox client of `web/app.js`: isMailboxFrame, mailboxStoreText,
--                      mailboxDeleteText, fetchMailbox and onMailboxMessage; Mailbox.Envelope the
--                      envelopes of `web/ws_client.js`, Mailbox.Session how `wasm/src/lib.rs` seals
--                      and opens them
--   Group              GroupCallManager. Group.Calls has start, acceptInvite, leave and _teardown,
--                      Group.Peers the handlers of frames, Group.Step the events, Group.Media the
--                      media controls
--   Keys               `web/keystore.js`. Keys.Qr has the invite codes (qrXpubBytes, extractQrText),
--                      Keys.Backup the export and import of an account (exportAccount,
--                      importAccountFile)
--   Book               peerBook of `web/app.js`: persist, subscribeAll, bans, deletion and renaming;
--                      Book.Server has client.onServer with introductions and presence, Book.Reload
--                      what a reload of the page keeps, Book.Unban what a lifted ban gives back
--   Inbox              the `send-text` button, onText, onDelivered, onRead, onMsgDelete and onMsgEdit of
--                      `web/app.js`, and deliveryWatchdog; Inbox.Blocked has replayFileSend in the loop
--                      of flushOutboxFor, Inbox.Delivery two pages with a relay between them,
--                      Inbox.Composer openCallView, enterEditMode, cancelEdit and the dialogs that
--                      delete a message and clear a chat
--   Prompt             the prompts of calls and of group invitations and the call log of `web/app.js`;
--                      Prompt.Roster has the roster of the `add-participants-confirm` button
--   X.Tests            the models on concrete inputs
--
-- How it is modelled. A text is the list of its UTF-16 code units, and a byte string a list of
-- numbers; numbers of the program that can wrap keep their modulus. An operation on the database is
-- atomic. What the code does to the world outside, sends, callbacks and log lines, is a list of
-- effects in the state, the newest first. The clock, random ids, the WASM session and the answers of
-- the browser are arguments; the encoders of the browser are a record with their documented laws
-- (Wire.WebText). The camera prompt of a call is an event of its own. An item of the
-- localStorage is the value whose JSON stands there, or the note that it cannot be read. WebCrypto and
-- the JSON text of a backup are parameters with their documented laws. Loops are structural
-- recursion; only the loop of appendHighlighted takes fuel, one more than the length of the text,
-- since every round moves on in it.
--
-- Not modelled: the user interface, service worker and translations, which are output or glue; the
-- import of contacts as text; the lists of devices and the statistics of calls. The descriptions of
-- a peer connection are opaque. Of the WASM session only the envelopes of the mailbox are modelled,
-- with the ciphers as parameters; the relay and the notifier are other programs in Rust.
mod Prelude
pub mod Bytes
pub mod Wire
pub mod Table
pub mod Client
pub mod Call
pub mod Storage
pub mod Files
pub mod Mailbox
pub mod Chat
pub mod Group
pub mod Prompt
pub mod Inbox
pub mod Book
pub mod Keys
