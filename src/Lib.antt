-- ===== src/Lib.antt =====
-- The shared text of goclipboard: the client's CRDT (static/crdt.js), the editing session of a
-- browser tab, its connection and the page around it (static/app.js). A room holds one text. Every
-- tab keeps a replica of it as a tree of characters, turns what is typed into operations, queues and
-- sends them over a WebSocket, takes the operations and the snapshots of the server, connects again
-- when the socket is lost, and saves over REST while there is none.
--
-- Files and code:
--   Common      Boolean tests and lists on native numbers, and the library names that all use
--   Text        strings as lists of 16-bit code units, and their order
--   Dict        an object used as a map, in insertion order
--   Number      Number(text) for the strings that parseID reads, and a number as text
--   Ids         parseID, formatID, compareID, compareSibling, maxClockFromIds
--   CodePoints  singleCodePoint, codePoints, and the offsets in units and in code points
--   Doc         Doc with insert, delete, apply, applyBatch, walk, materialize, visibleIds, toItems,
--               fromItems, clone, and buildFromString. Forest, Sequence, WellFormed and Insert
--               relate the tree to the flat sequence, Delete and Newest say what an operation does
--               to it, Batch and Apply are about sequences of operations, Siblings, Swap, View and
--               Converge about replicas.
--   Diff        diffToOps. Split and Cut find the two common ends, Run applies the operations, Build
--               is about buildFromString, Correct about the whole difference.
--   Session     the variables and messages of a tab in static/app.js, with the children
--     Local     applyLocalText, onInput, onCompositionStart, onCompositionEnd, commitComposition
--     Undo      pushUndoEntry, inverseOps, applyOpsLocal, undo, redo
--     Flush     flushPending and the timer of scheduleFlush
--     Ack       handleAck, forgetSentIds
--     Remote    handleRemoteOps
--     Stale     snapshotIsStale, restSnapshotIsStale
--     Sync      requestSync
--     Merge     merge3, mergeServerState, applyLoadedSnapshot
--     Snapshot  handleState, flushDeferredContentMessages
--     Caret     clampPos, mapCaretIndex, anchorIdAt, posFromAfterId, captureSelection,
--               restoreSelection and what moves remote cursors
--     Lock      the room lock, its gate and the stored passwords
--     Colors    hashId, normalizeColor, pickColor, hashToHexColor
--     Peers     updateRemoteCursors, cursorsVisuallyEqual, ensureUniqueSelfColor, pruneStalePeers,
--               sendCursorPosition, colorForPeer
--   Tab         a session with its socket and timers, with the children
--     Connection  connectWS, onopen, onclose, scheduleReconnect, forceReconnect, socketLooksDead,
--                 the heartbeat, setConnected, the beforeunload handler
--     Frames      onmessage
--     Events      all events of a tab, one step for each
--     Status      setIdleStatus, and the status while connecting and after a loss
--     Keeps says that the session's functions leave the connection alone; Alive, Sockets, Staying,
--     Recovery, Leaving, Backoff and Phases are about runs of events.
--   Rest        schedulePutFallback, putReplace and its answers, the poll of startRestPoll, load.
--               Saves, Owed and Accepted are about requests and answers.
--   Page        the page around the editor, with the children
--     Ttl       readTTLSeconds, setTTLControls, checkTTL
--     Dialogs   askPassword, setModalBusy, submitPasswordModal, closePasswordModal, confirmAction,
--               closeConfirm
--     Uploads   promptUploadFiles, uploadFilesWithPasswords, uploadOneFile, guessExt
--     History   applyHistoryPayload, ensureHistoryPassword, fetchHistory, captureHistoryManual,
--               clearHistoryTrail, openHistory, restoreSnapshot and the preview
--     Passwords generateEditPassword, saveEditPassword
--   Tests       runs on small inputs, and the theorems at concrete inputs
--
-- State and operations: the variables of a tab are the fields of the record Session, and a handler is
-- a function from a session to a session. The clock of the browser, the TTL field and whether send
-- throws are arguments. What leaves the tab is a list of effects: frames on the socket, REST loads,
-- the timer of the REST fallback. A promise of a request is two functions, one up to the request and
-- one for its answer.
--
-- Conventions: undefined, null and missing fields of a message are none or the empty text, as each
-- field says; an undefined identifier is the empty text, which parseID rejects like undefined. Numbers
-- are exact: clocks, versions and generations from 2^53 on, where the code would round, are outside
-- of the model. Results { ok, changed, error } are the types Outcome and BatchOutcome.
--
-- Fuel: walk has one unit for each item of the document, which walk_ends shows to be enough for a
-- well-formed document; a document with a cycle, which fromItems accepts, is not well formed. decimal
-- has as many units as the number, plus one. All other loops are structural.
--
-- Well-formed documents: the children lists form a forest below the root in which every item of the
-- map stands once, and every identifier parses. Aligned documents: splitting the joined text gives
-- the characters of the items, so that no lone high surrogate stands in front of a lone low one.
--
-- Time and the network: a tab (Tab) goes on by events, each at a time that it carries. A socket is
-- the number of its construction, so that the events of a replaced socket are told apart as by
-- socket !== ws, and a timer event does something only while its timer is set. A request over REST
-- (Rest) waits in a list with what its callbacks captured until it is answered. Random numbers, the
-- answers of the server and what a person types into a dialog are arguments.
--
-- Not modelled: within Tab, the cursors of peers do not move along with changes of the text, which
-- Session.Caret has as functions of their own; the list of files, downloads and deletion; sharing,
-- preview, translations, theme and everything that only draws; the libraries in static/vendor; the
-- server in Go, whose messages are inputs.
pub mod Common
pub mod Text
pub mod Dict
pub mod Number
pub mod Ids
pub mod CodePoints
pub mod Doc
pub mod Diff
pub mod Session
pub mod Tab
pub mod Rest
pub mod Page
mod Tests
