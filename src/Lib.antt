-- ===== src/Lib.antt =====
-- The shared client library of the harness, clients/packages/harness-protocol, which the web and the
-- mobile application use to follow a session that runs on a host, these two applications, and what
-- they see of the host.
--
-- The host sends, over a WebSocket, a snapshot and then numbered events. The reducer
-- (src/reducer.ts of that package) rebuilds from them the session that is shown: the items of the
-- conversation, what waits for an answer, and the devices. The client (src/client.ts) owns the
-- socket: it says hello with the last number that it has applied, checks that events have no gap,
-- reconnects with a growing delay, starts afresh after repeated gaps, and queues the user's commands
-- until the host has acknowledged them. src/types.ts has the messages and the reading of unknown
-- values. The paths below are from clients/packages/harness-protocol, where they do not start with
-- clients or internal. The web application (clients/apps/web) keeps one client of the page it was loaded from; the
-- mobile application (clients/apps/mobile) starts its client from what it has stored, tries the
-- addresses of a host in turn, and saves the number that it has applied. Both pair, show the
-- session and send what the user types through the client.
--
-- Value     src/types.ts: the values of JSON.parse, isRecord, asString, asNumber, asBool, asArray;
--           Value/Template is a value in a template literal.
-- Wire      src/types.ts: envelopes and their parts, parseEnvelope, TERMINAL_ERROR_CODES.
-- Session   src/reducer.ts: SessionState and its items. Session/Events is applyEvent, with one
--           function for each case of the switch; Session/Snapshot is applySnapshot; Session/Stream
--           has appendAssistant, sealOpenAssistant, finishTool, pushNotice, trimItems and, in Clamp,
--           clampText; Session/Pending is dedupeBy; Session/Names is nameFor and displayName. Their
--           theorems are in Session/Stream/*, Session/Ids and Session/Caps. Session/Bodies has the
--           bodies of events in src/types.ts, Session/Bodies/Reflects what each says, and
--           Session/Bodies/Reflected that the reducer does it.
-- Client    src/client.ts: the state of HarnessClient. Client/Notify is buildState, notify, setPhase;
--           Client/Reconnect has connect, close, reset, setIdentity, setLastSeq, openNormalSocket,
--           scheduleReconnect, detachAndClose; Client/Backoff is computeBackoff; Client/Commands is
--           sendCommand, flushOutbox, handleAck, handleError; Client/Messages is handleEnvelope,
--           handleSnapshot, handleEvent, noteGap; Client/Sockets has the handlers of attachNormal
--           and `run`, which applies a history of steps. The theorems on all histories are in
--           Client/Promises, Client/Outbox, Client/Live/History, Client/Replay and Client/Replay/Views, over
--           the lemmas of Client/Frame and Client/Queues; Client/Sessions has what a property of the session
--           needs for all steps to keep it.
--           Client/Resync is about gaps, Client/Orphans about a change of session, Client/Silence about
--           a closed client, Client/Resend about queued commands after a reconnect.
--           Client/Pair is pair(), with a socket of its own for each call and the promise it returns;
--           Client/Setup is about what a new connection leaves, Client/Dials about the socket that
--           connect creates, Client/Dropped about a closed socket,
--           Client/Received about what all messages and all histories keep; Client/Listeners is the
--           set of listeners.
-- Pairing   src/pairing.ts: rankHost and candidateUrls; Pairing/Payload is parsePairingPayload, with
--           the platform's JSON and URL parsers as parameters; Pairing/Order is about the URLs.
-- Uuid      src/uuid.ts, from the random bytes on.
-- Inputs    clients/apps/web/src/components: the handlers of PromptInput, QuestionCard, PermissionCard,
--           ModeSelector and InterruptButton, and of those of the mobile application.
-- Web       clients/apps/web/src: store.ts, identity.ts, the choice of the screen in App.tsx, and in
--           Web/Pairing the form of PairScreen.tsx; Web/Form is about which screen is shown.
-- Mobile    clients/apps/mobile/src: Mobile/Storage is storage.ts, over stores and a codec with laws;
--           of mobileClient.ts, Mobile/Boot is bootstrap, Mobile/Saver its listener that saves the
--           number, Mobile/Candidates pairWithInfo, Mobile/Pins pinFor, and Mobile.antt forgetDevice;
--           Mobile/Stale is about a saved number that is too large, Mobile/Restart about a saved number
--           and the host's answer to it; Mobile/Scanner is the state of
--           screens/PairScreen.tsx.
-- Views     what the components of both applications draw of a session, as nodes: Views/Browser and
--           Views/Phone, with the screens below them; their keys are in Views/Keys and their words in
--           Views/Same. Views/Phone/App and Views/Browser/App choose the screen; Views/Screens has the
--           two against each other.
-- Host      internal/store/store.go and internal/hub/hub.go, as far as a client sees them: the event
--           log of a session, with its numbers in Host/Log, and the messages made from it; what a client
--           makes of each is in Host/Received. Host/System has the host, a client and a network in one;
--           Host/Shown says what is to be shown of a log, Host/Shows when a session is at a place of
--           it, and Host/Follows that it stays at one; Host/Place and Host/CatchUp follow the answer to
--           a `hello`; Host/Agree compares clients. Host/Commands is handleCommand, Host/Commands/Once
--           is about a command that comes again, and Host/Commands/Resent about such a command of a
--           client. Host/Adapter is the hub between its clients and the adapter of the agent
--           (ingestAdapterEvents), with how often a request is answered in Host/Adapter/Answers, what
--           a later answer comes to in Host/Adapter/First, and one that is not recorded in
--           Host/Adapter/Lost. Session/Nameless has the items without the names of devices, which no event has.
-- Scripts   clients/scripts: check-deps.mjs; Scripts/Bundle is web-build.mjs, and Scripts/Polling is
--           waitFor of smoke.mjs, whose ticks have the fuel timeout / 25 + 2, which is enough.
--
-- A client is a value, and each method a function from client to client. What it does to the platform
-- (sockets, timers, promises, listeners) is appended to a list of effects. A history is any list of
-- steps: calls of methods, messages of any content, opened and closed sockets, and the timer, in any
-- order, and with each step what the platform answers during it (`World`): which sockets are open,
-- whether creating a socket throws, the random number, whether TextEncoder exists. Sockets are
-- numbered, so that a handler of an old socket, which stays on unless it was detached, is a step of
-- that socket.
--
-- A client that is pairing (`Pairing`) is a client and the calls of pair() so far, and its histories
-- also have those calls and the events of their sockets. A form or a screen is a record of its
-- fields. Storage, JSON, the URL parser and the network are parameters; where a theorem rests on what
-- is documented of one of them, that is a record of laws in its hypotheses.
--
-- The host and a client make one system, whose steps are an event that is appended and broadcast, the
-- two parts of the answer to a `hello`, an answer to a command, a step of the client, and the delivery
-- of any message that the host has made so far, on any socket. The database is the rows of one
-- session; whether a transaction commits, what json.Unmarshal makes of a body and what the adapter of
-- the agent answers are arguments. A command, and an event of the agent, is one step of the hub: its
-- goroutines do not meet in the middle of one.
--
-- Choices. A number is a natural number or infinite (as JSON.parse gives for 1e999); negative and
-- fractional numbers are left out. A text is the list of its UTF-16 code units; upper and lower case
-- are those of ASCII. Fields that the code casts without a check stay unchecked values; properties
-- that an object inherits are left out, `toString` among them. The delay of a reconnect is computed
-- exactly, where the code has floating point. A `close` of a socket that throws is left out where
-- the code does not catch it. The loop of clampText has the length of the text as fuel, and each
-- round makes the text shorter; the loop that writes a number in decimal has fuel n + 1 for n, and
-- each round divides n by ten.
--
-- Not modelled. The platforms: the text that JSON.parse reads, the native TLS module, the camera, and
-- the styles and layout of the components, which hold no state of the program. Of
-- clients/scripts, the search of check-deps.mjs for package files, and smoke.mjs but for waitFor: it
-- is one run of the built daemon, of whose output it reads a token. The configuration of eslint,
-- vite, metro and the compiler, and the built bundle in internal/webui, are data of other tools. Of
-- the host, which is written in Go and not in the language of the clients, all but the log, the
-- messages made from it, the commands and the requests of the agent: its pairing, its devices, the
-- queues of its connections, its certificates, the adapters of its agents and its shell.
pub mod Prelude
pub mod Value
pub mod Wire
pub mod Session
pub mod Client
pub mod Pairing
pub mod Inputs
pub mod Uuid
pub mod Mobile
pub mod Web
pub mod Views
pub mod Host
pub mod Scripts
