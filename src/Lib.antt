-- ===== src/Lib.antt =====
-- MC-CartoLive: the core of the live web client, web/src of the repository.
--
-- The server sends live envelopes over a web socket and keeps a log of public events with rising
-- sequence numbers. The client opens the socket again whenever it is lost or silent (ws.ts), queues
-- the envelopes and takes them in batches (livePacing.ts), tests their sequence numbers against a
-- cursor (liveCursor.ts), and reduces what is accepted into its state (state.ts). After a gap it
-- fetches the missed events page by page (eventRecovery.ts) and reduces them too, without motion on
-- the map; a snapshot starts the state or is merged in.
-- A page that was suspended and comes back asks for a refresh once (resumeRecovery.ts).
-- What the server answers to a request is made safe first, and the public state is kept for the case
-- that the server cannot be reached (api.ts).
-- The packet view joins the pulses and the activity of the state (packets.ts).
-- From the nodes and routes of the state the client finds who reaches whom, and how (connectivity.ts).
-- What moves on the map waits in a queue of its own, a few starts a frame (map/liveVisualScheduler.ts).
--
-- Types.antt          web/src/types.ts: the data of the feed
-- Live/Cursor.antt    web/src/liveCursor.ts
-- Live/Pacing.antt    web/src/livePacing.ts
-- Live/Recovery.antt  web/src/eventRecovery.ts
-- Live/Resume.antt    web/src/resumeRecovery.ts, with its runs in Live/Resume/Steps.antt
-- Live/Socket.antt    web/src/ws.ts, with its runs in Live/Socket/Steps.antt
-- State.antt          web/src/state.ts, in parts: Model (`AppState`, statistics, sequence numbers),
--                     Buckets (`frequencyBucket`, `indexRoutes`), Traces (`addRouteTraceHits`,
--                     `addObserverBurst`, rates, `summarizeRouteActivity`), Routes
--                     (`upsertPulseRoutesBatch`), Reduce (`applyPublicEnvelopes`,
--                     `applyPublicEvents`), Snapshot (`initialAppState`,
--                     `hydrateSnapshotTopology`)
-- Api.antt            web/src/api.ts, in parts: Scalars (`sanitizeString` and the like), Places
--                     (endpoints, anchors, routes), State (`sanitizePublicState`), Cache (the offline
--                     snapshot), Events, Packets, Propagation and Chat (the other responses). State/Json is what
--                     `JSON.stringify` and `JSON.parse` make of a state, State/Sane what a safe
--                     state is, State/Made and State/Back the proofs
-- Startup.antt        web/src/bootstrapHydration.ts: the first state and the fetch after it
-- Chat.antt           web/src/chat.ts: what the chat shows of its messages
-- Connectivity.antt   web/src/connectivity.ts, in parts: the graph of the routes, Compare (the orders),
--                     Paths (`reachablePaths`, `shortestPathBetween`), Phonebook. Walks says what
--                     a path is, apart from the search; Edges, Symmetric, Direct, Paths/Sound,
--                     Paths/Ends, Paths/Shortest and, in Phonebook, Made, Signs and Order hold the
--                     proofs
-- Packets.antt        web/src/packets.ts: the packets of the live view, and Packets/Merged what they are
-- MapMotion/Scheduler.antt  web/src/map/liveVisualScheduler.ts, its queue and its frames
-- MapMotion/Identity.antt   web/src/map/recentIdentityTracker.ts and animationSafety.ts
-- Prelude.antt        numbers, options, lists, `Map`, `Set` and `sort` as the source uses them
-- Tests.antt          small runs
--
-- A function keeps its name in snake case, and a field too. A loop is a function over the list that
-- it runs through, its variables a record (`IncreasingLiveEnvelopeBatch`, `Batch`, `Reduction`).
-- Times, counts and stored sequence numbers are natural numbers. What comes off the wire untested
-- is a `JsNumber`: an integer or something else. `Array.sort` is a stable insertion sort, which is
-- the result the language prescribes wherever the comparison is an order.
--
-- `recover_public_event_pages` takes fuel, one unit a round. Each round that goes on moves the cursor
-- towards the latest sequence number, which bounds the rounds (Live/Recovery/Ends.antt). The fetch
-- and the activity test are functions of the number of pages so far, so they may answer
-- differently each time, and a fetch may fail.
--
-- `reachable_paths` takes as many rounds as (1 + e)^e and one more, where the graph has e edges. A
-- candidate with k edges to nodes off its path weighs (1 + e)^k, and each round takes more weight off the
-- queue than it puts there (Connectivity/Paths/Load.antt), so the rounds do not run out.
--
-- The logarithm in `frequencyBucket` is a parameter, `log_ratio`, of which nothing is assumed.
--
-- The sanitizers take any value that `JSON.parse` gives (Prelude/JsValue.antt). Their finite numbers
-- are a parameter `N` with the operations `js` (`JsNumbers`), `now` is `Date.now()`, and `lower` is
-- `toLowerCase`; what a theorem needs of them it names. Of objects with the same key twice only the
-- first is read, which `JSON.parse` never makes. An object is read as the text "[object Object]" and as
-- no number. The program throws where it has a field `toString`; `is_plain` says of a value that
-- no object in it has one. `Array.sort` of texts compares their UTF-16 code units, and the
-- assignment to the key `__proto__` of a record keeps nothing.
--
-- A listener of the socket may throw (`onOpen` and `onMessage` are flags of `handle_open` and
-- `handle_message`). In the runs of Live/Socket/Steps.antt `onOpen` returns.
--
-- In Connectivity.antt `upper`, `lower`, `includes` and `locale_compare` are the methods of texts; what
-- a theorem needs of them it names. A comparator gives the sign of its number, an `Ordering`. An absent
-- identity of `shortestPathBetween` is the empty text.
--
-- In Chat.antt the rewriting of texts by regular expressions is a parameter, of which nothing is
-- assumed.
--
-- Not modelled: drawing, the map and the components, the calls of fetch, the text filters
-- of state.ts, the state signature and diagnostics, `packetToPulse` of packets.ts, and the server (Go).
pub mod Api
pub mod Chat
pub mod Connectivity
pub mod Live
pub mod MapMotion
pub mod Packets
pub mod Prelude
pub mod Startup
pub mod State
pub mod Tests
pub mod Types
