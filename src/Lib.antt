-- ===== src/Lib.antt =====
-- Verification of the Karadul web dashboard (web/src).
--
-- The dashboard is a React application that shows and steers a mesh network through its coordinator.
-- It polls the coordinator over HTTP, takes pushed updates from a WebSocket, keeps what it has in one
-- store, and lets the user delete nodes, manage keys, edit access rules and export tables. The
-- development models what it computes and how its state changes; React, React Query, the browser and
-- the coordinator are parameters.
--
-- The files and what they model:
--   * Store: web/src/lib/store.ts. `KaradulState` is the store's data and `Action` its functions;
--     `act` is one call of a function and `run` a session. History and Frame prove what a session
--     leaves in the fields.
--   * Socket: web/src/lib/websocket.tsx. `Provider` holds the React state, the refs and every socket
--     and timer made so far; `connect`, `on_open`, `on_message`, `on_close`, `on_error`,
--     `effect_setup` and `effect_cleanup` are the functions of the file, and `Step` is what the browser
--     may do of itself. Steps is about the first mount, Refinement about it as a machine of four
--     states, Recovery about its way back to a connection, Leaks is about the cleanup, Reruns about an
--     effect that is run again, Runs about any number of runs,
--     and Strict about the mount of web/src/main.tsx.
--   * Storage: the local storage, as web/src/lib/api.ts uses it.
--   * Json: `JSON.stringify` of the language, as web/src/lib/api.ts and web/src/lib/export.ts call it.
--     `stringify` prints a `JsonValue` with an indent or without; Reader is a reader of JSON, whose
--     fuel is the length of the text, RoundTrip is about the two together, and Fields finds the
--     fields of an object.
--   * Api: web/src/lib/api.ts. `fetch_api` is `fetchApi`; Duration has `toGoDuration`, Queries the
--     query functions of the hooks, Polls their two halves, Mutations the hooks that change the
--     coordinator; Mutations/Bodies reads the bodies of their requests, and Guarded is about the token
--     in them.
--   * Csv: web/src/lib/export.ts. Reader is a reader of CSV, as a spreadsheet has it, to state what an
--     exported table means; Documents has the exports as JSON.
--   * Format: web/src/lib/utils.ts.
--   * Theme: web/src/components/theme-provider.tsx.
--   * MockApi: web/src/lib/mock-api.ts. Its arrays are the fields of `MockState`, and Seed has what they
--     start from; Registry sees its auth keys as a function from identifiers.
--   * Pages: the pages of web/src/pages (dashboard.tsx, nodes.tsx, peers.tsx, topology.tsx and
--     settings.tsx), a module each for the state and the handlers, with a child Rendering for what is
--     rendered; the peers page has its cards apart. The settings page has a child for each tab, Effects
--     for its effects and Syncing about them. Topology/Flow has what React Flow keeps of the mesh, and
--     Nodes/Pending a deletion whose reply is awaited. Badges has the badges of the nodes and peers,
--     Fields is about the input fields that hold lists. View has what the pages share: `Item` is a
--     rendered text or control, and the components error-boundary.tsx, empty-state.tsx,
--     loading-skeletons.tsx and tooltip-button.tsx of web/src/components.
--   * Shell: web/src/App.tsx with its routes, web/src/components/layout.tsx, header.tsx and
--     sidebar.tsx, and web/src/pages/not-found.tsx.
--   * Session: web/src/App.tsx with all that runs below it. `World` has the shared state, the frame and
--     the local state of the pages; a `Move` is an event of a page, a message of the WebSocket, a poll
--     that sends its request or gets its reply, or a rendering with its effects; `step` is one move and
--     `run` a session. Cases has what the moves share; Polls and Actions are about what a session does
--     to the store; News is what it hears of the mesh, and Replies, Learning and Loaded are about
--     what the store knows of it; Requests, Justified and Deletions about the requests, Stored and Shown about
--     the storage and the token, Choice and Late about the node of the details and about replies that
--     come late.
--   * Base: the helpers that the parts share. Examples: concrete runs.
--
-- The parts meet as in the program: the messages of Socket and the polls of Api are actions of Store,
-- the mutations of Api are called by the handlers of Pages, Theme and the token of Api keep their
-- values in Storage. A page is a function from its state to a list of items in the order of the
-- document; a control carries the event that it makes, the update function of the page says what the
-- event does, and `OfferedIn items event` says that one of the items is an enabled control that makes
-- the event. `ReachableIn` asks besides that no open dialog, which is modal, keeps the user from it.
--
-- Conventions and bounds. A text is the list of its UTF-16 units. Numbers are natural: byte counters
-- and times in milliseconds as they are, the CPU usage in thousandths of a per cent; only the rate
-- limit of the configuration is an integer. JavaScript is exact on whole numbers up to 2 ^ 53, and
-- theorems about printed numbers say so where it matters. What a double computes otherwise, the
-- logarithm of `formatBytes` and the quotient of `formatDuration`, is a function given to the
-- model with its accuracy as a hypothesis (`IsLog`, below 10 ^ 15, and `IsNearest`, below 2 ^ 48).
-- No function of the program needs fuel, as each of its loops is a recursion on a list or a number,
-- but for the renderings that the effects of the settings page ask for (`render`): fuel 2 is enough.
--
-- Parameters: the coordinator is a function from requests to replies (`serve`), `response.json()`
-- (`parse`) and `toLowerCase` are functions from texts; `mutateAsync` is a `Runner` (Api/Mutations/Runner)
-- whose two laws are its documented contract; how React Router matches a path is a function (`match`)
-- with `IsRouter` for its rule on paths of one segment; how React Flow applies a change is a function
-- (`apply_node`, `apply_edge`); random numbers, the clock and printed times are arguments or fields of
-- `Platform`. While the deletion of a node is under way is a flag given to the page, as React Query
-- has it. In Session each move has a `Coordinator` of its own, which may answer otherwise each time.
--
-- Not modelled: class names, layout and pictures; the headings and separators inside a menu; the
-- components of web/src/components/ui, which are copies of shadcn/ui; the drawing of the chart and of
-- the graph; polling intervals and the defaults of the query client; in Session, moves between the
-- request of a mutation and its reply; the coordinator and the other programs written in Go.
pub mod Base
pub mod Store
pub mod Socket
pub mod Csv
pub mod Format
pub mod Storage
pub mod Json
pub mod Api
pub mod Theme
pub mod MockApi
pub mod Pages
pub mod Shell
pub mod Session
pub mod Examples
