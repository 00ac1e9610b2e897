-- ===== src/Lib.antt =====
-- A model of the RFID reader toolkit and its bot, with theorems on its core.
--
-- The program reads UHF tags. Bytes of a reader go through internal/protocol/reader18, which cuts
-- them into frames and decodes inventory payloads; sdk runs the inventory of one reader and turns
-- frames into tag events. The bot (internal/gobot) gets the EPC of every read: the service looks
-- it up in the cache of draft EPCs, which it fetches from the ERP server, and queues it for
-- submission; the test mode ticks it off a list from a file. internal/discovery finds readers in the
-- local network, internal/reader is the connection to one, and the bot's reader manager keeps an sdk
-- client connected and hands its reads to the service.
--
-- Which file models what, by paths from the repository's root:
-- - Reader18: internal/protocol/reader18/protocol.go. Crc is crc16MCRF4XX, Packet BuildCommand and
--   VerifyPacket, Commands the command constructors, Frames ParseFrames, Inventory the payload
--   parsers.
-- - Text: what the code uses of strings (TrimSpace, ToUpper, HasPrefix, Cut, Fields and others), of
--   strconv (Itoa, Atoi), of sort.Strings and of bufio.Scanner. Epc: NormalizeEPC of internal/gobot/erp/client.go.
-- - Cache: internal/gobot/cache/store.go, a method each.
-- - Erp: internal/gobot/erp/client.go, FetchDraftEPCs and SubmitByEPC as functions of the reply.
-- - TestMode: internal/gobot/testmode, Parser parseEPCFile and Manager the session's methods.
-- - Service: internal/gobot/service. Service holds the state and the pieces under the lock,
--   Service/Handlers the handlers: HandleEPC is handle_epc, SetScanActive set_scan_active,
--   AddDraftEPCs add_draft_epcs, RefreshCache refresh_cache, processSubmit process_submit, one
--   round of worker work, Status status. Service/Pipeline has the interleavings.
-- - Sdk: sdk. Config has InventoryConfig, Antenna nextInventoryAntenna, Client the client's state,
--   its events, recordTag and observeNoTag, Frames consumePacket and the handlers of frames, Control
--   nextInventoryCommand, ApplyInventoryConfig, StartInventory and StopInventory.
--   Connection is client_connection.go and client_scan.go, the client with its transport.
-- - Transport: internal/reader/client.go, the TCP session: Connect, the read loop, Disconnect, SendRaw.
-- - Discovery: internal/discovery/scanner.go. Address has the IPv4 addresses, Hosts which are probed,
--   Probe probeTarget, Scan the scan and the order of its candidates.
-- - BotConfig: internal/gobot/config, Load and the readers of the environment; DotEnv is LoadDotEnv.
-- - BotReader: internal/gobot/reader/manager.go. Loop has connectAndStart, consumeTags and scanLoop, a
--   round each time; Machine the manager with the goroutine of its loop, Start and Stop; History any sequence
--   of calls and rounds.
-- - Servers: internal/gobot/ipc/server.go, the kinds of request of handleRequest, and Http the handlers of
--   internal/gobot/httpapi/server.go, both over the service and the reader's manager.
-- - Tui: internal/tui/update/helpers.go, ConnectPlan the order of the endpoints to try;
--   internal/tui/update_inventory_tune.go, Tune the page of inventory parameters; update_frames.go
--   there, Frames handleProtocolFrame.
-- - Base: tests, lists, bits, integers, sets and maps. Tests: concrete runs.
--
-- How it is modelled: texts and byte slices are lists of bytes; ToUpper and TrimSpace are those on
-- UTF-8 as far as the hex digits of an EPC and the blanks around it tell. Go's sets and maps are
-- lists with each key once, and where Go ranges over a map the order is a parameter. Times are
-- numbers of nanoseconds that are passed in, 0 the zero time. The uint64 counters wrap at 2^64;
-- values of type int that only count up are unbounded numbers, and those that may be negative are
-- integers. The retry count is one that is not negative.
--
-- The loop of ParseFrames runs on fuel, the length of the stream, which is enough because each round
-- that goes on shortens the buffer. The loop over the submit attempts and that
-- over the eight antennas count down as the code's do; the others follow their lists.
--
-- The network is a parameter: whether a dial, a write or a close succeeds, what a read returns, and in
-- which order the results of concurrent probes arrive. hostsFromPrefix counts down the hosts that may
-- still be added.
--
-- The reader's loop runs by rounds. Calls of SetLongRangeMode come between its reads of the manager and its
-- writes wherever it lets them; Stop waits until the loop has seen that its context is done. The context of
-- a request over HTTP ends with the request, and so does a loop that it started.
--
-- Not modelled: HTTP and JSON (the replies are arguments), logging, the wording of
-- messages, waiting, and cancellation and goroutines other than those of the reader's loop. A handler of the service
-- runs as a whole in Service/Handlers, which is how one goroutine sees it; the pieces of several
-- goroutines interleave in Service/Pipeline for the queue, its marks and the in-flight set. The
-- telegram bot and the rest of the terminal interface are not modelled.
pub mod Base
pub mod Reader18
pub mod Text
pub mod Epc
pub mod BotConfig
pub mod Cache
pub mod TestMode
pub mod Erp
pub mod Service
pub mod Transport
pub mod Discovery
pub mod Sdk
pub mod BotReader
pub mod Servers
pub mod Tui
pub mod Tests
