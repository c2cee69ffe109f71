-- ===== src/Lib.antt =====
-- Gatelet: HTTP tunnels through a relay, as a verification library.
--
-- The program is a relay (gateletd) with a public HTTP side and a control side, and a client (gatelet)
-- that dials the relay, is admitted by a challenge and a response under a shared token, and serves the
-- requests that come through its tunnel from a local target. The parts and the files that model them:
--
-- Prelude       shared names, byte strings, association lists for Go maps, results, integers.
-- Protocol      internal/protocol/protocol.go, what both sides share: Name (ValidateName), Line
--               (ReadLine), Challenge (ChallengeResponse, ValidChallengeResponse), Hello
--               (ParseClientHello, ParseServerChallenge, ParseClientChallengeResponse).
-- Server        internal/server/server.go. Names: New, normalizeTokens, normalizeNameSet,
--               normalizeReservedNames, token, nameAllowed. Host: nameFromHost, isAdminHost,
--               normalizeDNSName. Registry: reserveName, releaseReservation, register, unregister,
--               recordRequest, httpTunnel, HasTunnel, DisconnectTunnel. System: the interleavings of
--               control connections on one registry, as a step relation. Handshake: handleControlConn;
--               Handshake.Refines: the same as steps of the System. Dispatch: ServeHTTP, with
--               serveAdmin behind its guard, requireAdmin, requireTunnelBasicAuth,
--               addForwardedHeaders. Header: copyHeader. Control: ServeControl, the response of
--               serveStatus, yamuxConfig and newAdminActionToken. Stats: stats, allTunnelStats and the
--               totals; Stats.Statuses and Stats.Metrics: serveMetrics, as the lines that it prints.
--               Admin: serveAdmin, handleAdminDisconnect and serveAdminAsset of
--               internal/server/admin.go, validAdminActionToken; Admin.Dashboard: adminDashboardData
--               and the texts of the cards and of the table of the same file, with jsString and the
--               question of a button.
-- Client        internal/client. Reconnect: the loop of Run, reconnectDelay and
--               isReconnectableControlError of client.go. Run: Run from its start. Session:
--               runSession, and both sides of the handshake together. Dial: dialControl and
--               controlTLSConfig. Target: targetRequestURL. Stream: handleStream, failedEvent and
--               requestRemoteAddr. Pause: pause.go. Preview: preview.go. Events: the events,
--               ParseLogFormat, PublicURL and remoteIP of events.go. Log: LogLine, RequestLogLine and
--               FormatBytes, and logStatus of client.go. Replay: CurlCommand, ReplayRequest,
--               replayBody, publicRequestURL and shellQuote of replay.go.
-- Tui           internal/tui, the terminal interface. Model: the state of model.go and the start of
--               run.go. Requests: applyEvent, mergeRequestItem, rebuildIndex and what follows an
--               event. Selection: visibleRequests, selectedRequest and the three clamps. Handlers and
--               Keys: updateKey. Filter: updateFilter. Update: Update, with the loop that runs its
--               commands. Actions: actions.go. Probe: target_health.go. Rows: list.go. Detail, Colours
--               and Inspector: detail.go. Format: format.go. View: the labels of view.go. Screen:
--               View, renderHeader, renderStatusBar, renderList, renderInspector, renderBody,
--               bodyViewLines and fitBlock. Fit: padRight, visibleWindow, wrapVisibleBlock,
--               truncateVisible and truncate of format.go, over the calls of ansi and lipgloss.
-- Command       cmd/gatelet/main.go: Flags and ClientConfig, parseConfig with package flag as far as
--               it reads its flags; parseBasicAuthSpec; Program, run and writeStartup.
--               cmd/gateletd/main.go: DaemonConfig, the configuration that main assembles; Daemon, its
--               start and the life of its goroutines as a step relation; Specs, parseNameList,
--               parseTokenSpecs and validateAdminConfig.
-- Tunnel        A request of a visitor through both programs: ServeHTTP, the stream, and handleStream.
--
-- How the code is rendered. A string is its list of bytes; ToLower and TrimSpace act on ASCII, and a loop
-- over runes that refuses every rune outside ASCII is a loop over bytes. A map is an association list in
-- which a key stands once, with the lookup, insertion and deletion of Go. A counter is a natural number
-- modulo 2^64 as uint64 and int64 keep it, and a duration is its number of nanoseconds. A critical
-- section under a mutex is one step; a session and a channel are numbers, with the closed ones as a
-- predicate that only grows. What a connection or a stream does from outside (the bytes that arrive, a
-- write that fails, a response) is an input of the handler, so that every branch can be taken.
-- The handlers are total: loops run over lists or count down a number that the code bounds.
--
-- Digits are printed by recursion on the accessibility of a number under division by ten.
--
-- The terminal interface. A message that would panic (an index out of range, a pause controller that is
-- nil) has no result, so that a result is a theorem. An int that may be negative for a moment, such as a
-- scroll position, is an integer with a sign. The controller that the client shares is a field of the
-- state. The commands that Update returns are values, and Tui.Update.Loop runs those that wait for events.
--
-- Parameters: json.Unmarshal for each message, json.Marshal of a log record, json.Indent, HMAC-SHA256,
-- url.Parse and url.PathUnescape, mime.ParseMediaType, utf8.Valid and strconv.ParseInt; for the terminal
-- interface the styles of lipgloss, the numbers of lines that the scroll positions are clamped to, the
-- cells of a text and its cutting by ansi, the clipboard, the file system, and the prints of times and
-- durations; for the dialling the network, the files and the pools of certificates; for a visit the
-- writing and reading of messages by net/http; for the client's log the print of a wait, and for the
-- dashboard that of a time. The environment of a process is a function.
--
-- Not modelled: deadlines; TLS and WebSocket themselves; the parsing and printing
-- of HTTP by net/http; the markup of the admin pages and the encoding of the status page as JSON; the
-- styles and the theme of the terminal; the usage text; packaging.
pub mod Prelude
pub mod Protocol
pub mod Server
pub mod Client
pub mod Command
pub mod Tui
pub mod Tunnel
