-- ===== src/Lib.antt =====
-- StreamVault gateway: the Go program under gateway/ that gives viewers HLS streams without showing
-- them the source. The gateway resolves a path to an access point, checks the token, and fetches
-- from the source or from a relay node; a relay node remuxes streams and serves them to viewers who
-- carry a signed grant.
--
-- Parts, and how they stand here:
-- - Remux: gateway/internal/remux/remux.go. `Manager` holds what the Go manager holds: `sessions` and
--   `by_id` map to addresses of a heap of `Session`s, since the source shares pointers; `calls` are
--   the entries of `pending` with how far each `Start` has come, `running` the processes that `watch`
--   still waits for, `slots` the tokens in the semaphore. Each function is one critical section:
--   `Start` is `begin`, what happens outside the lock (`Opened`), `commit`, `unlist_phase` and
--   `release_phase`. `Remux.Schedule` runs any order of these sections, so that concurrent requests,
--   stops, the reaper and the ends of processes are sequences of `Action`s.
-- - Node: gateway/internal/node/node.go. `Node.Control` is the configuration a node polls (`apply`,
--   `clear_config`, `expire_config`, `poll_once`), `Node.Serve` the request handler, which uses the
--   remux manager and the grants of Nodeproto.
-- - Gateway: gateway/internal/gatewayhttp (handler.go, ssrf.go, sourceurl.go, nodecontrol.go)
--   and gateway/internal/store/store.go. `Gateway.Access` finds the access point and checks the
--   token, `Gateway.Target` says where the gateway may connect, `Gateway.Routing` is `ServeHTTP` up
--   to the handler that answers: a `Response` names that handler and its arguments. `Gateway.Entry`
--   is what an entry request makes of the source's answer, `Gateway.Reference` the links of a
--   playlist (`encodeRef`), `Gateway.TrustCache` runs any calls of
--   `isSourcePrivate` on one cache, `Gateway.NodeApi` the API for nodes.
-- - Hls: gateway/internal/hls/rewrite.go, the rewriting of playlists.
-- - Hlspull: gateway/internal/hlspull/hlspull.go, which copies the segments of a source's playlists
--   into one stream. A `Round` says what a turn of `run` meets, `pull_rounds` is the loop over them.
--   `Hlspull.Source` describes a live source as a numbered list of segments.
-- - Relay: gateway/internal/gatewayhttp/alwayson.go. `Sessions` is the interface of the session
--   manager that the supervisor uses; `reconcile` visits the wanted streams in any order, and
--   `run_always_on` is the loop, with any change of the sessions between its turns. The calls of
--   `SetRuntime` and the attempts to start are the `Event`s.
-- - Leakcheck: gateway/internal/leakcheck. `Leakcheck.Matcher` is what a public text tells of a leaked
--   link (matcher.go), `Leakcheck.Record` the findings and incidents (store.go), `Leakcheck.Revoke`
--   and `Leakcheck.Reply` the answer to a leak (actions.go), `Leakcheck.Scan` and `Leakcheck.Run` the
--   scan (scanner.go), `Leakcheck.Lock` the lock of a scan, one statement at a time. A transaction
--   that a statement fails in leaves the tables as they were.
-- - Slate: gateway/internal/slate/slate.go and text.go, the names that are accepted (`Slate.Route`,
--   with `serveSlate` of gateway/internal/gatewayhttp/handler.go), and the manager's encoder sessions
--   and personal pages (`Slate.Sessions`, `Slate.Manage`).
-- - Nodeproto: gateway/internal/nodeproto/nodeproto.go, node tokens and signed grants.
-- - Crypto: gateway/internal/blobcodec/blobcodec.go and gateway/internal/secretbox/secretbox.go, over
--   the interface `Crypto.Aead` of AES-GCM and base64.
-- - Common: lists, maps, text and decimal numbers; Examples: runs at concrete inputs.
--
-- Choices: text is the list of its bytes; times are nanoseconds since some moment; the numbers of
-- streams and sessions are natural, and the numbers of a grant are integers, which Go reads with
-- ParseInt (its 64-bit bound is left out, since SQLite's keys stay below it). Media sequence numbers
-- and durations are words of 64 bits that wrap around (`Common.Word`, `Relay.Backoff`). Loops are
-- structural recursions. Three run on fuel: the printing of a number has one step more than the number
-- itself, which has no more digits than that; the copying of segments has two steps more than there
-- are segments, since it advances by one and leaves the playlist where the index does; the test of
-- sync bytes has four, since the head is no longer than three packets and a byte.
--
-- Arguments, since they are not code of the repository: SHA-256, HMAC, AES-GCM and base64, the
-- resolver, URL parsing, resolution and escaping, the queries to the database, files, FFmpeg. What
-- is required of them stands as a hypothesis or as a law of an interface where it is used.
--
-- Not modelled: the fetches themselves, the writing of responses, resource responses, the arguments of
-- the slates' encoder, the moment between the two last steps of `watch`, rows of the leak checker's
-- lock whose time cannot be read, the texts of slates and the wait for a first playlist, the start of a relay's
-- source, the schedule and the users' accounts of the leak checker and the rate limits of its client,
-- the node's metrics, the removal of directories, the start-up of the programs, the PHP
-- administration under admin/ and the SQL under migrations/.
pub mod Common
pub mod Remux
pub mod Crypto
pub mod Hls
pub mod Nodeproto
pub mod Node
pub mod Gateway
pub mod Leakcheck
pub mod Slate
pub mod Hlspull
pub mod Relay
pub mod Examples
