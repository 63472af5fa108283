-- ===== src/Lib.antt =====
-- A model of proxy-proxy, which aggregates proxy subscriptions, serves them under access keys,
-- and relays traffic through upstream proxies.
--
-- Parts. The configuration (internal/config/config.go) is read and validated. Refreshers
-- (internal/agg/refresh.go) fetch each sub and write its nodes (internal/node/node.go) to a store
-- of snapshots (internal/agg/store.go). The HTTP server (internal/server/server.go) answers a
-- request with the rendering of the nodes of the subs that its key may see. The relay plan
-- (internal/relay/plan.go) turns the relay section into listeners that no two relays claim; with
-- the nodes of its subs it is rendered (render.go) to the state that the embedded mihomo is to
-- have, the core (core.go) switches mihomo from one state to the next, and the manager
-- (manager.go) does so on new plans and nodes. Log lines name the client of a request
-- (internal/server/client_ip.go). The process (main.go) watches the file and replaces the
-- configuration, the refreshers and the plan on a change.
--
-- Files.
--   Prelude: Go's strings as lists of bytes (`Str`), its maps as association lists (`Dict`),
--     its signed numbers (`ℤ`) with `Atoi` and `Itoa`, results with errors, the search for a free
--     numbered name (`Fresh`).
--   Node: `Node`, `ClashMap`, `clashKey`, `UniqueNames` and their helpers, as `Node`,
--     `clash_map`, `clash_key`, `unique_names`. A YAML map is an ordered list of fields. Build
--     has `BuildURI` and the builders of the links.
--   Config: the types; `parseSubSource`, `FileURLToPath`, `defaultSubName` in Source;
--     `validate`, `validateSubs`, `validateKeys` in Validate; `resolveRelaySubs` in RelaySubs,
--     where the loop's three variables are the record `Resolving`.
--   Agg: Render has `render` and `renderClash`; Store has the record `Store` and one function
--     from store to store for each method. `Render` is `render_begin` and `render_end`, its two
--     locked sections, and Store/Steps runs them with the other methods in any order, as a list
--     of events. Refresh has `Fetch` and what it calls, and `Run` as `round`, one attempt with
--     the wait after it.
--   Relay: Types has the plan; Plan has `NewPlan`, Plan/Check `validateRelay` and its checks,
--     Plan/Conflict `findConflicts`, Plan/Listener `buildListeners`, Plan/Group `groupByPort`.
--     Registry has `proxyRegistry` and `members`; Render has `Render`, its loop over the relays
--     as `grouped` and that over the listeners as `listening`. Mihomo has the record `Core` and
--     what the core calls, where an object is a value whose identity `proxy_eq` tells; Core has
--     `apply` as `parse_all`, which may fail, and `switch_over`, which may not; Draining has
--     `markStale`, `sweep` and `nextDeadline`. Manager has one function for each case of the loop
--     in `Run`, and the relation `Step` with the states that `Run` and the callers of `SetPlan`
--     reach.
--   Server: `findKey`, `negotiateFormat`, `updateIntervalHours` and the handlers, from a
--     request to a response. Server/IpSource has `ClientIPSource` and its parsing,
--     Server/ClientIp `Resolve`; the errors are constructors, and the zero kind is `direct`.
--   Main: `reloadLoop`'s reload, from the state before it to the state after it;
--     `watchConfig`'s ticks; `envStr` and `envBool`.
--   Tests: concrete runs.
--
-- Bounds and fuel. The generation of the store is a `uint64` and wraps at 2^64; the results on
-- the cache are about fewer than 2^64 events. Times of the manager are nanoseconds as natural
-- numbers. The loops that look for a free name run on fuel: two more than the names in use, which
-- Prelude/Fresh shows to be enough. Doubling a backoff wraps as an `int64`.
--
-- Parameters. `url.Parse` and the path functions of the platform (`Platform`),
-- `adapter.ParseProxy` of mihomo (`Adapter`), `yaml.Marshal` (`Codec`), the encoders of links
-- (`Encoders`), mihomo's objects and parsers (`Mihomo`; the results on groups assume what it
-- documents, that a group holds the objects found under its members' names), `net/netip`
-- (`Netip`), `json.Marshal`, the HTTP client, the file system, the context, the clock and
-- `ParseContent` (`Outside`).
--
-- Not modelled. The decoding of the YAML file and of durations, the parsers of share links
-- (internal/node/parse.go, uri.go), the forwarding of mihomo's log (`forwardLogs`), the flags,
-- signals, goroutines and servers of main.go, logging, and the rounding of floats.
pub mod Prelude
pub mod Node
pub mod Config
pub mod Agg
pub mod Relay
pub mod Server
pub mod Main
pub mod Tests
