-- ===== src/Lib.antt =====
-- Tailhopper keeps several Tailscale networks ("tailnets") connected at once, each behind a local
-- SOCKS5 proxy, and serves a dashboard and a PAC file. This library models its Go packages and
-- proves what holds of them.
--
-- The parts of the program, and the files that model them (paths from the repository's root):
--
-- Ts: package internal/ts, one tailnet. Ts/State has the states and errors (state.go,
-- suffix_registry.go); Ts/Suffix and Ts/Ipn have what the watcher makes of notifications
-- (`extractMagicDNSSuffix`, `refresh` of watcher.go), Ts/Ipn/Text the text of that state,
-- Ts/Watcher the goroutine of a watcher and its `Close` as a step relation; Ts/Processor is
-- processor.go; Ts/SnapshotText is `TailnetSnapshot.String`; Ts/Tailnet is the record `Tailnet` of
-- tailnet.go with its constructor, snapshot and notifications; Ts/Start, Ts/Stop, Ts/Logout and
-- Ts/React are `Start`, `Stop`, `Logout` with `Dial`, and `reactToIPNStateChange`; Ts/Host is what
-- the process holds outside: listening proxies (internal/socks/socks.go), tsnet servers and
-- watchers, each under a handle. A method runs on a `Machine`: the tailnet, the host and an outer
-- state. The registry and the callbacks of a tailnet are the record `Hooks` of functions on that
-- outer state, as the Go fields are.
--
-- Registry: package internal/registry. Registry/Config has the records and the config file,
-- Registry/Store the methods on configurations (`Claim`, `saveLocked`, the two callbacks,
-- `HasUnconfiguredTailnets`) and the hooks that a tailnet gets, Registry/World `NewRegistry`,
-- `Load`, `List` and `Get`, Registry/Running `RestoreEnabledTailnets` and the way a tailnet of the
-- registry is operated, Registry/Running/Restore what it brings back, Registry/Changes `Add` and
-- `Delete`, Registry/Changes/Settles what `Add` leaves. A pointer to a tailnet is an address in a
-- heap. The broadcaster is an interface over a state of its own.
--
-- Sse: package internal/sse. The channels stand in a heap, so that a broadcast can be split into
-- the copying of the channels under the lock and the sends after it. Sse/Bounds has what a channel
-- keeps of the broadcasts when nobody receives, Sse/Stream a browser that reads the stream.
--
-- Ui: package internal/ui. Ui/Card has the card of a tailnet with the methods that the templates
-- call (ui.go), Ui/Dashboard the data that `ServeDashboard` gives to the template (dashboard.go),
-- Ui/Dashboard/Machines which machines a card lists. Ui/Assets has the toasts and the handler of
-- static.go.
--
-- Pac: package internal/pac, the text of the PAC file and its headers. Pac/Script is a browser that
-- reads the file: scripts of that form, line by line, with `shExpMatch`.
--
-- Socks: internal/socks/socks.go, `NewServer` with the dialer that logs, around the `Dial` of a
-- tailnet, and what `Start` logs.
--
-- Web: package internal/web. Web/Handlers has the four handlers of handlers.go on the world of the
-- registry, each with its status and body, Web/Routes the routes of server.go but for the event
-- stream, Web/Server its `Start`, Web/Middleware the response writer of middleware.go and
-- Web/Middleware/Logged its two middlewares. A handler runs to its end before the next request, but
-- for the two add requests of Web/Handlers/Race; the registry announces to the broadcaster that the
-- handlers get, as cmd/tailhopper/main.go sets it up.
--
-- Logging: package internal/logging, how a source location is printed (`SimplifySource`), and in
-- Logging/Handler the `ContextHandler`, around any handler of log/slog, which is a record of its
-- methods. Ts/LogLine is `tsnetLogf` and `parseLogKeyValues` of internal/ts/tailnet.go.
--
-- System joins the registry and its tailnets: a step is a critical section of any tailnet, deleted
-- ones included, an `Add` or a `Delete`. Ts/Persist says which part of a tailnet the registry keeps
-- a copy of, and the modules Kept of Ts what each method does to the two. System/Life adds
-- restarts: `main` of cmd/tailhopper/main.go, which is in Main, on the file that the last process
-- left. System/Events gives the registry the broadcaster of Sse, as `main` does, and System/Told is
-- about what a tailnet announces and System/Heard about who hears it.
--
-- Base has the shared helpers: Go strings as lists of bytes, `int` with its wrap at 64 bits,
-- decimal printing and `Atoi`, maps with `int` keys as association lists, an insertion sort for
-- `sort.Slice`. Tests has runs on concrete inputs.
--
-- How it corresponds: a method that changes its receiver returns the new state; an `error` is an
-- `Option Error`, nil being `none`; a critical section is one step, and where a method gives its
-- lock up (`Logout`, `Broadcast`) it is two functions. How a call of the operating system, of tsnet
-- or of a local client ends is an argument of the method that makes it, so a theorem covers every
-- outcome. A close that fails is taken to leave the resource open. A map is ranged over in the
-- order of its association list, one of those that Go may choose; System/MapOrder is about the
-- others. The JSON text of the config file is kept as the list that it stands for; an encoder that
-- fails leaves a file that does not decode.
--
-- There is no fuel: every loop of these packages runs over a list, but for the endless one of the
-- watcher, which is a step relation. Decimal printing takes one unit of fuel for each unit of the
-- number, which is more than its digits.
--
-- Not modelled: the other log output, and `CatchPanic`, which ends the process; the serving of
-- SOCKS5 connections, of HTTP, of static files and of templates, which belong to libraries; the
-- matching of routes and chi's own middleware. What the standard library makes of letters
-- (`strings.ToLower`), what the template of a toast gives, and the sanitizing of hostnames are
-- parameters.
pub mod Base
pub mod Ts
pub mod Registry
pub mod Sse
pub mod Socks
pub mod Ui
pub mod Pac
pub mod Web
pub mod Logging
pub mod System
pub mod Main
mod Tests
