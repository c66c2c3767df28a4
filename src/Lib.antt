-- ===== src/Lib.antt =====
-- gjfy, a one-time link server. A secret is kept in memory under an unguessable id, handed out
-- MaxClicks times at most, and dropped when it expires. The command `gjfy server` (cmd) puts the handlers
-- of httpio behind the rate limiters and headers of misc. The handlers turn a request into calls of the
-- store (AddEntry, Claim, GetEntry, GetEntryInfoHidden); the store holds its mutex during each; tokendb
-- says which API requests may create or inspect secrets, from a file that fileio finds. `gjfy stats`
-- reads, over the socket of package admin, how many secrets the server holds. The definitions are the
-- code's functions on explicit values: a state goes in and comes out.
--
-- - Prelude: what the Go code takes from its language and standard library. Int has int64 with its
--   wrap-around, Clock time.Time and time.Duration (nanoseconds since the zero Time, Sub saturating as
--   Go's does), GoMap map[string]V as an association list without repeated keys, Text strings as their
--   UTF-8 bytes, Utf8 the decoding that strings.Map does, Parse strconv.Atoi, strings.TrimSpace and
--   path.Base, Format %d, Flag package flag with its Parse, Result the pair of a value and an error.
-- - Base64: encoding/base64's RawURLEncoding, for the ids that store/store.go generates.
-- - Store: store/store.go. Store has the types, New and AddEntry (`add_entry`, with the loop over ten
--   candidates in `find_id`); Store.Serve GetEntryInfo, GetEntryInfoHidden and Claim; Store.Expire
--   expireOnce and realExpFactor; Store.Report Stats; Store.History a life of the store as a list of
--   its operations. Store.Mutex has the goroutines: AddEntry, Claim, expireOnce, GetEntry, Len and Stats in
--   the steps in which they wait for the lock, take it, read, write, count and let go of it (`Move`; a
--   writer that waits keeps new readers out, as in sync.RWMutex), the steps of all goroutines in any
--   order (`Reach`), and the operations at once as their specification. Store.Ticks
--   follows the validity of the entries through a history.
-- - TokenDb: tokendb/auth.go, MakeTokenDB, findToken, IsAuthorized, Knows.
-- - Misc: Misc.Validate is misc/validate.go, Misc.Redact misc/redact.go, Misc.Headers misc/headers.go,
--   Misc.ClientSh misc/client-sh.go; Misc.RateLimit is the limiter of misc/ratelimit.go and
--   Misc.RateLimit.Wrap its handler.
-- - Http: the parts of net/http's request and response that the handlers use.
-- - Httpio: httpio/routes.go; Httpio.Api is httpio/api_handlers.go, Httpio.View
--   httpio/view_handlers.go, Httpio.Static httpio/static_handlers.go. HandleApiNew locks the store twice,
--   so it takes the operations that other goroutines do in between as an argument.
-- - Fileio: fileio/file.go.
-- - Admin: admin/admin.go's socket, from Serve to Close, over an interface for the calls of os and net.
--   The laws of that interface are in Admin.Laws. Admin.Report has Snapshot, Handler and Fetch.
-- - Cmd: Cmd.Server is cmd/server.go: the flags and the files that SIGHUP reloads; Cmd.Server.Mux buildMux
--   and what its result does with one request (`serve_http`); Cmd.Server.Run the start up to the call of
--   ListenAndServe, and the stop. Cmd.Server.Live is the server while it runs: each
--   handler as the sequence of its accesses to what the requests share (`Prog`), and the steps of
--   any number of requests, of reloads and of expiry in any order (Cmd.Server.Live.Steps).
--   Cmd.Server.Stop goes on from the call of ListenAndServe: its return and its errors, and the stop as the
--   two goroutines that it consists of, among the lines that others log. Cmd.Flags has the flags
--   of both commands, with the helpers of cmd/root.go; Cmd.Flags.Start runs the server from its
--   command line on. Cmd.Stats is cmd/stats.go, Cmd.Root cmd/root.go.
--
-- Parameters, since their code is not in the repository: the outcomes of crypto/rand, the clock,
-- json.Unmarshal and the JSON encoder, http.Request.ParseForm, http.ServeMux, http.ServeContent, the
-- HTTP client, ListenAndServe and Shutdown, mail.ParseAddress, net.ParseIP, net.SplitHostPort,
-- strconv.ParseInt, sha256, text/template, the files, and the calls of os and net. What a theorem
-- needs of them is one of its hypotheses.
--
-- Bounds: the ids are looked for in ten draws, as in the code; decimal numbers are printed with one
-- step of fuel more than the number, which is more than it has digits. No other function has fuel.
-- The limiter counts tokens in a float64; the model counts units of 1 / interval of a token exactly,
-- so the rounding of floats is left out (a float can come out just below a whole token, and Allow then
-- refuses where the exact count passes), and so is that of Duration.Hours and Duration.Minutes in
-- humanDuration. In Store.Mutex the loops of AddEntry and expireOnce under the lock are one step
-- each. In Cmd.Server.Mux requests are handled one after the other, apart from what others do to the
-- store between the two locks of HandleApiNew; in Cmd.Server.Live their steps interleave, a step
-- being one call of the store or of a limiter, or one load of the files.
--
-- Not modelled: the HTML templates and static assets, what --help prints, what the timeouts of the
-- HTTP servers do, and the log, apart from the line of a request and those of the stop: they are input and
-- output for the most part. Other processes that act between two calls of the admin code are left
-- out.
pub mod Prelude
pub mod Base64
pub mod Admin
pub mod Cmd
pub mod Fileio
pub mod Http
pub mod Httpio
pub mod Misc
pub mod Store
pub mod TokenDb
