-- ===== src/Cmd/Server/Stop.antt =====
-- cmd/server.go: the end of runServer and shutdownWhen as two goroutines. ListenAndServe is a parameter
-- with what net/http documents of it: it returns ErrServerClosed once Shutdown has been called, and may
-- return another error at any time. `close_stats` is stats.Close and `shutdown` srv.Shutdown, with the
-- error's text.
mod Tests
pub mod Order
pub mod Progress
use onetimelink.Prelude.{
  Bool, Option, List, true, ◌≡◌, [], false, ◌++◌, some, length, ◌∷◌, none, map,
}
use onetimelink.Prelude.Text.{Bytes, utf8}
use onetimelink.Store.{SecretStore}
use onetimelink.Cmd.Server.{stop_notice}

-- Where the goroutine of shutdownWhen stands.

pub data Stopper : Type 0 where
  waiting : Stopper  -- before the signal
  signalled : Bytes → Stopper  -- before the notice
  noticed : Stopper  -- before stats.Close
  closed : Stopper  -- before srv.Shutdown
  shutting : Stopper  -- in srv.Shutdown
  shut : Stopper  -- before release
  released : Stopper  -- before close(done)
  done : Stopper

-- Where runServer stands, from ListenAndServe on.
pub data Main : Type 0 where
  listening : Main
  stopping : Main  -- before <-stopped
  stopped : Main  -- returned
  fatal : Main  -- in log.Fatal: the process is gone
  killed : Main  -- by a signal that nobody is registered for

-- A line of the log: of the stop, or of the goroutines that serve, reload and expire.
pub data Line : Type 0 where
  of_stop : Bytes → Line
  of_others : Bytes → Line

abbrev pub stop_lines : List Line → List Bytes
stop_lines [] = []
stop_lines (of_stop text ∷ lines) = text ∷ stop_lines lines
stop_lines (of_others text ∷ lines) = stop_lines lines

pub record Process (World : Type 0) : Type 0 where
  pub world : World
  pub store : SecretStore
  pub main : Main
  pub stopper : Stopper
  pub lines : List Line

-- Whether ListenAndServe gives ErrServerClosed.
abbrev pub is_closed : Stopper → Bool
is_closed shutting = true
is_closed shut = true
is_closed released = true
is_closed done = true
is_closed _ = false

abbrev pub is_alive : Main → Bool
is_alive listening = true
is_alive stopping = true
is_alive _ = false

-- Whether signal.Stop has given the signals back to the runtime.
abbrev pub is_released : Stopper → Bool
is_released released = true
is_released done = true
is_released _ = false

-- What is logged of the error of Shutdown.
abbrev pub shutdown_lines : Option Bytes → List Bytes
shutdown_lines none = []
shutdown_lines (some text) = (utf8 "shutdown: " ++ text) ∷ []

module _ {World : Type 0} (close_stats : World → World)
    (shutdown : World → World × Option Bytes) where
  pub data Step (p : Process World) : Process World → Type 0 where
    -- Requests and expiry change the store and log until the process ends, as reloads do.
    serve :
        (st : SecretStore) (logged : List Bytes)
        → is_alive p.main ≡ true
        → Step p (record p { store = st; lines = p.lines ++ map of_others logged })
    receive :
        (sig : Bytes)
        → is_alive p.main ≡ true
        → p.stopper ≡ waiting
        → Step p (record p { stopper = signalled sig })
    notice :
        {sig : Bytes}
        → is_alive p.main ≡ true
        → p.stopper ≡ signalled sig
        → Step p (record p {
          stopper = noticed;
          lines = p.lines ++ map of_stop (stop_notice sig (length p.store.entries) ∷ []);
        })
    close_admin :
        is_alive p.main ≡ true
        → p.stopper ≡ noticed
        → Step p (record p { stopper = closed; world = close_stats p.world })
    start_shutdown :
        is_alive p.main ≡ true → p.stopper ≡ closed → Step p (record p { stopper = shutting })
    end_shutdown :
        is_alive p.main ≡ true
        → p.stopper ≡ shutting
        → Step p (record p {
          stopper = shut;
          world = (shutdown p.world).0;
          lines = p.lines ++ map of_stop (shutdown_lines (shutdown p.world).1);
        })
    release : is_alive p.main ≡ true → p.stopper ≡ shut → Step p (record p { stopper = released })
    finish : is_alive p.main ≡ true → p.stopper ≡ released → Step p (record p { stopper = done })
    server_closed :
        p.main ≡ listening → is_closed p.stopper ≡ true → Step p (record p { main = stopping })
    server_failed :
        (text : Bytes)
        → p.main ≡ listening
        → Step p (record p { main = fatal; lines = p.lines ++ map of_stop (text ∷ []) })
    -- A further SIGTERM: before `release` it is swallowed.
    kill :
        is_alive p.main ≡ true → is_released p.stopper ≡ true → Step p (record p { main = killed })
    leave :
        p.main ≡ stopping
        → p.stopper ≡ done
        → Step p (record p { main = stopped; lines = p.lines ++ map of_stop (utf8 "stopped" ∷ []) })

  pub data Reach (start : Process World) : Process World → Type 0 where
    begin : Reach start start
    then_step : {p q : Process World} → Reach start p → Step p q → Reach start q

  -- The signal that a run has received, and where it has logged the notice: the signal that the goroutine
  -- holds and the store there.
  abbrev pub signal_of : {start p : Process World} → Reach start p → Option Bytes
  signal_of begin = none
  signal_of (then_step r (receive sig alive e)) = some sig
  signal_of (then_step r _) = signal_of r

  abbrev pub store_of : {start p : Process World} → Reach start p → Option SecretStore
  store_of begin = none
  store_of (then_step {p} r (notice alive e)) = some p.store
  store_of (then_step r _) = store_of r
