-- ===== src/Cmd/Server/Stop/Tests.antt =====
-- A server that is told to stop while a request is served.
use onetimelink.Cmd.Server.Tests.{broken, full_server, sources}
use onetimelink.Cmd.Server.Stop.{
  Process, Reach, waiting, listening, stopped, begin, then_step, receive, serve, notice,
  close_admin, start_shutdown, end_shutdown, server_closed, release, finish, leave, is_alive,
  signal_of, store_of, stop_lines,
}
use onetimelink.Cmd.Server.Stop.Order.{Reach-stopped, close_stats}
use onetimelink.Prelude.{Option, none, ◌≡◌, some, [], ◌++◌, ◌∷◌, refl, true, ◌≢◌}
use onetimelink.Prelude.Text.{Bytes, codes, utf8}
use onetimelink.Cmd.Server.Run.{shut_down}
use onetimelink.Store.{new, SecretStore}
use onetimelink.Prelude.Int.{pos}
use onetimelink.Cmd.Server.Stop.Progress.{Reach-can_return}

abbrev listening_server : Process (Unit {0})
listening_server = record {
  world = tt;
  store = full_server.store;
  main = listening;
  stopper = waiting;
  lines = [];
}

-- Shutdown runs into its timeout.
abbrev late_shutdown : Unit {0} → Unit {0} × Option Bytes
late_shutdown w = (w, some (codes "context deadline exceeded"))

abbrev Stops : Process (Unit {0}) → Type 0
Stops p = Reach (close_stats broken sources none late_shutdown) late_shutdown listening_server p

stop_run : (p : Process (Unit {0})) × Stops p × (p.main ≡ stopped)
stop_run =
    let told = then_step begin (receive (codes "terminated") refl refl) in
    let served = then_step told (serve (new (pos 5)) (codes "POST /g" ∷ []) refl) in
    let closed = then_step (then_step served (notice refl refl)) (close_admin refl refl) in
    let shutting = then_step closed (start_shutdown refl refl) in
    let returned = then_step shutting (server_closed refl refl) in
    let shut = then_step (then_step returned (end_shutdown refl refl)) (release refl refl) in
    (_, then_step (then_step shut (finish refl refl)) (leave refl refl), refl)

Reach-stopped_example :
    (sig : Bytes) × (st : SecretStore) × (signal_of
        (close_stats broken sources none late_shutdown)
        late_shutdown
        stop_run.1
      ≡ some sig)
    × (store_of (close_stats broken sources none late_shutdown) late_shutdown stop_run.1 ≡ some st)
    × (stop_run.0.world ≡ (shut_down broken sources late_shutdown sig none st tt).0)
    × (stop_lines stop_run.0.lines
        ≡ []
          ++ ((shut_down broken sources late_shutdown sig none st tt).1 ++ (utf8 "stopped" ∷ [])))
Reach-stopped_example =
    Reach-stopped broken sources none late_shutdown listening_server stop_run.0 refl refl stop_run.1
      stop_run.2

told_run : (p : Process (Unit {0})) × Stops p × (is_alive p.main ≡ true) × (p.stopper ≢ waiting)
told_run = (_, then_step begin (receive (codes "terminated") refl refl), refl, λ e. cc)

Reach-can_return_example : (q : Process (Unit {0})) × Stops q × (q.main ≡ stopped)
Reach-can_return_example =
    Reach-can_return (close_stats broken sources none late_shutdown) late_shutdown listening_server
      told_run.0 told_run.1 told_run.2 told_run.3
