-- ===== src/Cmd/Server/Live/Steps.antt =====
-- The running server: requests in any number, reloads and expiry, their steps in any order.
use onetimelink.Cmd.Server.Mux.{Arrival, Outside, ServerState, Config, Route, route_of}
use onetimelink.Prelude.{List, Option, [], ◌++◌, ◌∷◌, some, none, ◌≡◌, true, false}
use onetimelink.Store.History.{Op, step, expires}
use onetimelink.Cmd.Server.Live.{
  Prog, answers, loads, route_prog, reads, acts, admits, for_new, too_many, for_get,
}
use onetimelink.Cmd.Server.{Assets, Sources, loaded_assets, reload}
use onetimelink.Misc.Headers.{security_headers}
use onetimelink.Prelude.Clock.{Time}
use onetimelink.Store.{SecretStore}
use onetimelink.Misc.RateLimit.{allow}
use onetimelink.Misc.RateLimit.Wrap.{client_key}
use onetimelink.Prelude.Text.{Bytes}

-- A request that is being served: `route` is what the mux chose for it, `prog` what is left of its
-- handler.

pub record Task : Type 0 where
  pub arrival : Arrival
  pub route : Option Route
  pub prog : Prog

-- What has been done with the shared state: the operations on the store, and the calls of the limiter that
-- the handlers for new secrets share. It is not part of the program: no step depends on it.
pub record History : Type 0 where
  pub ops : List Op
  pub calls : List (Bytes × Time)

pub record Live : Type 0 where
  pub server : ServerState
  pub tasks : List Task
  pub history : History

module _ (o : Outside) (c : Config) where
  -- What buildMux returns, as the goroutine of a request starts it.
  unfoldable pub serve_prog : Arrival → Option Route → Prog
  serve_prog a none =
      answers (record { headers = security_headers c.tls []; response = o.unrouted a.request })
  serve_prog a (some route) = route_prog o c a (security_headers c.tls []) route

  abbrev pub new_task : Arrival → Task
  new_task a = record {
    arrival = a;
    route = route_of o c a.request;
    prog = serve_prog a (route_of o c a.request);
  }

  -- One step of one handler.
  pub data Move (a : Arrival) (s : ServerState) (h : History)
      : Prog → ServerState → History → Prog → Type 0 where
    load : {f : Assets → Prog} → Move a s h (loads f) s h (f (loaded_assets s.assets))
    look : {f : SecretStore → Prog} → Move a s h (reads f) s h (f s.store)
    act :
        {op : Op} {f : SecretStore → Prog}
        → Move a s h
            (acts op f)
            (record s { store = step s.store op })
            (record h { ops = h.ops ++ (op ∷ []) })
            (f s.store)
    pass_new :
        {p : Prog}
        → (allow s.new_limiter (client_key o.split_host_port a.request) a.seen).1 ≡ true
        → Move a s h
            (admits for_new p)
            (record s {
              new_limiter = (allow s.new_limiter (client_key o.split_host_port a.request) a.seen).0;
            })
            (record h {
              calls = h.calls ++ ((client_key o.split_host_port a.request, a.seen) ∷ []);
            })
            p
    refuse_new :
        {p : Prog}
        → (allow s.new_limiter (client_key o.split_host_port a.request) a.seen).1 ≡ false
        → Move a s h
            (admits for_new p)
            (record s {
              new_limiter = (allow s.new_limiter (client_key o.split_host_port a.request) a.seen).0;
            })
            (record h {
              calls = h.calls ++ ((client_key o.split_host_port a.request, a.seen) ∷ []);
            })
            (answers (too_many (security_headers c.tls [])))
    pass_get :
        {p : Prog}
        → (allow s.get_limiter (client_key o.split_host_port a.request) a.seen).1 ≡ true
        → Move a s h
            (admits for_get p)
            (record s {
              get_limiter = (allow s.get_limiter (client_key o.split_host_port a.request) a.seen).0;
            })
            h
            p
    refuse_get :
        {p : Prog}
        → (allow s.get_limiter (client_key o.split_host_port a.request) a.seen).1 ≡ false
        → Move a s h
            (admits for_get p)
            (record s {
              get_limiter = (allow s.get_limiter (client_key o.split_host_port a.request) a.seen).0;
            })
            h
            (answers (too_many (security_headers c.tls [])))

  pub data Step (l : Live) : Live → Type 0 where
    arrive : (a : Arrival) → Step l (record l { tasks = l.tasks ++ (new_task a ∷ []) })
    -- The goroutine of SIGHUP.
    refresh :
        (sources : Sources) (now : Time)
        → Step l (record l { server = record (l.server) { assets = reload sources now } })
    -- The goroutine of Expiry.
    tick :
        (now : Time)
        → Step l (record l {
          server = record (l.server) { store = step l.server.store (expires now) };
          history = record (l.history) { ops = l.history.ops ++ (expires now ∷ []) };
        })
    go :
        (before after : List Task) (t : Task) {s : ServerState} {h : History} {p : Prog}
        → l.tasks ≡ before ++ (t ∷ after)
        → Move t.arrival l.server l.history t.prog s h p
        → Step l
            (record { server = s; tasks = before ++ (record t { prog = p } ∷ after); history = h })

  pub data Reach (start : ServerState) : Live → Type 0 where
    begin :
        Reach start
          (record { server = start; tasks = []; history = record { ops = []; calls = [] } })
    then_step : {l l' : Live} → Reach start l → Step l l' → Reach start l'
