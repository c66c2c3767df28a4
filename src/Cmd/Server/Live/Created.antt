-- ===== src/Cmd/Server/Live/Created.antt =====
-- How many secrets a client can create while the server runs.
use onetimelink.Cmd.Server.Live.Steps.{
  Live, History, new_task, serve_prog, Step, Reach, Move, arrive, refresh, tick, go, begin,
  then_step, load, look, act, pass_new, refuse_new, pass_get, refuse_get,
}
use onetimelink.Cmd.Server.Mux.{
  Outside, Config, Arrival, ServerState, start_server, Route, route_of,
}
use onetimelink.Misc.RateLimit.{Limiter, new_limiter, allow}
use onetimelink.Misc.RateLimit.Bound.{passed, InOrder, end_time, passed-le-rate}
use onetimelink.Prelude.{
  List, Option, [], ◌++◌, ◌∷◌, ◌≡◌, arith, some, ℕ, ◌+◌, if◌then◌else◌, none, refl, ◌≤◌, ◌&&◌, sym,
  ◌*◌,
}
use onetimelink.Prelude.Text.{Bytes, str_eq}
use onetimelink.Cmd.Server.Live.{Prog}
use onetimelink.Cmd.Server.Live.Price.{
  Covered-arrive, Owes, Covered, Covered-go, sum, counted_all, counted_all-le,
}
use onetimelink.Prelude.Clock.{Time}
use onetimelink.Misc.RateLimit.Answer.{limiter_after}
use onetimelink.Store.{SecretStore}
use onetimelink.Cmd.Server.{Assets, new_burst, new_interval}
use onetimelink.Cmd.Server.Live.Charge.{cost, Move-Owes}
use onetimelink.Misc.Headers.{security_headers}
use mathlib.Core.Path.{subst}
use onetimelink.Misc.RateLimit.Wrap.{client_key}
use onetimelink.Prelude.Int.{pos, ◌≤ℤ◌, ◌+ℤ◌, ◌-ℤ◌, int_laws}
use onetimelink.Cmd.Server.Limits.{new_limiter-IsSound}
use onetimelink.Cmd.Server.Live.CreatedPrice.{created_price, route_prog-Owes}

limiter_after-append :
    (l : Limiter) (calls : List (Bytes × Time)) (k : Bytes) (u : Time)
    → limiter_after l (calls ++ ((k, u) ∷ [])) ≡ (allow (limiter_after l calls) k u).0
limiter_after-append l [] k u = refl
limiter_after-append l ((j, v) ∷ calls) k u = limiter_after-append (allow l j v).0 calls k u

passed-append :
    (key : Bytes) (l : Limiter) (calls : List (Bytes × Time)) (k : Bytes) (u : Time)
    → passed key l (calls ++ ((k, u) ∷ []))
      ≡ passed key l calls
        + (if str_eq k key && (allow (limiter_after l calls) k u).1 then 1 else 0)
unfolding passed
passed-append key l [] k u = omega arith
passed-append key l ((j, v) ∷ calls) k u =
    omega (arith, passed-append key (allow l j v).0 calls k u)

module _ (o : Outside) (c : Config) (key : Bytes) where
  -- The calls lead to the limiter, and the tasks have paid with those that passed.
  record Ledger (start : ServerState) (l : Live) : Type 0 where
    kept : l.server.new_limiter ≡ limiter_after start.new_limiter l.history.calls
    spent : List ℕ
    covered : Covered (created_price o key) l.tasks spent
    paid : sum spent ≤ passed key start.new_limiter l.history.calls

  call-append :
      (start : Limiter) {l : Limiter} (calls : List (Bytes × Time)) (k : Bytes) (u : Time)
      → l ≡ limiter_after start calls
      → ((allow l k u).0 ≡ limiter_after start (calls ++ ((k, u) ∷ [])))
        × (passed key start (calls ++ ((k, u) ∷ []))
            ≡ passed key start calls + (if str_eq k key && (allow l k u).1 then 1 else 0))
  call-append start calls k u kept =
      rw kept (sym (limiter_after-append start calls k u), passed-append key start calls k u)

  Move-passed :
      (start : Limiter) {a : Arrival} {s s' : ServerState} {h h' : History} {p p' : Prog}
      (m : Move o c a s h p s' h' p')
      → s.new_limiter ≡ limiter_after start h.calls
      → (s'.new_limiter ≡ limiter_after start h'.calls)
        × (passed key start h'.calls ≡ passed key start h.calls + cost o c (created_price o key) m)
  Move-passed start load kept = (kept, omega arith)
  Move-passed start look kept = (kept, omega arith)
  Move-passed start act kept = (kept, omega arith)
  Move-passed start {a} {h = h} (pass_new passes) kept =
      let (after, more) =
        call-append start h.calls (client_key o.split_host_port a.request) a.seen kept in
      (after, ground (arith, more, passes))
  Move-passed start {a} {h = h} (refuse_new refused) kept =
      let (after, more) =
        call-append start h.calls (client_key o.split_host_port a.request) a.seen kept in
      (after, ground (arith, more, refused))
  Move-passed start (pass_get passes) kept = (kept, omega arith)
  Move-passed start (refuse_get refused) kept = (kept, omega arith)

  new_task-Owes :
      (a : Arrival)
      → Owes (created_price o key) (new_task o c a).route a.request (new_task o c a).prog 0
  unfolding serve_prog
  new_task-Owes a = by_route (route_of o c a.request)
    where
      by_route :
          (route : Option Route)
          → Owes (created_price o key) route a.request (serve_prog o c a route) 0
      by_route none = ground arith
      by_route (some route) = route_prog-Owes o key c a (security_headers c.tls []) route

  Step-Ledger :
      {start : ServerState} {l l' : Live} → Step o c l l' → Ledger start l → Ledger start l'
  Step-Ledger {start} {l} (arrive a) i =
      let (ms, covered, same) =
        Covered-arrive (created_price o key) l.tasks (new_task o c a) i.spent i.covered
          (new_task-Owes a) in
      record { kept = i.kept; spent = ms; covered = covered; paid = omega (arith, i.paid, same) }
  Step-Ledger {start} {l} (refresh sources now) i = record {
    kept = i.kept;
    spent = i.spent;
    covered = i.covered;
    paid = i.paid;
  }
  Step-Ledger {start} {l} (tick now) i = record {
    kept = i.kept;
    spent = i.spent;
    covered = i.covered;
    paid = i.paid;
  }
  Step-Ledger {start} {l} (go before after t {p = p} split m) i =
      let (kept, handed) = Move-passed start.new_limiter m i.kept in
      let (ms, covered, more) =
        Covered-go (created_price o key) before after t (record t { prog = p }) i.spent
          (cost o c (created_price o key) m)
          (subst (λ tasks. Covered (created_price o key) tasks i.spent) split i.covered)
          (Move-Owes o c (created_price o key) t.route m) in
      record {
        kept = kept;
        spent = ms;
        covered = covered;
        paid = omega (arith, i.paid, more, handed);
      }

  Reach-Ledger : {start : ServerState} {l : Live} → Reach o c start l → Ledger start l
  unfolding passed
  Reach-Ledger begin = record { kept = refl; spent = []; covered = tt; paid = omega arith }
  Reach-Ledger (then_step r s) = Step-Ledger s (Reach-Ledger r)

  -- However the steps of the requests interleave with one another, with reloads and with expiry: a server
  -- that has just started answers at most ten requests of a client that a secret was stored, and one more
  -- for every two seconds since, where the limiter reads its times in order.
  pub Reach-created-le-rate :
      (store : SecretStore) (files : Option Assets) (t : Time) (l : Live)
      → Reach o c (start_server store files) l
      → InOrder t l.history.calls
      → pos (counted_all (created_price o key) l.tasks * 2_000_000_000)
        ≤ℤ pos 20_000_000_000 +ℤ (end_time t l.history.calls -ℤ t)
  unfolding start_server new_limiter
  Reach-created-le-rate store files t l r ordered =
      let i = Reach-Ledger r in
      omega (
        int_laws,
        counted_all-le (created_price o key) l.tasks i.spent i.covered,
        i.paid,
        passed-le-rate key (new_limiter new_burst new_interval) t l.history.calls
            (new_limiter-IsSound t) ordered,
      )
