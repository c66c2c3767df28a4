-- ===== src/Cmd/Server/Live/Shown.antt =====
-- How often the running server shows a secret.
use onetimelink.Cmd.Server.Live.Steps.{
  Live, History, new_task, serve_prog, Step, Reach, Move, arrive, refresh, tick, go, begin,
  then_step, load, look, act, pass_new, refuse_new, pass_get, refuse_get,
}
use onetimelink.Cmd.Server.Mux.{Outside, Config, Arrival, Route, ServerState, route_of}
use onetimelink.Prelude.Text.{Bytes}
use onetimelink.Cmd.Server.Live.Price.{
  Owes, Covered, sum, counted_all, counted_all-le, Covered-arrive, Covered-go,
}
use onetimelink.Prelude.{
  Option, List, ◌≡◌, [], arith, some, ℕ, All, none, ◌++◌, ◌+◌, refl, ◌∷◌, ◌≤◌,
}
use onetimelink.Store.{SecretStore}
use onetimelink.Store.History.{
  run, handed_out, total, Op, step, run-append, remaining, total-append, granted, expires,
}
use onetimelink.Cmd.Server.Live.{Prog}
use onetimelink.Store.Valid.{IsValid, IsOp}
use onetimelink.Misc.Headers.{security_headers}
use onetimelink.Cmd.Server.Live.Charge.{cost, Move-Owes}
use onetimelink.Store.Reads.{total-handed_out-le}
use mathlib.Core.Path.{subst}
use onetimelink.Cmd.Server.Live.ShownPrice.{
  IsSilent, IsText-discloses, shown_price, route_prog-Owes,
}

module _ (o : Outside) (c : Config) (id : Bytes) where
  -- The history leads to the store, and the tasks have claimed what it hands out.
  record Ledger (start : ServerState) (l : Live) : Type 0 where
    kept : l.server.store ≡ run start.store l.history.ops
    claimed : List ℕ
    covered : Covered (shown_price id) l.tasks claimed
    paid : sum claimed ≤ total (handed_out id) start.store l.history.ops

  op-append :
      (start st : SecretStore) (h : List Op) (op : Op)
      → st ≡ run start h
      → (step st op ≡ run start (h ++ (op ∷ [])))
        × (total (handed_out id) start (h ++ (op ∷ []))
            ≡ total (handed_out id) start h + handed_out id st op)
  op-append start st h op kept =
      rw (kept, run-append start h op, total-append (handed_out id) start h op) (refl, refl)

  Move-total :
      (start : SecretStore) {a : Arrival} {s s' : ServerState} {h h' : History} {p p' : Prog}
      (m : Move o c a s h p s' h' p')
      → s.store ≡ run start h.ops
      → (s'.store ≡ run start h'.ops)
        × (total (handed_out id) start h'.ops
            ≡ total (handed_out id) start h.ops + cost o c (shown_price id) m)
  Move-total start load kept = (kept, omega arith)
  Move-total start look kept = (kept, omega arith)
  Move-total start {s = s} {h = h} (act {op = op}) kept = op-append start s.store h.ops op kept
  Move-total start (pass_new passes) kept = (kept, omega arith)
  Move-total start (refuse_new refused) kept = (kept, omega arith)
  Move-total start (pass_get passes) kept = (kept, omega arith)
  Move-total start (refuse_get refused) kept = (kept, omega arith)

  new_task-Owes :
      (a : Arrival)
      → IsSilent o
      → Owes (shown_price id) (new_task o c a).route a.request (new_task o c a).prog 0
  unfolding serve_prog
  new_task-Owes a silent = by_route (route_of o c a.request)
    where
      by_route :
          (route : Option Route) → Owes (shown_price id) route a.request (serve_prog o c a route) 0
      by_route none = IsText-discloses id _ (silent.unroutes a.request)
      by_route (some route) = route_prog-Owes o c a (security_headers c.tls []) id route silent

  Step-Ledger :
      {start : ServerState} {l l' : Live}
      → Step o c l l'
      → IsSilent o
      → Ledger start l
      → Ledger start l'
  Step-Ledger {start} {l} (arrive a) silent i =
      let (ms, covered, same) =
        Covered-arrive (shown_price id) l.tasks (new_task o c a) i.claimed i.covered
          (new_task-Owes a silent) in
      record { kept = i.kept; claimed = ms; covered = covered; paid = omega (arith, i.paid, same) }
  Step-Ledger {start} {l} (refresh sources now) silent i = record {
    kept = i.kept;
    claimed = i.claimed;
    covered = i.covered;
    paid = i.paid;
  }
  Step-Ledger {start} {l} (tick now) silent i =
      let (after, handed) =
        op-append start.store l.server.store l.history.ops (expires now) i.kept in
      record {
        kept = after;
        claimed = i.claimed;
        covered = i.covered;
        paid = omega (arith, i.paid, handed);
      }
  Step-Ledger {start} {l} (go before after t {p = p} split m) silent i =
      let (kept, handed) = Move-total start.store m i.kept in
      let (ms, covered, more) =
        Covered-go (shown_price id) before after t (record t { prog = p }) i.claimed
          (cost o c (shown_price id) m)
          (subst (λ tasks. Covered (shown_price id) tasks i.claimed) split i.covered)
          (Move-Owes o c (shown_price id) t.route m) in
      record {
        kept = kept;
        claimed = ms;
        covered = covered;
        paid = omega (arith, i.paid, more, handed);
      }

  Reach-Ledger : {start : ServerState} {l : Live} → Reach o c start l → IsSilent o → Ledger start l
  unfolding run total
  Reach-Ledger begin silent = record { kept = refl; claimed = []; covered = tt; paid = omega arith }
  Reach-Ledger (then_step r s) silent = Step-Ledger s silent (Reach-Ledger r silent)

  -- However the steps of the requests interleave with one another, with reloads and with expiry, in a server
  -- whose store is well formed at first: the answers that carry an entry under an id with its secret, on
  -- a page or from the API, whatever the request and the status, are at most the reads that were left
  -- there and those that the successful calls of AddEntry allowed. The answers of http.ServeContent and
  -- those of the mux itself carry no entry, the MaxClicks of each added entry is one that its Go type int
  -- has room for, and a secret that is the text "#HIDDEN#" counts as hidden.
  pub Reach-shown-le :
      (start : ServerState) (l : Live)
      → IsSilent o
      → Reach o c start l
      → IsValid start.store
      → All IsOp l.history.ops
      → counted_all (shown_price id) l.tasks
        ≤ remaining id start.store + total (granted id) start.store l.history.ops
  Reach-shown-le start l silent r v fine =
      let i = Reach-Ledger r silent in
      omega (
        arith,
        counted_all-le (shown_price id) l.tasks i.claimed i.covered,
        i.paid,
        total-handed_out-le id start.store l.history.ops fine v,
      )
