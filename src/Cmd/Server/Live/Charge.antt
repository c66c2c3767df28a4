-- ===== src/Cmd/Server/Live/Charge.antt =====
-- What a step of a handler pays, and that the handler may answer for it.
use onetimelink.Cmd.Server.Live.Steps.{
  History, Move, load, look, act, pass_new, refuse_new, pass_get, refuse_get,
}
use onetimelink.Cmd.Server.Mux.{Outside, Config, Arrival, ServerState, Route}
use onetimelink.Cmd.Server.Live.Price.{Price, Owes}
use onetimelink.Cmd.Server.Live.{Prog, for_new, for_get}
use onetimelink.Prelude.{Option, ℕ, ◌+◌, arith}
use mathlib.Core.Path.{subst}
use onetimelink.Cmd.Server.{loaded_assets}

module _ (o : Outside) (c : Config) (price : Price) where
  abbrev pub cost :
      {a : Arrival} {s s' : ServerState} {h h' : History} {p p' : Prog}
      → Move o c a s h p s' h' p'
      → ℕ
  cost load = 0
  cost look = 0
  cost {s = s} (act {op = op}) = price.op_cost s.store op
  cost {a} (pass_new passes) = price.pass_cost for_new a.request
  cost (refuse_new refused) = 0
  cost {a} (pass_get passes) = price.pass_cost for_get a.request
  cost (refuse_get refused) = 0

  pub Move-Owes :
      {a : Arrival} {s s' : ServerState} {h h' : History} {p p' : Prog} (route : Option Route)
      (m : Move o c a s h p s' h' p') (n : ℕ)
      → Owes price route a.request p n
      → Owes price route a.request p' (n + cost m)
  Move-Owes {a} {s} {p' = p'} route load n owed =
      subst (Owes price route a.request p') (omega arith) (owed (loaded_assets s.assets))
  Move-Owes {a} {s} {p' = p'} route look n owed =
      subst (Owes price route a.request p') (omega arith) (owed s.store)
  Move-Owes {s = s} route act n owed = owed s.store
  Move-Owes route (pass_new passes) n owed = owed
  Move-Owes {a} route (refuse_new refused) n owed = omega (arith, price.refused route a.request)
  Move-Owes route (pass_get passes) n owed = owed
  Move-Owes {a} route (refuse_get refused) n owed = omega (arith, price.refused route a.request)
