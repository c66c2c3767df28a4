-- ===== src/Cmd/Server/Live/Price.antt =====
-- A quantity that answers have, covered by what their handlers have paid for on the way.
use onetimelink.Cmd.Server.Live.Steps.{Task}
use onetimelink.Prelude.{List, Option, ℕ, ◌++◌, ◌∷◌, ◌≤◌, [], ◌+◌, arith, ◌≡◌, refl}
use onetimelink.Cmd.Server.Mux.{Route, Arrival}
use onetimelink.Cmd.Server.Live.{answers, Prog, loads, Limit, reads, acts, admits}
use onetimelink.Http.{Request, Response, http_error}
use onetimelink.Prelude.Text.{utf8}
use onetimelink.Store.{SecretStore}
use onetimelink.Store.History.{Op}
use onetimelink.Cmd.Server.{Assets}

-- What an answer counts, and what the steps before it pay for. A refusal of the limiter
-- counts nothing.

pub record Price : Type 0 where
  pub counts : Option Route → Request → Response → ℕ
  pub op_cost : SecretStore → Op → ℕ
  pub pass_cost : Limit → Request → ℕ
  pub refused :
      (route : Option Route) (r : Request)
      → counts route r (http_error (utf8 "too many requests") 429) ≡ 0

abbrev pub sum : List ℕ → ℕ
sum [] = 0
sum (n ∷ ns) = n + sum ns

module _ (price : Price) where
  -- Whatever else happens, the answer of the handler `p` counts at most `n` and what is paid until then.
  abbrev pub Owes : Option Route → Request → Prog → ℕ → Type 0
  Owes route r (answers reply) n = price.counts route r reply.response ≤ n
  Owes route r (loads f) n = (files : Assets) → Owes route r (f files) n
  Owes route r (reads f) n = (st : SecretStore) → Owes route r (f st) n
  Owes route r (acts op f) n = (st : SecretStore) → Owes route r (f st) (n + price.op_cost st op)
  Owes route r (admits limit p) n = Owes route r p (n + price.pass_cost limit r)

  -- Where no answer of the route counts more than `k`.
  pub capped-Owes :
      (route : Option Route) (r : Request) (k : ℕ)
      → ((response : Response) → price.counts route r response ≤ k)
      → (p : Prog) (n : ℕ) → k ≤ n
      → Owes route r p n
  capped-Owes route r k few (answers reply) n h = omega (arith, few reply.response)
  capped-Owes route r k few (loads f) n h = λ files. capped-Owes route r k few (f files) n h
  capped-Owes route r k few (reads f) n h = λ st. capped-Owes route r k few (f st) n h
  capped-Owes route r k few (acts op f) n h =
      λ st. capped-Owes route r k few (f st) (n + price.op_cost st op) (omega arith)
  capped-Owes route r k few (admits limit p) n h =
      capped-Owes route r k few p (n + price.pass_cost limit r) (omega arith)

  -- What a task has answered by now.
  abbrev pub counted : Task → ℕ
  counted t = elim t.prog [
    | answers reply ↦ price.counts t.route t.arrival.request reply.response
    | _ ↦ 0
  ]

  unfoldable pub counted_all : List Task → ℕ
  counted_all [] = 0
  counted_all (t ∷ tasks) = counted t + counted_all tasks

  -- What each task has paid covers its answer.
  abbrev pub Covered : List Task → List ℕ → Type 0
  Covered [] [] = Unit {0}
  Covered (t ∷ tasks) (n ∷ ns) = Owes t.route t.arrival.request t.prog n × Covered tasks ns
  Covered [] (n ∷ ns) = ⊥
  Covered (t ∷ tasks) [] = ⊥

  counted-le :
      (route : Option Route) (a : Arrival) (p : Prog) (n : ℕ)
      → Owes route a.request p n
      → counted (record { arrival = a; route = route; prog = p }) ≤ n
  counted-le route a (answers reply) n h = h
  counted-le route a (loads f) n h = omega arith
  counted-le route a (reads f) n h = omega arith
  counted-le route a (acts op f) n h = omega arith
  counted-le route a (admits limit p) n h = omega arith

  pub counted_all-le :
      (tasks : List Task) (ns : List ℕ) → Covered tasks ns → counted_all tasks ≤ sum ns
  unfolding counted_all
  counted_all-le [] [] h = omega arith
  counted_all-le (t ∷ tasks) (n ∷ ns) (h, hs) =
      omega (arith, counted-le t.route t.arrival t.prog n h, counted_all-le tasks ns hs)
  counted_all-le [] (n ∷ ns) h = absurd h
  counted_all-le (t ∷ tasks) [] h = absurd h

  -- One more task, which has paid nothing.
  pub Covered-arrive :
      (tasks : List Task) (t : Task) (ns : List ℕ)
      → Covered tasks ns
      → Owes t.route t.arrival.request t.prog 0
      → (ms : List ℕ) × Covered (tasks ++ (t ∷ [])) ms × (sum ms ≡ sum ns)
  Covered-arrive [] t [] h owes = (0 ∷ [], (owes, tt), refl)
  Covered-arrive (u ∷ tasks) t (n ∷ ns) (h, hs) owes =
      let (ms, covered, same) = Covered-arrive tasks t ns hs owes in
      (n ∷ ms, (h, covered), omega (arith, same))
  Covered-arrive [] t (n ∷ ns) h owes = absurd h
  Covered-arrive (u ∷ tasks) t [] h owes = absurd h

  -- A task that goes on, and pays `k` more.
  pub Covered-go :
      (before after : List Task) (t u : Task) (ns : List ℕ) (k : ℕ)
      → Covered (before ++ (t ∷ after)) ns
      → ((n : ℕ)
          → Owes t.route t.arrival.request t.prog n
          → Owes u.route u.arrival.request u.prog (n + k))
      → (ms : List ℕ) × Covered (before ++ (u ∷ after)) ms × (sum ms ≡ sum ns + k)
  Covered-go [] after t u (n ∷ ns) k (h, hs) goes = ((n + k) ∷ ns, (goes n h, hs), omega arith)
  Covered-go (v ∷ before) after t u (n ∷ ns) k (h, hs) goes =
      let (ms, covered, same) = Covered-go before after t u ns k hs goes in
      (n ∷ ms, (h, covered), omega (arith, same))
  Covered-go [] after t u [] k h goes = absurd h
  Covered-go (v ∷ before) after t u [] k h goes = absurd h
