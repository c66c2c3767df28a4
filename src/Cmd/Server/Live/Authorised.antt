-- ===== src/Cmd/Server/Live/Authorised.antt =====
-- Requests of the API for new secrets, and the token databases that are published while the server runs.
use onetimelink.Cmd.Server.Live.Steps.{
  Live, History, Task, new_task, serve_prog, Reach, Move, arrive, refresh, tick, go, begin,
  then_step, load, look, act, pass_new, refuse_new, pass_get, refuse_get,
}
use onetimelink.Cmd.Server.Mux.{Outside, Config, Arrival, ServerState, Route}
use onetimelink.Cmd.Server.Live.{
  Prog, answers, loads, reads, acts, admits, add_if, api_new_prog, route_prog,
}
use onetimelink.Prelude.{
  refl, ◌≡◌, ◌≢◌, true, false, Bool, arith, inl, inr, some, take, Bool-cases, All, All-append, List,
  ◌++◌, ◌∷◌, [], sym,
}
use onetimelink.Cmd.Server.{Assets, loaded_assets, reload}
use onetimelink.Store.{StoreEntry, SecretStore}
use onetimelink.TokenDb.{is_authorized}
use onetimelink.Prelude.Text.{Bytes, str_eq}
use onetimelink.Httpio.Api.{json_respond, max_data}
use onetimelink.Store.History.{Op}
use onetimelink.Http.{Reply, Headers, method_post}
use onetimelink.Prelude.Result.{ok, Result-cases}
use mathlib.Core.Path.{subst}
use onetimelink.Misc.Headers.{security_headers}

-- Whatever else happens, with files of which `P` holds the handler does not write to the store nor answer
-- 201.
abbrev pub NeverCreates : (Assets → Type 0) → Prog → Type 0
NeverCreates P (answers reply) = reply.response.status ≢ 201
NeverCreates P (loads f) = (files : Assets) → P files → NeverCreates P (f files)
NeverCreates P (reads f) = (st : SecretStore) → NeverCreates P (f st)
NeverCreates P (acts op f) = ⊥
NeverCreates P (admits limit p) = NeverCreates P p

module _ (o : Outside) (c : Config) (body : Bytes) where
  -- The files do not authorise the entry that the body is read as.
  abbrev pub Rejects : Assets → Type 0
  Rejects files =
      (entry : StoreEntry)
      → o.decoders.unmarshal_entry (take max_data body) ≡ ok entry
      → (is_authorized o.sha256 files.auth entry).1 ≡ false

  -- Of the files at first and of those of each reload.
  abbrev pub AllPublished :
      (P : Assets → Type 0) {start : ServerState} {l : Live} → Reach o c start l → Type 0
  AllPublished P {start} begin = P (loaded_assets start.assets)
  AllPublished P (then_step r (refresh sources now)) =
      P (loaded_assets (reload sources now)) × AllPublished P r
  AllPublished P (then_step r (arrive a)) = AllPublished P r
  AllPublished P (then_step r (tick now)) = AllPublished P r
  AllPublished P (then_step r (go before after t split m)) = AllPublished P r

  -- A request for a new secret that has this body.
  record IsPosted (t : Task) : Type 0 where
    to_api : t.route ≡ some Route.api_new
    sends : t.arrival.request.body ≡ some body

  add_if-NeverCreates :
      (a : Arrival) (head : Headers) (r : StoreEntry × Bool)
      → r.1 ≡ false
      → NeverCreates Rejects (add_if o c a head r)
  unfolding add_if json_respond
  add_if-NeverCreates a head (entry, false) h = λ e. absurd (ground (arith, e))
  add_if-NeverCreates a head (entry, true) h = absurd (cc)

  api_new_prog-NeverCreates :
      (a : Arrival) (head : Headers)
      → a.request.body ≡ some body
      → NeverCreates Rejects (api_new_prog o c a head)
  unfolding api_new_prog json_respond
  api_new_prog-NeverCreates a head sent = elim (Bool-cases (str_eq a.request.method method_post)) [
    | inr other ↦ rw (other, api_new_prog) (λ e. absurd (ground (arith, e)))
    | inl posted ↦ elim (Result-cases (o.decoders.unmarshal_entry (take max_data body))) [
      | inr (message, bad) ↦ rw (posted, sent, bad, api_new_prog) (λ e. absurd (ground (arith, e)))
      | inl (entry, decoded) ↦
          rw (posted, sent, decoded, api_new_prog)
            (λ files rejects.
              add_if-NeverCreates a head (is_authorized o.sha256 files.auth entry)
                (rejects entry decoded))
    ]
  ]

  -- A task that has the request, if it has, does not create.
  abbrev Keeps : Task → Type 0
  Keeps t = IsPosted t → NeverCreates Rejects t.prog

  replace-All :
      (before after : List Task) (t t' : Task)
      → (Keeps t → Keeps t')
      → All Keeps (before ++ (t ∷ after))
      → All Keeps (before ++ (t' ∷ after))
  replace-All [] after t t' f (h, hs) = (f h, hs)
  replace-All (b ∷ before) after t t' f (h, hs) = (h, replace-All before after t t' f hs)

  Move-NeverCreates :
      {a : Arrival} {s s' : ServerState} {h h' : History} {p p' : Prog}
      → Move o c a s h p s' h' p'
      → Rejects (loaded_assets s.assets)
      → NeverCreates Rejects p
      → NeverCreates Rejects p'
  Move-NeverCreates {s = s} load now never = never (loaded_assets s.assets) now
  Move-NeverCreates {s = s} look now never = never s.store
  Move-NeverCreates act now never = absurd never
  Move-NeverCreates (pass_new passes) now never = never
  Move-NeverCreates (refuse_new refused) now never = λ e. absurd (ground (arith, e))
  Move-NeverCreates (pass_get passes) now never = never
  Move-NeverCreates (refuse_get refused) now never = λ e. absurd (ground (arith, e))

  Move-assets :
      {a : Arrival} {s s' : ServerState} {h h' : History} {p p' : Prog}
      → Move o c a s h p s' h' p'
      → s'.assets ≡ s.assets
  Move-assets load = refl
  Move-assets look = refl
  Move-assets act = refl
  Move-assets (pass_new passes) = refl
  Move-assets (refuse_new refused) = refl
  Move-assets (pass_get passes) = refl
  Move-assets (refuse_get refused) = refl

  new_task-Keeps : (a : Arrival) → Keeps (new_task o c a)
  unfolding serve_prog route_prog
  new_task-Keeps a posted =
      subst (λ route. NeverCreates Rejects (serve_prog o c a route)) (sym posted.to_api)
        (api_new_prog-NeverCreates a (security_headers c.tls []) posted.sends)

  record Inv (l : Live) : Type 0 where
    current : Rejects (loaded_assets l.server.assets)
    tasks : All Keeps l.tasks

  Reach-Inv :
      {start : ServerState} {l : Live} (r : Reach o c start l) → AllPublished Rejects r → Inv l
  Reach-Inv begin h = record { current = h; tasks = tt }
  Reach-Inv (then_step r (refresh sources now)) (new, h) = record {
    current = new;
    tasks = (Reach-Inv r h).tasks;
  }
  Reach-Inv (then_step {l} r (arrive a)) h =
      let i = Reach-Inv r h in
      record {
        current = i.current;
        tasks = All-append Keeps l.tasks (new_task o c a ∷ []) i.tasks (new_task-Keeps a, tt);
      }
  Reach-Inv (then_step r (tick now)) h =
      let i = Reach-Inv r h in record { current = i.current; tasks = i.tasks }
  Reach-Inv (then_step {l} r (go before after t {p = p} split m)) h =
      let i = Reach-Inv r h in
      record {
        current = subst (λ files. Rejects (loaded_assets files)) (sym (Move-assets m)) i.current;
        tasks =
            replace-All before after t (record t { prog = p })
              (λ keeps posted.
                Move-NeverCreates m i.current
                  (keeps (record { to_api = posted.to_api; sends = posted.sends })))
              (subst (All Keeps) split i.tasks);
      }

  picked : (before after : List Task) (t : Task) → All Keeps (before ++ (t ∷ after)) → Keeps t
  picked [] after t (h, hs) = h
  picked (b ∷ before) after t (h, hs) = picked before after t hs

  -- However the steps of the requests interleave with one another, with reloads and with expiry: if no
  -- token database, neither the one at first nor that of a reload, authorises the entry that a body is
  -- read as, then no request of the API for a new secret that has this body is answered 201, and none
  -- gets as far as an operation that writes to the store.
  pub Reach-unauthorised :
      {start : ServerState} {l : Live} (r : Reach o c start l) (before after : List Task) (t : Task)
      → AllPublished Rejects r
      → l.tasks ≡ before ++ (t ∷ after)
      → t.route ≡ some Route.api_new
      → t.arrival.request.body ≡ some body
      → ((reply : Reply) → t.prog ≡ answers reply → reply.response.status ≢ 201)
        × ((op : Op) (f : SecretStore → Prog) → t.prog ≢ acts op f)
  Reach-unauthorised r before after t h split to_api sends =
      let never =
        picked before after t (subst (All Keeps) split (Reach-Inv r h).tasks)
          (record { to_api = to_api; sends = sends }) in
      (
        λ reply answered. subst (NeverCreates Rejects) answered never,
        λ op f writes. subst (NeverCreates Rejects) writes never,
      )
