-- ===== src/Cmd/Server/Live/Tests.antt =====
-- Runs of the server in which the handlers take turns as a list says.
use onetimelink.Cmd.Server.Tests.{
  outside, config, full_server, follow_link, post_entry, fill, assets, sources,
}
use onetimelink.Cmd.Server.Live.Steps.{
  Live, Reach, Move, History, arrive, refresh, go, begin, then_step, load, look, act, pass_get,
  refuse_get, pass_new, refuse_new, Task, serve_prog, new_task,
}
use onetimelink.Misc.RateLimit.{allow, new_limiter, admit, gc, spend, refill}
use onetimelink.Cmd.Server.Live.{
  Prog, answers, loads, reads, acts, admits, for_new, for_get, route_prog, get_prog, api_new_prog,
  reveal, add_if, add_prog, show_added,
}
use onetimelink.Cmd.Server.Mux.{Arrival, ServerState, start_server, route_of, routes}
use onetimelink.Prelude.{
  List, ℕ, ◌∷◌, Option, [], ◌≡◌, none, ◌++◌, refl, some, suc, ◌∙◌, inl, sym, inr, zero, All, arith,
  ◌*◌, ◌≤◌, ◌+◌, Bool, true, ◌⊎◌, false, ap, ◌≢◌,
}
use onetimelink.Misc.RateLimit.Wrap.{client_key}
use mathlib.Core.List.{append_assoc}
use onetimelink.Cmd.Server.Live.Price.{counted_all}
use onetimelink.Misc.RateLimit.Bound.{InOrder, end_time}
use onetimelink.Prelude.Int.{pos, ◌≤ℤ◌, ◌+ℤ◌, ◌-ℤ◌, wrap}
use onetimelink.Cmd.Server.Live.CreatedPrice.{created_price}
use onetimelink.Cmd.Server.Live.ShownPrice.{IsSilent, shown_price}
use onetimelink.Store.Valid.{IsOp, run-new-IsValid}
use onetimelink.Prelude.Text.{codes, str_eq, utf8, rune_bytes}
use onetimelink.Store.History.{remaining, total, granted, run, step, Op}
use onetimelink.Cmd.Server.Live.Created.{Reach-created-le-rate}
use onetimelink.Cmd.Server.Live.Shown.{Reach-shown-le}
use onetimelink.Store.{
  new, add_entry, choose_id, store_under, normalise, find_id, new_id, SecretStore,
}
use onetimelink.Prelude.GoMap.{lookup, insert, delete}
use onetimelink.Prelude.Clock.{sub}
use onetimelink.Store.Serve.{
  claim, put_back, click, get_entry_info_hidden, get_entry_info, make_info,
}
use onetimelink.TokenDb.{is_authorized, find_token, scan, make_token_db}
use onetimelink.Cmd.Server.{loaded_assets, Assets, reload, update_files}
use onetimelink.Httpio.View.{render_gone, render_error}
use onetimelink.Base64.{digit, raw_url_encode}
use onetimelink.Httpio.Api.{json_respond}
use onetimelink.Cmd.Server.Live.Authorised.{Rejects, Reach-unauthorised}
use onetimelink.Cmd.Server.Reload.{not_is_authorized}
use onetimelink.Http.{Reply}

abbrev test : (b : Bool) → (b ≡ true) ⊎ (b ≡ false)
test true = inl refl
test false = inr refl

-- The step that a handler takes next.
record Turn (a : Arrival) (s : ServerState) (h : History) (p : Prog) : Type 0 where
  server : ServerState
  history : History
  prog : Prog
  move : Move outside config a s h p server history prog

abbrev next : (a : Arrival) (s : ServerState) (h : History) (p : Prog) → Option (Turn a s h p)
next a s h (answers reply) = none
next a s h (loads f) = some (record { server = _; history = _; prog = _; move = load })
next a s h (reads f) = some (record { server = _; history = _; prog = _; move = look })
next a s h (acts op f) = some (record { server = _; history = _; prog = _; move = act })
next a s h (admits for_new p) =
    elim (test (allow s.new_limiter (client_key outside.split_host_port a.request) a.seen).1) [
      | inl passes ↦ some (record { server = _; history = _; prog = _; move = pass_new passes })
      | inr refused ↦ some (record { server = _; history = _; prog = _; move = refuse_new refused })
    ]
next a s h (admits for_get p) =
    elim (test (allow s.get_limiter (client_key outside.split_host_port a.request) a.seen).1) [
      | inl passes ↦ some (record { server = _; history = _; prog = _; move = pass_get passes })
      | inr refused ↦ some (record { server = _; history = _; prog = _; move = refuse_get refused })
    ]

-- A state of the running server that has been reached.
record Reached : Type 0 where
  live : Live
  reach : Reach outside config full_server live

-- The n-th of the tasks that come after `before` takes a step.
abbrev turn_in :
    (before rest : List Task) (n : ℕ) (r : Reached) → r.live.tasks ≡ before ++ rest → Reached
turn_in before [] n r e = r
turn_in before (t ∷ rest) zero r e = elim (next t.arrival r.live.server r.live.history t.prog) [
  | none ↦ r
  | some m ↦ record { live = _; reach = then_step r.reach (go before rest t e m.move) }
]
turn_in before (t ∷ rest) (suc n) r e =
    turn_in (before ++ (t ∷ [])) rest n r (e ∙ sym (append_assoc before (t ∷ []) rest))

abbrev turns : List ℕ → Reached → Reached
turns [] r = r
turns (n ∷ ns) r = turns ns (turn_in [] r.live.tasks n r refl)

abbrev arrivals : List Arrival → Reached → Reached
arrivals [] r = r
arrivals (a ∷ rest) r = arrivals rest (record { live = _; reach = then_step r.reach (arrive a) })

abbrev started : Reached
started = record { live = _; reach = begin }

-- Two requests for the secret pass the limiter, the second claims it before the first does, and both
-- answer.
abbrev two_links : Reached
two_links = turns (0 ∷ 1 ∷ 1 ∷ 0 ∷ 1 ∷ []) (arrivals (follow_link ∷ follow_link ∷ []) started)

shown_once : counted_all (shown_price (codes "k")) two_links.live.tasks ≡ 1
unfolding counted_all serve_prog route_prog get_prog api_new_prog route_of routes str_eq utf8
    rune_bytes lookup start_server new_limiter allow admit gc sub spend ◌-ℤ◌ insert refill ◌+ℤ◌
    client_key reveal claim run step add_entry choose_id store_under new put_back click wrap
    normalise delete render_gone render_error make_info
shown_once = refl

two_links-IsOp : All IsOp two_links.live.history.ops
unfolding serve_prog route_prog get_prog api_new_prog route_of routes str_eq utf8 rune_bytes lookup
    start_server new_limiter allow admit gc sub spend ◌-ℤ◌ insert refill ◌+ℤ◌ client_key reveal
    claim run step add_entry choose_id store_under new
two_links-IsOp = (tt, (tt, tt))

outside-IsSilent : IsSilent outside
outside-IsSilent = record {
  serves = λ head r name time bytes. (bytes, refl);
  unroutes = λ r. (_, refl);
}

Reach-shown-le_example :
    counted_all (shown_price (codes "k")) two_links.live.tasks
    ≤ remaining (codes "k") full_server.store
      + total (granted (codes "k")) full_server.store two_links.live.history.ops
unfolding start_server
Reach-shown-le_example =
    Reach-shown-le outside config (codes "k") full_server two_links.live outside-IsSilent
      two_links.reach (run-new-IsValid (pos 0) fill (omega arith, tt)) two_links-IsOp

-- A link is opened while two secrets are stored.
abbrev two_posts : Reached
two_posts =
    turns (0 ∷ 1 ∷ 2 ∷ 2 ∷ 1 ∷ 0 ∷ 1 ∷ 2 ∷ 2 ∷ 0 ∷ 0 ∷ [])
      (arrivals (post_entry ∷ follow_link ∷ post_entry ∷ []) started)

both_created : counted_all (created_price outside (codes "192.0.2.1")) two_posts.live.tasks ≡ 2
unfolding counted_all serve_prog route_prog get_prog api_new_prog route_of routes str_eq utf8
    rune_bytes lookup start_server new_limiter allow admit gc sub spend ◌-ℤ◌ insert refill ◌+ℤ◌
    client_key reveal claim run step add_entry choose_id store_under new add_if is_authorized
    find_token scan loaded_assets add_prog show_added find_id new_id digit raw_url_encode put_back
    click wrap normalise delete get_entry_info_hidden get_entry_info make_info json_respond
both_created = refl

two_posts-InOrder : InOrder (pos 0) two_posts.live.history.calls
unfolding serve_prog route_prog get_prog api_new_prog route_of routes str_eq utf8 rune_bytes lookup
    start_server new_limiter allow admit gc sub spend ◌-ℤ◌ insert refill ◌+ℤ◌ client_key reveal
    claim run step add_entry choose_id store_under new add_if is_authorized find_token scan
    loaded_assets add_prog show_added find_id new_id digit raw_url_encode put_back click wrap
    normalise delete
two_posts-InOrder = (omega arith, (omega arith, tt))

Reach-created-le-rate_example :
    pos
      (counted_all (created_price outside (codes "192.0.2.1")) two_posts.live.tasks * 2_000_000_000)
    ≤ℤ pos 20_000_000_000 +ℤ (end_time (pos 0) two_posts.live.history.calls -ℤ pos 0)
Reach-created-le-rate_example =
    Reach-created-le-rate outside config (codes "192.0.2.1") (run (new (pos 0)) fill) (some assets)
      (pos 0) two_posts.live two_posts.reach two_posts-InOrder

-- A server without a token database, which a reload does not mend.
abbrev closed_server : ServerState
closed_server = start_server (new (pos 0)) (some (record assets { auth = none }))

abbrev posted : (l : Live) × Reach outside config closed_server l
posted = (_, then_step (then_step begin (arrive post_entry)) (refresh sources (pos 2)))

without_database :
    (files : Assets) → files.auth ≡ none → Rejects outside config (codes "good") files
without_database files missing entry decoded =
    ap (λ auth. (is_authorized outside.sha256 auth entry).1) missing
    ∙ not_is_authorized outside.sha256 entry

Reach-unauthorised_example :
    ((reply : Reply)
      → (new_task outside config post_entry).prog ≡ answers reply
      → reply.response.status ≢ 201)
    × ((op : Op) (f : SecretStore → Prog) → (new_task outside config post_entry).prog ≢ acts op f)
unfolding start_server loaded_assets make_token_db reload update_files route_of routes utf8
    rune_bytes str_eq lookup
Reach-unauthorised_example =
    Reach-unauthorised outside config (codes "good") posted.1 [] []
      (new_task outside config post_entry)
      (
        without_database (loaded_assets (reload sources (pos 2))) refl,
        without_database (loaded_assets closed_server.assets) refl,
      )
      refl refl refl
