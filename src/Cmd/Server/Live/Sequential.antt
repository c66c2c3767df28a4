-- ===== src/Cmd/Server/Live/Sequential.antt =====
-- The handlers in steps and those of Cmd.Server.Mux are the same where nothing comes in between.
use onetimelink.Cmd.Server.Mux.{
  Outside, Config, Arrival, ServerState, handle, Route, limited_get, limited_new, index, fav, css,
  js, client_shell, get, info, create, api_get, api_new,
}
use onetimelink.Http.{Headers, Response}
use onetimelink.Cmd.Server.Live.Alone.{
  alone, returned, alone-get_prog, alone-info_prog, alone-api_get_prog,
}
use onetimelink.Cmd.Server.Live.Stored.{alone-create_prog, alone-api_new_prog}
use onetimelink.Cmd.Server.Live.{
  route_prog, Prog, admits, get_prog, for_get, for_new, info_prog, create_prog, api_get_prog,
  api_new_prog,
}
use onetimelink.Misc.RateLimit.Wrap.{rate_limit, client_key}
use onetimelink.Store.{SecretStore}
use onetimelink.Prelude.{◌≡◌, [], Bool-cases, inl, inr, refl}
use onetimelink.Httpio.View.{handle_get, handle_info, handle_create}
use onetimelink.Cmd.Server.{loaded_assets}
use onetimelink.Misc.RateLimit.{allow, Limiter}
use onetimelink.Httpio.Api.{handle_api_get, handle_api_new}

module _ (o : Outside) (c : Config) (a : Arrival) (head : Headers) (s : ServerState) where
  -- A handler behind a limiter.
  limited_get-alone :
      (p : Prog) (handler : SecretStore → SecretStore × Response)
      → ((l : Limiter)
          → alone o a head p (record s { get_limiter = l })
            ≡ returned o c a head (record s { get_limiter = l }) (handler s.store))
      → alone o a head (admits for_get p) s ≡ limited_get o c s a head handler
  unfolding alone rate_limit
  limited_get-alone p handler same =
      let called = allow s.get_limiter (client_key o.split_host_port a.request) a.seen in
      elim (Bool-cases called.1) [
        | inl passes ↦ rw (passes, alone) (same called.0)
        | inr refused ↦ rw (refused, alone) refl
      ]

  limited_new-alone :
      (p : Prog) (handler : SecretStore → SecretStore × Response)
      → ((l : Limiter)
          → alone o a head p (record s { new_limiter = l })
            ≡ returned o c a head (record s { new_limiter = l }) (handler s.store))
      → alone o a head (admits for_new p) s ≡ limited_new o c s a head handler
  unfolding alone rate_limit
  limited_new-alone p handler same =
      let called = allow s.new_limiter (client_key o.split_host_port a.request) a.seen in
      elim (Bool-cases called.1) [
        | inl passes ↦ rw (passes, alone) (same called.0)
        | inr refused ↦ rw (refused, alone) refl
      ]

  -- Each handler, run in its steps without anything in between, leaves the state and gives the answer that
  -- the handler of the route does at once; for HandleApiNew, the one that nobody comes in between.
  alone-route_prog :
      (route : Route)
      → alone o a head (route_prog o c a head route) s
        ≡ handle o c route s (record a { between = [] }) head
  unfolding alone route_prog handle
  alone-route_prog index = refl
  alone-route_prog fav = refl
  alone-route_prog css = refl
  alone-route_prog js = refl
  alone-route_prog client_shell = refl
  alone-route_prog get =
      limited_get-alone (get_prog o c a head)
        (λ st. handle_get st c.url_base (loaded_assets s.assets).user_message_view a.request)
        (λ l. alone-get_prog o c a head (record s { get_limiter = l }))
  alone-route_prog info =
      limited_new-alone (info_prog o c a head)
        (λ st. handle_info o.sha256 st c.url_base (loaded_assets s.assets).auth a.request)
        (λ l. alone-info_prog o c a head (record s { new_limiter = l }))
  alone-route_prog create =
      limited_new-alone (create_prog o c a head)
        (λ st. handle_create o.decoders st c.url_base a.now a.draws a.request)
        (λ l. alone-create_prog o c a head (record s { new_limiter = l }))
  alone-route_prog api_get =
      limited_get-alone (api_get_prog o c a head) (λ st. handle_api_get st c.url_base a.request)
        (λ l. alone-api_get_prog o c a head (record s { get_limiter = l }))
  alone-route_prog api_new =
      limited_new-alone (api_new_prog o c a head)
        (λ st.
          handle_api_new o.sha256 o.decoders st c.url_base (loaded_assets s.assets).auth a.now
            a.draws [] a.request)
        (λ l. alone-api_new_prog o c a head (record s { new_limiter = l }))
