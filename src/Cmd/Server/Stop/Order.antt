-- ===== src/Cmd/Server/Stop/Order.antt =====
-- An orderly stop does what shutdownWhen does in sequence.
use onetimelink.Cmd.Server.Stop.{
  Process, Step, Reach, Stopper, waiting, signalled, noticed, closed, shutting, listening, stopped,
  is_alive, shutdown_lines, serve, receive, notice, close_admin, start_shutdown, end_shutdown,
  release, finish, server_closed, server_failed, kill, leave, begin, then_step, Line, Main,
  signal_of, stop_lines, of_stop, store_of, of_others,
}
use onetimelink.Prelude.{
  Option, List, ◌≡◌, true, ◌++◌, arith, length, ◌∷◌, [], ap, sym, refl, ◌∙◌, none, some, map, ◌≢◌,
}
use onetimelink.Prelude.Text.{Bytes, utf8}
use mathlib.Core.Path.{subst}
use onetimelink.Cmd.Server.{stop_notice, Sources}
use onetimelink.Admin.{FileSystem, Server, close}
use onetimelink.Cmd.Server.Run.{shut_down}
use onetimelink.Store.{SecretStore}
use mathlib.Core.List.{append_assoc, append-nil}

stop_lines-append : (xs ys : List Line) → stop_lines (xs ++ ys) ≡ stop_lines xs ++ stop_lines ys
stop_lines-append [] ys = refl
stop_lines-append (of_stop text ∷ xs) ys = ap (λ ls. text ∷ ls) (stop_lines-append xs ys)
stop_lines-append (of_others text ∷ xs) ys = stop_lines-append xs ys

stop_lines-of_stop : (ls : List Bytes) → stop_lines (map of_stop ls) ≡ ls
stop_lines-of_stop [] = refl
stop_lines-of_stop (text ∷ ls) = ap (λ ls. text ∷ ls) (stop_lines-of_stop ls)

stop_lines-of_others : (ls : List Bytes) → stop_lines (map of_others ls) ≡ []
stop_lines-of_others [] = refl
stop_lines-of_others (text ∷ ls) = stop_lines-of_others ls

-- What a line of the stop, and lines of the others, add to those of the stop.
logs_more :
    (xs : List Line) (more : List Bytes) (ls : List Bytes)
    → stop_lines xs ≡ ls
    → stop_lines (xs ++ map of_stop more) ≡ ls ++ more
logs_more xs more ls h =
    stop_lines-append xs (map of_stop more) ∙ rw (h, stop_lines-of_stop more) refl

logs_others :
    (xs : List Line) (more : List Bytes) (ls : List Bytes)
    → stop_lines xs ≡ ls
    → stop_lines (xs ++ map of_others more) ≡ ls
logs_others xs more ls h =
    stop_lines-append xs (map of_others more) ∙ rw (h, stop_lines-of_others more) (append-nil ls)

module _ {World : Type 0} (close_stats : World → World) (shutdown : World → World × Option Bytes)
    (start : Process World) where
  abbrev first_lines : Bytes → SecretStore → List Bytes
  first_lines sig st = stop_lines start.lines ++ (stop_notice sig (length st.entries) ∷ [])

  abbrev all_lines : Bytes → SecretStore → List Bytes
  all_lines sig st = first_lines sig st ++ shutdown_lines (shutdown (close_stats start.world)).1

  -- The run has received a signal, and has logged its notice at a store.
  record Noticed (signal : Option Bytes) (store : Option SecretStore) : Type 0 where
    sig : Bytes
    st : SecretStore
    got : signal ≡ some sig
    counted : store ≡ some st

  -- What has been done at each place of the stopping goroutine.
  abbrev Seen : Stopper → Option Bytes → Option SecretStore → World → List Bytes → Type 0
  Seen waiting g s w ls = (w ≡ start.world) × (ls ≡ stop_lines start.lines)
  Seen (signalled sig) g s w ls = (g ≡ some sig) × (w ≡ start.world) × (ls ≡ stop_lines start.lines)
  Seen noticed g s w ls = (m : Noticed g s) × (w ≡ start.world) × (ls ≡ first_lines m.sig m.st)
  Seen closed g s w ls =
      (m : Noticed g s) × (w ≡ close_stats start.world) × (ls ≡ first_lines m.sig m.st)
  Seen shutting g s w ls =
      (m : Noticed g s) × (w ≡ close_stats start.world) × (ls ≡ first_lines m.sig m.st)
  Seen _ g s w ls =
      (m : Noticed g s) × (w ≡ (shutdown (close_stats start.world)).0) × (ls ≡ all_lines m.sig m.st)

  record Inv {p : Process World} (r : Reach close_stats shutdown start p) : Type 0 where
    seen :
        is_alive p.main ≡ true
        → Seen p.stopper
            (signal_of close_stats shutdown r)
            (store_of close_stats shutdown r)
            p.world
            (stop_lines p.lines)
    ended :
        p.main ≡ stopped
        → (m : Noticed (signal_of close_stats shutdown r) (store_of close_stats shutdown r))
          × (p.world ≡ (shutdown (close_stats start.world)).0)
          × (stop_lines p.lines ≡ all_lines m.sig m.st ++ (utf8 "stopped" ∷ []))

  at_stopper :
      {p : Process World} {r : Reach close_stats shutdown start p} {s : Stopper}
      → Inv r
      → is_alive p.main ≡ true
      → p.stopper ≡ s
      → Seen s
          (signal_of close_stats shutdown r)
          (store_of close_stats shutdown r)
          p.world
          (stop_lines p.lines)
  at_stopper {p} {r} i alive e =
      subst
        (λ s.
          Seen s (signal_of close_stats shutdown r) (store_of close_stats shutdown r) p.world
            (stop_lines p.lines))
        e (i.seen alive)

  -- Lines of the others change nothing.
  others_lines :
      (s : Stopper) (g : Option Bytes) (t : Option SecretStore) (w : World) (ls ls' : List Bytes)
      → ls' ≡ ls
      → Seen s g t w ls
      → Seen s g t w ls'
  others_lines s g t w ls ls' e = subst (Seen s g t w) (sym e)

  not_stopped : (m : Main) → is_alive m ≡ true → m ≢ stopped
  not_stopped m alive e = absurd (ground (arith, e, alive))

  Step-Inv :
      {p q : Process World} (r : Reach close_stats shutdown start p)
      (step : Step close_stats shutdown p q)
      → Inv r
      → Inv (then_step r step)
  Step-Inv {p} r (serve st logged alive) i = record {
    seen = λ _.
        others_lines p.stopper _ _ p.world (stop_lines p.lines) _
          (logs_others p.lines logged (stop_lines p.lines) refl) (i.seen alive);
    ended = λ e. absurd (not_stopped p.main alive e);
  }
  Step-Inv {p} r (receive sig alive e) i = record {
    seen = λ _. let (same, lines) = at_stopper i alive e in (refl, same, lines);
    ended = λ e. absurd (not_stopped p.main alive e);
  }
  Step-Inv {p} r (notice {sig = sig} alive e) i = record {
    seen = λ _.
        let (got, same, lines) = at_stopper i alive e in
        (
          record { sig = sig; st = p.store; got = got; counted = refl },
          same,
          logs_more p.lines (stop_notice sig (length p.store.entries) ∷ []) (stop_lines start.lines)
              lines,
        );
    ended = λ e. absurd (not_stopped p.main alive e);
  }
  Step-Inv {p} r (close_admin alive e) i = record {
    seen = λ _. let (m, same, lines) = at_stopper i alive e in (m, ap close_stats same, lines);
    ended = λ e. absurd (not_stopped p.main alive e);
  }
  Step-Inv {p} r (start_shutdown alive e) i = record {
    seen = λ _. let (m, same, lines) = at_stopper i alive e in (m, same, lines);
    ended = λ e. absurd (not_stopped p.main alive e);
  }
  Step-Inv {p} r (end_shutdown alive e) i = record {
    seen = λ _.
        let (m, same, lines) = at_stopper i alive e in
        (
          m,
          ap (λ w. (shutdown w).0) same,
          logs_more p.lines (shutdown_lines (shutdown p.world).1) (first_lines m.sig m.st) lines
              ∙ ap (λ w. first_lines m.sig m.st ++ shutdown_lines (shutdown w).1) same,
        );
    ended = λ e. absurd (not_stopped p.main alive e);
  }
  Step-Inv {p} r (release alive e) i = record {
    seen = λ _. let (m, same, lines) = at_stopper i alive e in (m, same, lines);
    ended = λ e. absurd (not_stopped p.main alive e);
  }
  Step-Inv {p} r (finish alive e) i = record {
    seen = λ _. let (m, same, lines) = at_stopper i alive e in (m, same, lines);
    ended = λ e. absurd (not_stopped p.main alive e);
  }
  Step-Inv {p} r (server_closed e c) i = record {
    seen = λ _. i.seen (ground (arith, e));
    ended = λ e. absurd (cc);
  }
  Step-Inv {p} r (server_failed text e) i = record {
    seen = λ e. absurd (cc);
    ended = λ e. absurd (cc);
  }
  Step-Inv {p} r (kill alive e) i = record { seen = λ e. absurd (cc); ended = λ e. absurd (cc) }
  Step-Inv {p} r (leave e d) i =
      let (m, same, lines) = at_stopper i (ground (arith, e)) d in
      record {
        seen = λ e. absurd (cc);
        ended =
            λ _. (m, same, logs_more p.lines (utf8 "stopped" ∷ []) (all_lines m.sig m.st) lines);
      }

  Reach-Inv :
      {p : Process World}
      → start.main ≡ listening
      → start.stopper ≡ waiting
      → (r : Reach close_stats shutdown start p) → Inv r
  Reach-Inv m s begin = record {
    seen = λ _.
        subst (λ s. Seen s none none start.world (stop_lines start.lines)) (sym s) (refl, refl);
    ended = λ e. absurd (ground (arith, m, e));
  }
  Reach-Inv m s (then_step r step) = Step-Inv r step (Reach-Inv m s r)

module _ {World Listener : Type 0} (fs : FileSystem World Listener) (sources : Sources)
    (stats : Option (Server Listener)) (shutdown : World → World × Option Bytes) where
  abbrev pub close_stats : World → World
  close_stats w = (close fs w stats).0

  shut_down_lem :
      (sig : Bytes) (st : SecretStore) (w : World)
      → shut_down fs sources shutdown sig stats st w ≡ (
        (shutdown (close_stats w)).0,
        stop_notice sig (length st.entries) ∷ shutdown_lines (shutdown (close_stats w)).1,
      )
  unfolding shut_down
  shut_down_lem sig st w = refl

  -- A server that is listening and has not been signalled, and whatever happens then in whatever order:
  -- requests, the signal, the steps of the goroutine of shutdownWhen, the return of ListenAndServe, an
  -- error of it, further signals. When runServer has returned, this run has received a signal and logged
  -- its notice at a store, and the outside world and the lines that the stop has logged are what
  -- shutdownWhen makes of that signal and that store when it is run alone, followed by the line "stopped":
  -- main has waited for the admin socket to be closed and for Shutdown to return.
  pub Reach-stopped :
      (start p : Process World)
      → start.main ≡ listening
      → start.stopper ≡ waiting
      → (r : Reach close_stats shutdown start p) → p.main ≡ stopped
      → (sig : Bytes) × (st : SecretStore) × (signal_of close_stats shutdown r ≡ some sig)
        × (store_of close_stats shutdown r ≡ some st)
        × (p.world ≡ (shut_down fs sources shutdown sig stats st start.world).0)
        × (stop_lines p.lines
            ≡ stop_lines start.lines
              ++ ((shut_down fs sources shutdown sig stats st start.world).1
                  ++ (utf8 "stopped" ∷ [])))
  Reach-stopped start p m s r e =
      let (n, same, lines) = (Reach-Inv close_stats shutdown start m s r).ended e in
      let found = shut_down_lem n.sig n.st start.world in
      (
        n.sig,
        n.st,
        n.got,
        n.counted,
        same ∙ ap (λ done. done.0) (sym found),
        lines
            ∙ append_assoc (first_lines close_stats shutdown start n.sig n.st) _ _
            ∙ append_assoc (stop_lines start.lines) _ _
            ∙ ap (λ done. stop_lines start.lines ++ (done.1 ++ (utf8 "stopped" ∷ []))) (sym found),
      )
