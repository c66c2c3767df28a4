-- ===== src/Cmd/Server/Stop/Progress.antt =====
-- The stop does not hang: main and the goroutine of shutdownWhen do not wait for each other.
use onetimelink.Cmd.Server.Stop.{
  Process, Reach, Stopper, waiting, signalled, noticed, closed, shutting, shut, released, done,
  Main, listening, stopping, stopped, fatal, killed, is_alive, notice, close_admin, start_shutdown,
  end_shutdown, release, finish, server_closed, leave, then_step,
}
use onetimelink.Prelude.{◌≡◌, true, Option, inl, refl, ◌≢◌, ◌⊎◌, arith, inr}
use onetimelink.Prelude.Text.{Bytes}

module _ {World : Type 0} (close_stats : World → World) (shutdown : World → World × Option Bytes)
    (start : Process World) where
  -- runServer can still return.
  abbrev CanReturn : Type 0
  CanReturn = (q : Process World) × Reach close_stats shutdown start q × (q.main ≡ stopped)

  -- So it can from every process whose goroutine stands at `s`.
  abbrev ReturnsFrom : Stopper → Type 0
  ReturnsFrom s =
      (p : Process World)
      → Reach close_stats shutdown start p
      → is_alive p.main ≡ true
      → p.stopper ≡ s
      → CanReturn

  from_stopping :
      (p : Process World)
      → Reach close_stats shutdown start p
      → p.main ≡ stopping
      → p.stopper ≡ done
      → CanReturn
  from_stopping p r m e = (_, then_step r (leave m e), refl)

  alive_cases : (m : Main) → is_alive m ≡ true → (m ≡ listening) ⊎ (m ≡ stopping)
  alive_cases listening h = inl refl
  alive_cases stopping h = inr refl
  alive_cases stopped h = absurd (cc)
  alive_cases fatal h = absurd (cc)
  alive_cases killed h = absurd (cc)

  from_done : ReturnsFrom done
  from_done p r alive e = elim (alive_cases p.main alive) [
    | inl m ↦ from_stopping _ (then_step r (server_closed m (ground (arith, e)))) refl e
    | inr m ↦ from_stopping p r m e
  ]

  from_released : ReturnsFrom released
  from_released p r alive e = from_done _ (then_step r (finish alive e)) alive refl

  from_shut : ReturnsFrom shut
  from_shut p r alive e = from_released _ (then_step r (release alive e)) alive refl

  from_shutting : ReturnsFrom shutting
  from_shutting p r alive e = from_shut _ (then_step r (end_shutdown alive e)) alive refl

  from_closed : ReturnsFrom closed
  from_closed p r alive e = from_shutting _ (then_step r (start_shutdown alive e)) alive refl

  from_noticed : ReturnsFrom noticed
  from_noticed p r alive e = from_closed _ (then_step r (close_admin alive e)) alive refl

  from_signalled : (sig : Bytes) → ReturnsFrom (signalled sig)
  from_signalled sig p r alive e = from_noticed _ (then_step r (notice alive e)) alive refl

  from_stopper : (s : Stopper) → s ≢ waiting → ReturnsFrom s
  from_stopper waiting told = absurd (told refl)
  from_stopper (signalled sig) told = from_signalled sig
  from_stopper noticed told = from_noticed
  from_stopper closed told = from_closed
  from_stopper shutting told = from_shutting
  from_stopper shut told = from_shut
  from_stopper released told = from_released
  from_stopper done told = from_done

  -- After the signal, wherever the goroutine of shutdownWhen and runServer stand, while the process is
  -- alive there are steps after which runServer has returned: neither waits for the other for ever, and
  -- an error of Shutdown does not keep main waiting.
  pub Reach-can_return :
      (p : Process World)
      → Reach close_stats shutdown start p
      → is_alive p.main ≡ true
      → p.stopper ≢ waiting
      → (q : Process World) × Reach close_stats shutdown start q × (q.main ≡ stopped)
  Reach-can_return p r alive told = from_stopper p.stopper told p r alive refl
