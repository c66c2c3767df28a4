-- ===== src/Store/History.antt =====
-- The life of a store: its state-changing operations in any order, whichever goroutines call them.
-- Each holds the mutex throughout, so every interleaving of requests and of the expiry loop is such
-- a sequence.
use onetimelink.Prelude.{
  ℕ, ◌+◌, ◌-◌, ◌&&◌, Option, none, some, List, [], ◌∷◌, if◌then◌else◌, ◌++◌, ◌≡◌, arith, refl,
}
use onetimelink.Prelude.Int.{pos_part}
use onetimelink.Prelude.Text.{Bytes, str_eq}
use onetimelink.Prelude.GoMap.{lookup}
use onetimelink.Prelude.Result.{Result, ok, err}
use onetimelink.Prelude.Clock.{Time}
use onetimelink.Store.{StoreEntry, StoreError, SecretStore, add_entry, normalise}
use onetimelink.Store.Serve.{claim}
use onetimelink.Store.Expire.{expire_once}

pub data Op : Type 0 where
  adds : StoreEntry → Bytes → Time → (ℕ → Option (List ℕ)) → Op
  claims : Bytes → Bytes → Bytes → Bytes → Op
  expires : Time → Op

unfoldable pub step : SecretStore → Op → SecretStore
step st (adds e id now draws) = (add_entry st e id now draws).0
step st (claims id urlbase urlget urlapiget) = (claim st id urlbase urlget urlapiget).0
step st (expires now) = (expire_once st now).0

unfoldable pub run : SecretStore → List Op → SecretStore
run st [] = st
run st (op ∷ ops) = run (step st op) ops

-- 1 for a call of Claim that hands out the secret under `id`.
unfoldable pub handed_out : Bytes → SecretStore → Op → ℕ
handed_out id st (claims k urlbase urlget urlapiget) =
    if str_eq k id && (claim st k urlbase urlget urlapiget).1.1 then 1 else 0
handed_out id st (adds e k now draws) = 0
handed_out id st (expires now) = 0

-- The reads that a result of AddEntry allows under `id`.
unfoldable pub allowed : Bytes → StoreEntry → Result StoreError Bytes → ℕ
allowed id e (ok k) = if str_eq k id then pos_part e.max_clicks else 0
allowed id e (err x) = 0

-- The reads that one operation allows under `id`: a successful AddEntry allows its MaxClicks.
unfoldable pub granted : Bytes → SecretStore → Op → ℕ
granted id st (adds e k now draws) = allowed id (normalise e now) (add_entry st e k now draws).1
granted id st (claims k urlbase urlget urlapiget) = 0
granted id st (expires now) = 0

-- A quantity of each operation, summed over a history.
unfoldable pub total : (SecretStore → Op → ℕ) → SecretStore → List Op → ℕ
total count st [] = 0
total count st (op ∷ ops) = count st op + total count (step st op) ops

-- The reads that are left under `id`.
abbrev pub left_of : Option StoreEntry → ℕ
left_of none = 0
left_of (some e) = pos_part e.max_clicks - pos_part e.clicks

abbrev pub remaining : Bytes → SecretStore → ℕ
remaining id st = left_of (lookup id st.entries)

pub run-append :
    (st : SecretStore) (before : List Op) (op : Op)
    → run st (before ++ (op ∷ [])) ≡ step (run st before) op
unfolding run
run-append st [] op = refl
run-append st (o ∷ before) op = run-append (step st o) before op

pub total-append :
    (count : SecretStore → Op → ℕ) (st : SecretStore) (before : List Op) (op : Op)
    → total count st (before ++ (op ∷ [])) ≡ total count st before + count (run st before) op
unfolding run total
total-append count st [] op = omega arith
total-append count st (o ∷ before) op = omega (arith, total-append count (step st o) before op)
