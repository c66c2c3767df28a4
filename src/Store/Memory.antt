-- ===== src/Store/Memory.antt =====
-- The memory that the secrets of a store can take.
use onetimelink.Prelude.GoMap.{GoMap, AllValues}
use onetimelink.Store.{new, StoreEntry, add_entry, store_under, max_secret_len, SecretStore}
use onetimelink.Store.History.{run, step, Op, adds, claims, expires}
use onetimelink.Prelude.{
  ℕ, List, ◌<◌, ◌≤◌, All, ◌*◌, length, ◌≡◌, arith, ◌∷◌, [], ◌+◌, ap, ◌∙◌, refl,
}
use onetimelink.Store.Valid.{IsLive, IsOp, run-new-IsValid}
use onetimelink.Store.Serve.{claim}
use onetimelink.Store.Expire.{expire_once}
use onetimelink.Prelude.Int.{pos, ℤ, pos_part, neg_part_of_nonneg}

-- The bytes of all secrets of a store.
abbrev pub secret_bytes : GoMap StoreEntry → ℕ
secret_bytes [] = 0
secret_bytes ((k, e) ∷ m) = length e.secret + secret_bytes m

secret_bytes-le :
    (m : GoMap StoreEntry) → AllValues IsLive m → secret_bytes m ≤ max_secret_len * length m
secret_bytes-le [] h = omega arith
secret_bytes-le ((k, e) ∷ m) h = omega (arith, h.0.short, secret_bytes-le m h.1)

max_entries-run : (st : SecretStore) (ops : List Op) → (run st ops).max_entries ≡ st.max_entries
unfolding run step add_entry store_under claim expire_once
max_entries-run st [] = refl
max_entries-run st (adds e id now draws ∷ ops) =
    max_entries-run (add_entry st e id now draws).0 ops ∙ ground arith
max_entries-run st (claims id urlbase urlget urlapiget ∷ ops) =
    max_entries-run (claim st id urlbase urlget urlapiget).0 ops ∙ ground arith
max_entries-run st (expires now ∷ ops) = max_entries-run (expire_once st now).0 ops

-- Whatever is done to a new store of the given capacity, its secrets never take more than that many
-- times 4096 bytes; with the default capacity that is one megabyte.
secret_bytes-run :
    (max_entries : ℕ) (ops : List Op)
    → 0 < max_entries
    → All IsOp ops
    → (secret_bytes (run (new (pos max_entries)) ops).entries ≤ 4096 * max_entries)
      × (secret_bytes (run (new (pos 0)) ops).entries ≤ 1048576)
unfolding new
secret_bytes-run max_entries ops some_room h =
    (bounded (pos max_entries) max_entries (ground arith), bounded (pos 0) 256 refl)
  where
    bounded :
        (n : ℤ) (cap : ℕ)
        → (new n).max_entries ≡ pos cap
        → secret_bytes (run (new n) ops).entries ≤ 4096 * cap
    bounded n cap e =
        let v = run-new-IsValid n ops h in
        omega (
          arith,
          secret_bytes-le (run (new n) ops).entries v.live,
          ap pos_part (max_entries-run (new n) ops ∙ e),
          neg_part_of_nonneg (run (new n) ops).max_entries,
          v.bounded,
          v.positive,
        )
