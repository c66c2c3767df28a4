-- ===== src/Store/Mutex/Steps.antt =====
-- store/store.go: one step of one goroutine, and of all of them.
use onetimelink.Prelude.{
  ℕ, none, false, [], ◌≡◌, some, ◌∷◌, ◌+◌, ◌%◌, ◌^◌, true, Option, List, not, length, ◌-◌,
}
use onetimelink.Store.{
  normalise, SecretStore, StoreError, zero_info, StoreEntry, choose_id, store_full,
}
use onetimelink.Store.Mutex.{
  Shared, Pc, update, idle, waiting, early, writes, added, holding, leaving, handed, claim_got,
  claim_put, is_full, add_put, swept, dropped, Answer, read_waiting, reading, asks, look_up, Query,
  announced, read_leaving,
}
use onetimelink.Store.History.{Op, claims, adds, expires}
use onetimelink.Prelude.Result.{err, ok}
use onetimelink.Prelude.Text.{Bytes}
use onetimelink.Prelude.GoMap.{lookup, insert, retain}
use onetimelink.Store.Serve.{put_back, click, make_info}
use onetimelink.Prelude.Clock.{Time}
use onetimelink.Store.Expire.{is_past}

-- What goroutine `i` may do, by where it stands.
pub data Move (i : ℕ) (m : Shared) : Pc → Shared → Pc → Type 0 where
  call : (op : Op) → Move i m idle m (waiting op)
  refuse :
      {op : Op} {x : StoreError}
      → early op ≡ some x
      → Move i m (waiting op) (record m { log = (writes op, added (err x)) ∷ m.log }) idle
  announce :
      {op : Op}
      → early op ≡ none
      → m.writer ≡ none
      → m.pending ≡ none
      → Move i m (waiting op) (record m { pending = some i }) (announced op)
  lock :
      {op : Op}
      → early op ≡ none
      → m.pending ≡ some i
      → m.writer ≡ none
      → ((j : ℕ) → m.readers j ≡ false)
      → Move i m (announced op) (record m { writer = some i; pending = none }) (holding op)
  claim_miss :
      {id urlbase urlget urlapiget : Bytes}
      → lookup id m.store.entries ≡ none
      → Move i m
          (holding (claims id urlbase urlget urlapiget))
          m
          (leaving (claims id urlbase urlget urlapiget) (handed (zero_info, false)))
  claim_read :
      {id urlbase urlget urlapiget : Bytes} {e : StoreEntry}
      → lookup id m.store.entries ≡ some e
      → Move i m
          (holding (claims id urlbase urlget urlapiget))
          m
          (claim_got id urlbase urlget urlapiget e)
  claim_write :
      {id urlbase urlget urlapiget : Bytes} {e : StoreEntry}
      → Move i m
          (claim_got id urlbase urlget urlapiget e)
          (record m {
            store = record (m.store) { entries = put_back id (click e) m.store.entries };
          })
          (claim_put id urlbase urlget urlapiget e)
  claim_count :
      {id urlbase urlget urlapiget : Bytes} {e : StoreEntry}
      → Move i m
          (claim_put id urlbase urlget urlapiget e)
          (record m { store = record (m.store) { claimed = (m.store.claimed + 1) % 2 ^ 64 } })
          (leaving
            (claims id urlbase urlget urlapiget)
            (handed (make_info (click e) id urlbase urlget urlapiget, true)))
  add_no_id :
      {e : StoreEntry} {id : Bytes} {now : Time} {draws : ℕ → Option (List ℕ)} {x : StoreError}
      → choose_id m.store.entries id draws ≡ err x
      → Move i m (holding (adds e id now draws)) m (leaving (adds e id now draws) (added (err x)))
  add_full :
      {e : StoreEntry} {id k : Bytes} {now : Time} {draws : ℕ → Option (List ℕ)}
      → choose_id m.store.entries id draws ≡ ok k
      → is_full m.store k ≡ true
      → Move i m
          (holding (adds e id now draws))
          m
          (leaving (adds e id now draws) (added (err store_full)))
  add_write :
      {e : StoreEntry} {id k : Bytes} {now : Time} {draws : ℕ → Option (List ℕ)}
      → choose_id m.store.entries id draws ≡ ok k
      → is_full m.store k ≡ false
      → Move i m
          (holding (adds e id now draws))
          (record m {
            store = record (m.store) { entries = insert k (normalise e now) m.store.entries };
          })
          (add_put e id now draws k)
  add_count :
      {e : StoreEntry} {id k : Bytes} {now : Time} {draws : ℕ → Option (List ℕ)}
      → Move i m
          (add_put e id now draws k)
          (record m { store = record (m.store) { created = (m.store.created + 1) % 2 ^ 64 } })
          (leaving (adds e id now draws) (added (ok k)))
  sweep :
      {now : Time}
      → Move i m
          (holding (expires now))
          (record m {
            store = record (m.store) {
              entries = retain (λ e. not (is_past now e)) m.store.entries;
            };
          })
          (swept now
            (length m.store.entries - length (retain (λ e. not (is_past now e)) m.store.entries)))
  sweep_count :
      {now : Time} {n : ℕ}
      → Move i m
          (swept now n)
          (record m { store = record (m.store) { expired = (m.store.expired + n) % 2 ^ 64 } })
          (leaving (expires now) (dropped n))
  unlock :
      {op : Op} {a : Answer}
      → Move i m (leaving op a) (record m { writer = none; log = (writes op, a) ∷ m.log }) idle
  call_ask : (q : Query) → Move i m idle m (read_waiting q)
  rlock :
      {q : Query}
      → m.writer ≡ none
      → m.pending ≡ none
      → Move i m (read_waiting q) (record m { readers = update m.readers i true }) (reading q)
  read :
      {q : Query}
      → Move i m (reading q) (record m { log = (asks q, look_up m.store q) ∷ m.log }) read_leaving
  runlock : Move i m read_leaving (record m { readers = update m.readers i false }) idle

pub record System : Type 0 where
  pub mem : Shared
  pub pc : ℕ → Pc

pub data Step (s : System) : System → Type 0 where
  pick :
      (i : ℕ) {m : Shared} {p : Pc}
      → Move i s.mem (s.pc i) m p
      → Step s (record { mem = m; pc = update s.pc i p })

abbrev pub init : SecretStore → System
init st = record {
  mem = record { store = st; writer = none; pending = none; readers = λ j. false; log = [] };
  pc = λ i. idle;
}

-- What any interleaving can lead to, whatever the goroutines call.
pub data Reach (st : SecretStore) : System → Type 0 where
  start : Reach st (init st)
  later : {s t : System} → Reach st s → Step s t → Reach st t
