-- ===== src/Store/Mutex.antt =====
-- store/store.go at the level of its mutex: each goroutine takes the lock, reads, writes and counts in
-- steps of its own, and the steps of all goroutines interleave in any order. sync.RWMutex is held by
-- one writer or by any number of readers; a writer that waits for the readers to leave has announced
-- itself, and keeps new readers and other writers out. Readers that a writer's Unlock lets in are those that
-- take their step before the next writer announces itself. The loops of AddEntry and expireOnce under the
-- lock are one step each.
pub mod Steps
pub mod Finish
pub mod Invariant
pub mod Keeps
pub mod Others
pub mod Refines
pub mod Served
pub mod Progress
pub mod Deadlock
pub mod Release
mod Tests
use onetimelink.Prelude.{
  List, ℕ, Option, [], if◌then◌else◌, ◌∷◌, Bool, ◌==◌, ◌≡◌, not, some, ltb, ◌&&◌, length, none,
}
use onetimelink.Prelude.Result.{Result}
use onetimelink.Store.{
  SecretStore, StoreError, StoreEntry, StoreEntryInfo, add_entry, empty_secret, max_secret_len,
  get_entry, secret_too_long,
}
use onetimelink.Store.History.{Op, adds, step, claims, expires}
use onetimelink.Prelude.Text.{Bytes, str_eq}
use onetimelink.Prelude.Clock.{Time}
use onetimelink.Store.Report.{Stats, stats}
use onetimelink.Prelude.GoMap.{GoMap, is_some, lookup}
use onetimelink.Store.Serve.{claim}
use onetimelink.Store.Expire.{expire_once}
use onetimelink.Prelude.Int.{leb_ℤ, pos}

-- A call of a method that reads: GetEntry, Len, and Stats with the order in which its range visits the map.
pub data Query : Type 0 where
  gets_entry : Bytes → Query
  counts : Query
  reports : (GoMap StoreEntry → GoMap StoreEntry) → Query

-- A call of a method: those that write, as in Store.History, and those that read.
pub data Call : Type 0 where
  writes : Op → Call
  asks : Query → Call

-- What a call returns.
pub data Answer : Type 0 where
  added : Result StoreError Bytes → Answer
  handed : StoreEntryInfo × Bool → Answer
  dropped : ℕ → Answer
  found : StoreEntry × Bool → Answer
  counted : ℕ → Answer
  reported : Stats → Answer

-- What is read of the store.
abbrev pub look_up : SecretStore → Query → Answer
look_up st (gets_entry id) = found (get_entry st id)
look_up st counts = counted (length st.entries)
look_up st (reports visit) = reported (stats st (visit st.entries))

-- The specification: what a call does and returns when it happens at once.
unfoldable pub effect : SecretStore → Call → SecretStore
effect st (writes op) = step st op
effect st (asks q) = st

unfoldable pub answer : SecretStore → Call → Answer
answer st (writes (adds e id now draws)) = added (add_entry st e id now draws).1
answer st (writes (claims id urlbase urlget urlapiget)) =
    handed (claim st id urlbase urlget urlapiget).1
answer st (writes (expires now)) = dropped (expire_once st now).1
answer st (asks q) = look_up st q

-- Calls with their answers, the last first.
abbrev pub Log : Type 0
Log = List (Call × Answer)

-- The state that the calls of a log lead to, and that each was answered as the specification says.
unfoldable pub state_of : SecretStore → Log → SecretStore
state_of st [] = st
state_of st ((call, _) ∷ log) = effect (state_of st log) call

abbrev pub IsAnswered : SecretStore → Log → Type 0
IsAnswered st [] = Unit {0}
IsAnswered st ((call, a) ∷ log) = (a ≡ answer (state_of st log) call) × IsAnswered st log

-- The fields of the store, who holds the mutex, and the log of the calls that have taken effect. The log
-- is not part of the program: no step depends on it.
pub record Shared : Type 0 where
  pub store : SecretStore
  pub writer : Option ℕ
  pub pending : Option ℕ  -- the writer that waits for the readers
  pub readers : ℕ → Bool
  pub log : Log

-- Where a goroutine stands, with the local variables that are live there.
pub data Pc : Type 0 where
  idle : Pc
  waiting : Op → Pc  -- before mu.Lock
  announced : Op → Pc  -- in mu.Lock, until the readers have left
  holding : Op → Pc  -- behind mu.Lock
  claim_got : Bytes → Bytes → Bytes → Bytes → StoreEntry → Pc  -- entry read, not yet written
  claim_put : Bytes → Bytes → Bytes → Bytes → StoreEntry → Pc  -- written, before st.claimed++
  add_put : StoreEntry → Bytes → Time → (ℕ → Option (List ℕ)) → Bytes → Pc  -- before st.created++
  swept : Time → ℕ → Pc  -- before st.expired += n
  leaving : Op → Answer → Pc  -- before mu.Unlock
  read_waiting : Query → Pc  -- before mu.RLock
  reading : Query → Pc  -- behind mu.RLock
  read_leaving : Pc  -- before mu.RUnlock

-- What AddEntry refuses before it takes the lock.
unfoldable pub early : Op → Option StoreError
early (adds e id now draws) =
    if str_eq e.secret []
    then some empty_secret
    else if ltb max_secret_len (length e.secret)
    then some secret_too_long
    else none
early (claims id urlbase urlget urlapiget) = none
early (expires now) = none

abbrev pub update {ℓ} : {A : Type ℓ} → (ℕ → A) → ℕ → A → ℕ → A
update f i a j = if j == i then a else f j

-- Whether AddEntry has to refuse a new entry under an id.
abbrev pub is_full : SecretStore → Bytes → Bool
is_full st id =
    not (is_some (lookup id st.entries)) && leb_ℤ st.max_entries (pos (length st.entries))
