-- ===== src/Store/Mutex/Finish.antt =====
-- The steps of a call, taken together, are the call.
use onetimelink.Store.{
  SecretStore, StoreEntry, StoreError, zero_info, add_entry, choose_id, store_under, normalise,
  store_full, max_secret_len, StoreEntryInfo,
}
use onetimelink.Store.History.{Op, step, claims, adds, expires}
use onetimelink.Store.Mutex.{early, Answer, answer, writes, added, handed, dropped, is_full}
use onetimelink.Prelude.Text.{Bytes, str_eq}
use onetimelink.Prelude.{
  ◌≡◌, none, some, ℕ, Option, length, List, ◌-◌, ◌+◌, arith, false, not, ◌%◌, ◌^◌, refl, true,
  Bool-cases, [], inl, inr, ltb, ap, sym, ◌∙◌, Bool,
}
use onetimelink.Prelude.Clock.{Time}
use onetimelink.Prelude.GoMap.{lookup, retain, insert}
use onetimelink.Store.Expire.{expire_once, is_past}
use onetimelink.Store.Serve.{put_back, click, claim, make_info}
use onetimelink.Prelude.Result.{err, ok, Result}

-- The store that a call leaves and its answer are those of the specification.
abbrev pub Finishes : SecretStore → SecretStore → Op → Answer → Type 0
Finishes b s op a = (s ≡ step b op) × (a ≡ answer b (writes op))

module _ (b : SecretStore) where
  claim_missing :
      (id urlbase urlget urlapiget : Bytes)
      → lookup id b.entries ≡ none
      → claim b id urlbase urlget urlapiget ≡ (b, (zero_info, false))
  unfolding claim
  claim_missing id urlbase urlget urlapiget missing = rw (missing, claim) refl

  claim_found :
      (id urlbase urlget urlapiget : Bytes) (e : StoreEntry)
      → lookup id b.entries ≡ some e
      → claim b id urlbase urlget urlapiget ≡ (
        record b { entries = put_back id (click e) b.entries; claimed = (b.claimed + 1) % 2 ^ 64 },
        (make_info (click e) id urlbase urlget urlapiget, true),
      )
  unfolding claim
  claim_found id urlbase urlget urlapiget e there = rw (there, claim) refl

  store_under_full :
      (b : SecretStore) (e : StoreEntry) (k : Bytes)
      → is_full b k ≡ true
      → store_under b e k ≡ (b, err store_full)
  unfolding store_under
  store_under_full b e k full = rw (store_under, full) refl

  store_under_room :
      (b : SecretStore) (e : StoreEntry) (k : Bytes)
      → is_full b k ≡ false
      → store_under b e k
        ≡ (record b { entries = insert k e b.entries; created = (b.created + 1) % 2 ^ 64 }, ok k)
  unfolding store_under
  store_under_room b e k room = rw (store_under, room) refl

  add_entry-early :
      (e : StoreEntry) (id : Bytes) (now : Time) (draws : ℕ → Option (List ℕ)) (x : StoreError)
      → early (adds e id now draws) ≡ some x
      → add_entry b e id now draws ≡ (b, err x)
  unfolding early add_entry
  add_entry-early e id now draws x h = elim (Bool-cases (str_eq e.secret [])) [
    | inl empty ↦ rw (add_entry, empty) (ground arith)
    | inr some_secret ↦ elim (Bool-cases (ltb max_secret_len (length e.secret))) [
      | inl long ↦ rw (add_entry, some_secret, long) (ground arith)
      | inr short ↦ absurd (ground arith)
    ]
  ]

  claim-Finishes :
      (id urlbase urlget urlapiget : Bytes) {s : SecretStore} {r : StoreEntryInfo × Bool}
      → claim b id urlbase urlget urlapiget ≡ (s, r)
      → Finishes b s (claims id urlbase urlget urlapiget) (handed r)
  unfolding step answer
  claim-Finishes id urlbase urlget urlapiget e =
      (ap (λ x. x.0) (sym e), ap (λ x. handed x.1) (sym e))

  add_entry-Finishes :
      (e : StoreEntry) (id : Bytes) (now : Time) (draws : ℕ → Option (List ℕ)) {s : SecretStore}
      {r : Result StoreError Bytes}
      → add_entry b e id now draws ≡ (s, r)
      → Finishes b s (adds e id now draws) (added r)
  unfolding step answer
  add_entry-Finishes e id now draws h = (ap (λ x. x.0) (sym h), ap (λ x. added x.1) (sym h))

  pub claim_miss-Finishes :
      (id urlbase urlget urlapiget : Bytes)
      → lookup id b.entries ≡ none
      → Finishes b b (claims id urlbase urlget urlapiget) (handed (zero_info, false))
  unfolding step answer
  claim_miss-Finishes id urlbase urlget urlapiget missing =
      claim-Finishes id urlbase urlget urlapiget (claim_missing id urlbase urlget urlapiget missing)

  pub claim_count-Finishes :
      (id urlbase urlget urlapiget : Bytes) (e : StoreEntry)
      → lookup id b.entries ≡ some e
      → Finishes b
          (record b {
            entries = put_back id (click e) b.entries;
            claimed = (b.claimed + 1) % 2 ^ 64;
          })
          (claims id urlbase urlget urlapiget)
          (handed (make_info (click e) id urlbase urlget urlapiget, true))
  unfolding step answer
  claim_count-Finishes id urlbase urlget urlapiget e there =
      claim-Finishes id urlbase urlget urlapiget (claim_found id urlbase urlget urlapiget e there)

  pub refuse-Finishes :
      (op : Op) (x : StoreError) → early op ≡ some x → Finishes b b op (added (err x))
  unfolding early step answer
  refuse-Finishes (adds e id now draws) x h =
      add_entry-Finishes e id now draws (add_entry-early e id now draws x h)
  refuse-Finishes (claims id urlbase urlget urlapiget) x h = absurd (ground arith)
  refuse-Finishes (expires now) x h = absurd (ground arith)

  module _ (e : StoreEntry) (id : Bytes) (now : Time) (draws : ℕ → Option (List ℕ))
      (fine : early (adds e id now draws) ≡ none) where
    checked : add_entry b e id now draws ≡ elim (choose_id b.entries id draws) [
      | err x ↦ (b, err x)
      | ok chosen ↦ store_under b (normalise e now) chosen
    ]
    unfolding early add_entry
    checked = elim (Bool-cases (str_eq e.secret [])) [
      | inl empty ↦ absurd (ground arith)
      | inr some_secret ↦ elim (Bool-cases (ltb max_secret_len (length e.secret))) [
        | inl long ↦ absurd (ground arith)
        | inr short ↦ rw (add_entry, some_secret, short) refl
      ]
    ]

    -- What the choice of the id makes of the call.
    chosen-eq :
        (r : Result StoreError Bytes)
        → choose_id b.entries id draws ≡ r
        → add_entry b e id now draws
          ≡ elim r [ err x ↦ (b, err x) | ok k ↦ store_under b (normalise e now) k ]
    chosen-eq r h = rw (← h) checked

    pub add_no_id-Finishes :
        (x : StoreError)
        → choose_id b.entries id draws ≡ err x
        → Finishes b b (adds e id now draws) (added (err x))
    unfolding step answer
    add_no_id-Finishes x failed = add_entry-Finishes e id now draws (chosen-eq (err x) failed)

    pub add_full-Finishes :
        (k : Bytes)
        → choose_id b.entries id draws ≡ ok k
        → is_full b k ≡ true
        → Finishes b b (adds e id now draws) (added (err store_full))
    unfolding step answer
    add_full-Finishes k chosen full =
        add_entry-Finishes e id now draws
          (chosen-eq (ok k) chosen ∙ store_under_full b (normalise e now) k full)

    pub add_count-Finishes :
        (k : Bytes)
        → choose_id b.entries id draws ≡ ok k
        → is_full b k ≡ false
        → Finishes b
            (record b {
              entries = insert k (normalise e now) b.entries;
              created = (b.created + 1) % 2 ^ 64;
            })
            (adds e id now draws)
            (added (ok k))
    unfolding step answer
    add_count-Finishes k chosen room =
        add_entry-Finishes e id now draws
          (chosen-eq (ok k) chosen ∙ store_under_room b (normalise e now) k room)

  pub sweep_count-Finishes :
      (now : Time) (n : ℕ)
      → n ≡ length b.entries - length (retain (λ e. not (is_past now e)) b.entries)
      → Finishes b
          (record b {
            entries = retain (λ e. not (is_past now e)) b.entries;
            expired = (b.expired + n) % 2 ^ 64;
          })
          (expires now)
          (dropped n)
  unfolding step answer expire_once
  sweep_count-Finishes now n counted = rw counted (refl, refl)
