-- ===== src/Httpio/Access.antt =====
-- Who may create and inspect secrets, and what a refused request leaves.
use onetimelink.Httpio.Api.{
  add_and_show, handle_api_new, json_respond, max_data, status_for_store_error, error_text,
}
use onetimelink.Prelude.Text.{Bytes, str_eq}
use onetimelink.Http.{Decoders, Request, method_post, json_info, json_error}
use onetimelink.Store.{
  SecretStore, StoreEntry, add_entry, StoreError, store_full, secret_too_long, empty_secret,
  rand_failed, no_free_id,
}
use onetimelink.TokenDb.{TokenDb, is_authorized}
use onetimelink.Prelude.Clock.{Time}
use onetimelink.Prelude.{
  ℕ, Option, List, [], ◌≡◌, true, some, ◌⊎◌, take, ◌≤◌, Bool-cases, inr, arith, inl, Option-cases,
  refl, ◌≢◌,
}
use onetimelink.Store.History.{Op, run}
use onetimelink.Prelude.Result.{ok, err, Result-cases}
use onetimelink.Store.Serve.{get_entry_info_hidden}
use onetimelink.Httpio.{get_route, api_get_route}
use onetimelink.Store.Accept.{add_entry_refused, Accepted, add_entry-Accepted}

pub add_and_show_created :
    (decoders : Decoders) (st : SecretStore) (urlbase : Bytes) (entry : StoreEntry) (now : Time)
    (draws : ℕ → Option (List ℕ)) (between : List Op)
    → ((k : Bytes) × ((add_entry st entry [] now draws).1 ≡ ok k)
        × (add_and_show decoders st urlbase entry now draws between ≡ (
          run (add_entry st entry [] now draws).0 between,
          json_respond 201 (
              json_info
                (get_entry_info_hidden
                  (run (add_entry st entry [] now draws).0 between)
                  k
                  urlbase
                  get_route
                  api_get_route).0),
        )))
      ⊎ ((x : StoreError) × ((add_entry st entry [] now draws).1 ≡ err x)
          × (add_and_show decoders st urlbase entry now draws between
              ≡ (st, json_respond (status_for_store_error x) (json_error (error_text decoders x)))))
unfolding add_and_show
add_and_show_created decoders st urlbase entry now draws between =
    elim (Result-cases (add_entry st entry [] now draws).1) [
      | inl (k, added) ↦ inl (k, added, ground arith)
      | inr (x, refused) ↦
          inr (x, refused, ground (arith, add_entry_refused st entry [] now draws x refused))
    ]

-- An error of the store is never answered 201.
pub status_for_store_error-ne : (x : StoreError) → status_for_store_error x ≢ 201
unfolding status_for_store_error
status_for_store_error-ne store_full = omega arith
status_for_store_error-ne secret_too_long = omega arith
status_for_store_error-ne empty_secret = omega arith
status_for_store_error-ne rand_failed = omega arith
status_for_store_error-ne no_free_id = omega arith

module _ (sha256 : Bytes → Bytes) (decoders : Decoders) (st : SecretStore) (urlbase : Bytes)
    (auth : TokenDb) (now : Time) (draws : ℕ → Option (List ℕ)) (between : List Op)
    (r : Request) where
  -- A request that HandleApiNew takes as far as the store: a POST whose body is an entry with a token
  -- that the database knows.
  pub record Admitted (entry : StoreEntry) : Type 0 where
    pub posted : str_eq r.method method_post ≡ true
    pub content : Bytes
    pub sent : r.body ≡ some content
    pub decoded : decoders.unmarshal_entry (take max_data content) ≡ ok entry
    pub authorized : (is_authorized sha256 auth entry).1 ≡ true

  -- Either HandleApiNew adds the entry, with the address in the token's place, or it answers an error
  -- and leaves the store as it was.
  pub handle_api_new-Admitted :
      ((entry : StoreEntry) × Admitted entry
        × (handle_api_new sha256 decoders st urlbase auth now draws between r
            ≡ add_and_show decoders st urlbase
                (is_authorized sha256 auth entry).0
                now
                draws
                between))
      ⊎ (((handle_api_new sha256 decoders st urlbase auth now draws between r).0 ≡ st)
          × (400 ≤ (handle_api_new sha256 decoders st urlbase auth now draws between r).1.status))
  unfolding handle_api_new json_respond
  handle_api_new-Admitted = elim (Bool-cases (str_eq r.method method_post)) [
    | inr other ↦ inr (rw other (refl, omega arith))
    | inl posted ↦ elim (Option-cases r.body) [
      | inl unread ↦ inr (ground arith, ground arith)
      | inr (content, sent) ↦
          elim (Result-cases (decoders.unmarshal_entry (take max_data content))) [
            | inr (text, bad) ↦ inr (ground arith, ground arith)
            | inl (entry, decoded) ↦ elim (Bool-cases (is_authorized sha256 auth entry).1) [
              | inr refused ↦ inr (ground arith, ground arith)
              | inl authorized ↦ inl (
                entry,
                record {
                  posted = posted;
                  content = content;
                  sent = sent;
                  decoded = decoded;
                  authorized = authorized;
                },
                ground arith,
              )
            ]
          ]
    ]
  ]

  -- HandleApiNew answers 201 only to an admitted request, whose entry AddEntry then accepted with the
  -- address in the token's place; apart from that only what others did meanwhile changed the store.
  pub handle_api_new_created :
      (handle_api_new sha256 decoders st urlbase auth now draws between r).1.status ≡ 201
      → (entry : StoreEntry) × (k : Bytes) × Admitted entry
        × Accepted st
            (is_authorized sha256 auth entry).0
            []
            now
            k
            (add_entry st (is_authorized sha256 auth entry).0 [] now draws).0
        × ((handle_api_new sha256 decoders st urlbase auth now draws between r).0
            ≡ run (add_entry st (is_authorized sha256 auth entry).0 [] now draws).0 between)
  unfolding status_for_store_error json_respond
  handle_api_new_created h = elim handle_api_new-Admitted [
    | inr (_, failed) ↦ absurd (omega arith)
    | inl (entry, admitted, e) ↦
        let entry' = (is_authorized sha256 auth entry).0 in
        elim (add_and_show_created decoders st urlbase entry' now draws between) [
          | inl (k, added, shown) ↦ (
            entry,
            k,
            admitted,
            add_entry-Accepted st entry' [] now draws k added,
            rw (e, shown) refl,
          )
          | inr (x, refused, shown) ↦ absurd (status_for_store_error-ne x (rw (e, shown) at h))
        ]
  ]

  -- Any other answer leaves the store as it was.
  pub handle_api_new_refused :
      (handle_api_new sha256 decoders st urlbase auth now draws between r).1.status ≢ 201
      → (handle_api_new sha256 decoders st urlbase auth now draws between r).0 ≡ st
  unfolding json_respond
  handle_api_new_refused h = elim handle_api_new-Admitted [
    | inr (same, _) ↦ same
    | inl (entry, admitted, e) ↦
        elim (add_and_show_created decoders st urlbase (is_authorized sha256 auth entry).0 now draws
          between) [
            | inl (k, added, shown) ↦ absurd (h (rw (e, shown) refl))
            | inr (x, refused, shown) ↦ rw (e, shown) refl
          ]
  ]
