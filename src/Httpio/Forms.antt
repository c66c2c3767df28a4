-- ===== src/Httpio/Forms.antt =====
-- What the web form may ask for.
use onetimelink.Httpio.View.{
  form_int, create_from, form_max_clicks, form_max_days, reply_create_error, create_error_text,
  form_default_days, handle_create, render_error, read_form,
}
use onetimelink.Prelude.Text.{Bytes, utf8, str_eq}
use onetimelink.Store.{
  SecretStore, StoreEntry, zero_entry, new_entry, StoreError, add_entry, empty_secret,
  secret_too_long, store_full, rand_failed, no_free_id,
}
use onetimelink.Prelude.Clock.{Time}
use onetimelink.Prelude.Int.{ℤ, ◌≤ℤ◌, pos, ltb_ℤ, ltb_ℤ→le}
use onetimelink.Prelude.{
  ℕ, Option, Option-cases, List, inl, inr, Bool-cases, ◌≡◌, ◌⊎◌, [], arith, refl, ◌≤◌, true, some,
}
use onetimelink.Prelude.Parse.{atoi, trim_space}
use onetimelink.Http.{Request, Decoders, method_post}
use onetimelink.Store.Accept.{Accepted, add_entry-Accepted, add_entry_refused}
use onetimelink.Prelude.Result.{Result-cases, Result, err, ok}

form_int_bounds :
    (raw : Bytes) (fallback low high : ℤ)
    → low ≤ℤ fallback
    → fallback ≤ℤ high
    → (low ≤ℤ form_int raw fallback low high) × (form_int raw fallback low high ≤ℤ high)
unfolding form_int
form_int_bounds raw fallback low high h k = elim (Option-cases (atoi (trim_space raw))) [
  | inl bad ↦ rw (bad, form_int) (h, k)
  | inr (n, read) ↦ elim (Bool-cases (ltb_ℤ n low)) [
    | inl small ↦ rw (read, form_int, small) (h, k)
    | inr fine ↦ elim (Bool-cases (ltb_ℤ high n)) [
      | inl large ↦ rw (read, form_int, fine, large) (h, k)
      | inr fits ↦ rw (read, form_int, fine, fits) (ltb_ℤ→le n low fine, ltb_ℤ→le high n fits)
    ]
  ]
]

-- What the form asks the store to keep.
abbrev pub form_entry : (Bytes → Bytes) → ℤ → ℤ → StoreEntry
form_entry form clicks days = record zero_entry {
  secret = form (utf8 "secret");
  max_clicks = clicks;
  valid_for = days;
  auth_token = utf8 "форма";
}

abbrev pub form_clicks : (Bytes → Bytes) → ℤ
form_clicks form = form_int (form (utf8 "clicks")) (pos 1) (pos 1) form_max_clicks

abbrev pub form_days : (Bytes → Bytes) → ℤ
form_days form = form_int (form (utf8 "days")) form_default_days (pos 1) form_max_days

error_status : (x : StoreError) → (n : ℤ) → 400 ≤ (create_error_text x n).0
unfolding create_error_text
error_status empty_secret n = omega arith
error_status secret_too_long n = omega arith
error_status store_full n = omega arith
error_status rand_failed n = omega arith
error_status no_free_id n = omega arith

status-reply_create_error :
    (r : Request) (status : ℕ) (title message : Bytes)
    → (reply_create_error r status title message).status ≡ status
unfolding reply_create_error render_error
status-reply_create_error r status title message = ground arith

module _ (st : SecretStore) (urlbase : Bytes) (now : Time) (draws : ℕ → Option (List ℕ))
    (r : Request) where
  -- A store in which a form's secret was put, for 1 to 10 openings and 1 to 30 days.
  pub record Kept (form : Bytes → Bytes) (after : SecretStore) : Type 0 where
    pub clicks : ℤ
    pub days : ℤ
    pub key : Bytes
    pub clicks_range : (pos 1 ≤ℤ clicks) × (clicks ≤ℤ form_max_clicks)
    pub days_range : (pos 1 ≤ℤ days) × (days ≤ℤ form_max_days)
    pub accepted : Accepted st (form_entry form clicks days) [] now key after

  -- What AddEntry makes of the entry that the form asks for.
  unfoldable form_added : (Bytes → Bytes) → SecretStore × Result StoreError Bytes
  form_added form = add_entry st (form_entry form (form_clicks form) (form_days form)) [] now draws

  create_from_added :
      (form : Bytes → Bytes) (k : Bytes)
      → (form_added form).1 ≡ ok k
      → ((create_from st urlbase now draws r form).1.status ≡ 200)
        × ((create_from st urlbase now draws r form).0 ≡ (form_added form).0)
  unfolding create_from new_entry form_added
  create_from_added form k added = rw (added, create_from) (ground arith, ground arith)

  create_from_failed :
      (form : Bytes → Bytes) (x : StoreError)
      → (form_added form).1 ≡ err x
      → ((create_from st urlbase now draws r form).0 ≡ st)
        × ((create_from st urlbase now draws r form).1
            ≡ reply_create_error r
                (create_error_text x st.max_entries).0
                (create_error_text x st.max_entries).1
                (create_error_text x st.max_entries).2)
  unfolding create_from new_entry form_added
  create_from_failed form x failed =
      let entry = form_entry form (form_clicks form) (form_days form) in
      rw (failed, create_from, add_entry_refused st entry [] now draws x failed) (refl, refl)

  form_added-Kept :
      (form : Bytes → Bytes) (k : Bytes)
      → (form_added form).1 ≡ ok k
      → Kept form (form_added form).0
  unfolding form_added
  form_added-Kept form k added = record {
    clicks = form_clicks form;
    days = form_days form;
    key = k;
    clicks_range = form_int_bounds _ (pos 1) (pos 1) form_max_clicks (omega arith) (omega arith);
    days_range =
        form_int_bounds _ form_default_days (pos 1) form_max_days (omega arith) (omega arith);
    accepted =
        add_entry-Accepted st (form_entry form (form_clicks form) (form_days form)) [] now draws k
          added;
  }

  create_from-Kept :
      (form : Bytes → Bytes)
      → (((create_from st urlbase now draws r form).1.status ≡ 200)
          × Kept form (create_from st urlbase now draws r form).0)
        ⊎ (((create_from st urlbase now draws r form).0 ≡ st)
            × ((x : StoreError) × ((create_from st urlbase now draws r form).1
                  ≡ reply_create_error r
                      (create_error_text x st.max_entries).0
                      (create_error_text x st.max_entries).1
                      (create_error_text x st.max_entries).2)))
  create_from-Kept form = elim (Result-cases (form_added form).1) [
    | inr (x, failed) ↦
        let (same, shown) = create_from_failed form x failed in inr (same, (x, shown))
    | inl (k, added) ↦
        let (status, after) = create_from_added form k added in
        inl (status, rw after (form_added-Kept form k added))
  ]

  -- HandleCreate answers 200 exactly when it keeps a secret: then the request is a POST whose form was
  -- read, AddEntry accepted its secret, and it is kept for 1 to 10 openings and 1 to 30 days. Otherwise the
  -- answer is an error, at least 400, and the store is as it was.
  pub handle_create-Kept :
      (decoders : Decoders)
      → ((str_eq r.method method_post ≡ true)
          × ((form : Bytes → Bytes) × (read_form decoders r ≡ some form)
              × Kept form (handle_create decoders st urlbase now draws r).0)
          × ((handle_create decoders st urlbase now draws r).1.status ≡ 200))
        ⊎ (((handle_create decoders st urlbase now draws r).0 ≡ st)
            × (400 ≤ (handle_create decoders st urlbase now draws r).1.status))
  unfolding handle_create
  handle_create-Kept decoders = elim (Bool-cases (str_eq r.method method_post)) [
    | inr other ↦
        inr (rw (other, handle_create) (refl, rw (status-reply_create_error) (omega arith)))
    | inl posted ↦ elim (Option-cases (read_form decoders r)) [
      | inl unread ↦
          inr (
            rw (posted, handle_create, unread) (refl, rw (status-reply_create_error) (omega arith)))
      | inr (form, read) ↦ elim (create_from-Kept form) [
        | inl (status, k) ↦ inl (rw (posted, handle_create, read) (refl, (form, refl, k), status))
        | inr (same, (x, shown)) ↦ inr (
            rw (posted, handle_create, read)
              (same, rw (shown, status-reply_create_error) (error_status x st.max_entries)))
      ]
    ]
  ]
