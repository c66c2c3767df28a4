-- ===== src/Store/Lifetime.antt =====
-- How long an entry lives: realExpFactor within and beyond its range, and what expireOnce drops.
use onetimelink.Prelude.{ℕ, ◌≤◌, ◌≡◌, arith, ◌*◌, ◌+◌, length, not, some, none}
use onetimelink.Store.Expire.{real_exp_factor, expire_once, is_past}
use onetimelink.Prelude.Clock.{mul, Time}
use onetimelink.Prelude.Int.{wrap, ◌*ℤ◌, pos, ◌<ℤ◌, ◌≤ℤ◌, ◌+ℤ◌, le→ltb_ℤ, lt→ltb_ℤ, int_laws}
use onetimelink.Store.{SecretStore, StoreEntry}
use onetimelink.Prelude.Text.{Bytes}
use onetimelink.Prelude.GoMap.{length-retain-le, IsDistinct, lookup, lookup-retain}

-- The greatest number of days that fits a Duration.
abbrev pub max_days : ℕ
max_days = 106751

-- Up to 106751 days the factor is exact.
pub real_exp_factor_exact :
    (v : ℕ) → v ≤ max_days → real_exp_factor (pos v) ≡ pos (86_400_000_000_000 * v)
unfolding real_exp_factor mul wrap ◌*ℤ◌
real_exp_factor_exact v h = ground arith

-- From 106752 to 213503 days the product wraps to a negative Duration.
pub real_exp_factor_negative : (v : ℕ) → 106752 ≤ v → v ≤ 213503 → real_exp_factor (pos v) <ℤ pos 0
unfolding real_exp_factor mul wrap ◌*ℤ◌
real_exp_factor_negative v h k = ground arith

module _ (st : SecretStore) (now : Time) (id : Bytes) (e : StoreEntry) (v : ℕ) where
  -- With a validity of at most 106751 days, expireOnce keeps an entry up to its last instant and
  -- drops it after that.
  pub expire_once_exact :
      IsDistinct st.entries
      → lookup id st.entries ≡ some e
      → e.valid_for ≡ pos v
      → v ≤ max_days
      → (now ≤ℤ e.date_added +ℤ pos (86_400_000_000_000 * v)
          → lookup id (expire_once st now).0.entries ≡ some e)
        × (e.date_added +ℤ pos (86_400_000_000_000 * v) <ℤ now
            → lookup id (expire_once st now).0.entries ≡ none)
  unfolding expire_once is_past
  expire_once_exact d found days few =
      rw
        (
          lookup-retain (λ x. not (is_past now x)) id st.entries d,
          found,
          days,
          real_exp_factor_exact v few,
        )
        (
          λ h. rw (le→ltb_ℤ (e.date_added +ℤ pos (86_400_000_000_000 * v)) now h),
          λ h. rw (lt→ltb_ℤ (e.date_added +ℤ pos (86_400_000_000_000 * v)) now h),
        )

  -- With a validity of 106752 to 213503 days the sum has wrapped: expireOnce drops the entry as soon
  -- as it runs, even at the instant at which the entry was stored.
  pub expire_once_wrapped :
      IsDistinct st.entries
      → lookup id st.entries ≡ some e
      → e.valid_for ≡ pos v
      → 106752 ≤ v
      → v ≤ 213503
      → e.date_added ≤ℤ now
      → lookup id (expire_once st now).0.entries ≡ none
  unfolding expire_once is_past
  expire_once_wrapped d found days many few later = rw (
    lookup-retain (λ x. not (is_past now x)) id st.entries d,
    found,
    days,
    lt→ltb_ℤ (e.date_added +ℤ real_exp_factor (pos v)) now
        (omega (int_laws, real_exp_factor_negative v many few)),
  )

-- expireOnce returns how many entries it dropped.
pub length-expire_once :
    (st : SecretStore) (now : Time)
    → (expire_once st now).1 + length (expire_once st now).0.entries ≡ length st.entries
unfolding expire_once
length-expire_once st now = omega (arith, length-retain-le (λ e. not (is_past now e)) st.entries)
