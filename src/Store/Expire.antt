-- ===== src/Store/Expire.antt =====
-- store/store.go: realExpFactor, expireOnce and the loop of Expiry.
use onetimelink.Prelude.{ℕ, ◌+◌, ◌-◌, ◌%◌, ◌^◌, Bool, not, List, [], ◌∷◌, length}
use onetimelink.Prelude.Int.{ℤ, pos}
use onetimelink.Prelude.GoMap.{retain}
use onetimelink.Prelude.Clock.{Time, Duration, add, mul, after}
use onetimelink.Store.{StoreEntry, SecretStore}

-- time.Hour * 24 * time.Duration(v); the product of the constants is exact.
unfoldable pub real_exp_factor : ℤ → Duration
real_exp_factor v = mul (pos 86_400_000_000_000) v

-- now.After(e.DateAdded.Add(expFactor(e.ValidFor)))
unfoldable pub is_past : Time → StoreEntry → Bool
is_past now e = after now (add e.date_added (real_exp_factor e.valid_for))

unfoldable pub expire_once : SecretStore → Time → SecretStore × ℕ
expire_once st now =
    let left = retain (λ e. not (is_past now e)) st.entries in
    let n = length st.entries - length left in
    (record st { entries = left; expired = (st.expired + n) % 2 ^ 64 }, n)

-- Expiry never returns: this is its loop over the times at which the ticks came.
unfoldable pub expiry : SecretStore → List Time → SecretStore
expiry st [] = st
expiry st (now ∷ ticks) = expiry (expire_once st now).0 ticks
