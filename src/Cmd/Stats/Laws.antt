-- ===== src/Cmd/Stats/Laws.antt =====
-- What the report of `gjfy stats` says.

use onetimelink.Cmd.Stats.{earliest, next_expiry, ReadError, StatsFlags, run_stats}
use onetimelink.Prelude.Clock.{Time, is_zero}
use onetimelink.Prelude.{
  List, All, ◌∷◌, ◌≡◌, false, ◌⊎◌, [], ltb, arith, length, inl, ◌≢◌, refl, Bool-cases, sym, lt→ltb,
  inr, if◌then◌else◌, ◌∙◌,
}
use onetimelink.Store.Report.{EntryMeta}
use onetimelink.Prelude.Int.{◌≤ℤ◌, ltb_ℤ, ltb_ℤ→lt, ltb_ℤ→le}
use mathlib.Core.Path.{subst}
use onetimelink.Admin.Report.{snapshot, Report, FetchError}
use onetimelink.Prelude.Text.{Bytes}
use onetimelink.Store.{SecretStore, StoreEntry}
use onetimelink.Prelude.GoMap.{GoMap}
use onetimelink.Prelude.Result.{ok}
use onetimelink.Store.Metadata.{with_secrets, stats-with_secrets}

-- One of the secrets expires at a time.
abbrev pub Expires : Time → List EntryMeta → Type 0
Expires t [] = ⊥
Expires t (e ∷ entries) = (t ≡ e.expires) ⊎ Expires t entries

-- A time that is no later than the others, and is one of them.
record IsEarliest (t next : Time) (entries : List EntryMeta) : Type 0 where
  set : is_zero t ≡ false
  below : t ≤ℤ next
  all_below : All (λ e. t ≤ℤ e.expires) entries
  reached : (t ≡ next) ⊎ Expires t entries

earliest-cons :
    (next : Time) (e : EntryMeta) (entries : List EntryMeta)
    → is_zero next ≡ false
    → earliest next (e ∷ entries)
      ≡ earliest (if ltb_ℤ e.expires next then e.expires else next) entries
unfolding earliest
earliest-cons next e entries set = rw set refl

-- The loop ends at such a time.
earliest-IsEarliest :
    (next : Time) (entries : List EntryMeta)
    → is_zero next ≡ false
    → All (λ e. is_zero e.expires ≡ false) entries
    → IsEarliest (earliest next entries) next entries
unfolding earliest
earliest-IsEarliest next [] set dated = record {
  set = set;
  below = omega arith;
  all_below = tt;
  reached = inl refl;
}
earliest-IsEarliest next (e ∷ entries) set dated = elim (Bool-cases (ltb_ℤ e.expires next)) [
  | inl sooner ↦
      let ih = earliest-IsEarliest e.expires entries dated.0 dated.1 in
      subst (λ t. IsEarliest t next (e ∷ entries))
        (sym (earliest-cons next e entries set ∙ rw sooner refl))
        (record {
          set = ih.set;
          below = omega (arith, ih.below, ltb_ℤ→lt e.expires next sooner);
          all_below = (ih.below, ih.all_below);
          reached = inr ih.reached;
        })
  | inr later ↦
      let ih = earliest-IsEarliest next entries set dated.1 in
      subst (λ t. IsEarliest t next (e ∷ entries))
        (sym (earliest-cons next e entries set ∙ rw later refl))
        (record {
          set = ih.set;
          below = ih.below;
          all_below = (omega (arith, ih.below, ltb_ℤ→le e.expires next later), ih.all_below);
          reached = elim ih.reached [ inl here ↦ inl here | inr there ↦ inr (inr there) ];
        })
]

-- If no live secret expires at the zero time, the next expiry of the report is the earliest of all, and
-- there is one as soon as there is a secret.
next_expiry-IsLeast :
    (entries : List EntryMeta)
    → All (λ e. is_zero e.expires ≡ false) entries
    → ((next_expiry entries).1 ≡ ltb 0 (length entries))
      × All (λ e. (next_expiry entries).0 ≤ℤ e.expires) entries
      × (entries ≢ [] → Expires (next_expiry entries).0 entries)
unfolding next_expiry earliest
next_expiry-IsLeast [] dated = (refl, tt, λ ne. absurd (ne refl))
next_expiry-IsLeast (e ∷ entries) dated =
    let first = earliest-IsEarliest e.expires entries dated.0 dated.1 in
    (
      rw first.set (sym (lt→ltb 0 (length (e ∷ entries)) (omega arith))),
      (first.below, first.all_below),
      λ ne. first.reached,
    )

-- What `gjfy stats` prints, in either form, is the same if each secret in the store is replaced by
-- another of the same length.
pub run_stats-with_secrets :
    (f : Bytes → Bytes) (st : SecretStore) (visited : GoMap StoreEntry) (started now later : Time)
    (local : Bytes → Time → Bytes) (encode : Report → Bytes) (text_of : FetchError → Bytes)
    (kind_of : FetchError → ReadError) (quoted : Bytes → Bytes) (flags : StatsFlags)
    (args : List Bytes)
    → ((s : Bytes) → length (f s) ≡ length s)
    → run_stats local encode text_of kind_of quoted flags args
        (ok (
          snapshot
            (record st { entries = with_secrets f st.entries })
            (with_secrets f visited)
            started
            now))
        later
      ≡ run_stats local encode text_of kind_of quoted flags args
          (ok (snapshot st visited started now))
          later
unfolding snapshot
run_stats-with_secrets f st visited started now later local encode text_of kind_of quoted flags args
      same =
    rw (stats-with_secrets f st visited same) refl
