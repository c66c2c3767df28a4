-- ===== src/Prelude/GoMap.antt =====
-- Go's map[string]V: an association list in which a key stands once (`IsDistinct`).
use Prim.Native.Nat.{◌+◌, ◌≤◌}
use mathlib.Core.Path.{◌≡◌, refl, subst}
use mathlib.Core.Bool.{Bool, true, false}
use mathlib.Core.Option.{Option, none, some}
use mathlib.Core.Logic.{inl, inr}
use mathlib.Core.List.{List, [], ◌∷◌}
use native.Mathlib.Omega.{arith}
use onetimelink.Prelude.Tests.{if◌then◌else◌, Bool-cases}
use onetimelink.Prelude.Lists.{length}
use onetimelink.Prelude.Text.{Bytes, str_eq, str_eq_iff}
use onetimelink.Prelude.{All}

abbrev pub GoMap {ℓ} : Type ℓ → Type ℓ
GoMap V = List (Bytes × V)

abbrev pub is_some {ℓ} : {V : Type ℓ} → Option V → Bool
is_some none = false
is_some (some v) = true

module _ {ℓ} {V : Type ℓ} where
  -- m[k], with its second result
  unfoldable pub lookup : Bytes → GoMap V → Option V
  lookup k [] = none
  lookup k ((j, v) ∷ m) = if str_eq j k then some v else lookup k m

  -- m[k] = v
  unfoldable pub insert : Bytes → V → GoMap V → GoMap V
  insert k v [] = (k, v) ∷ []
  insert k v ((j, w) ∷ m) = if str_eq j k then (k, v) ∷ m else (j, w) ∷ insert k v m

  -- `for k, v := range m { if !keep(v) { delete(m, k) } }`
  unfoldable pub retain : (V → Bool) → GoMap V → GoMap V
  retain keep [] = []
  retain keep ((j, w) ∷ m) = if keep w then (j, w) ∷ retain keep m else retain keep m

  -- delete(m, k)
  unfoldable pub delete : Bytes → GoMap V → GoMap V
  delete k [] = []
  delete k ((j, w) ∷ m) = if str_eq j k then delete k m else (j, w) ∷ delete k m

  -- No key stands twice.
  abbrev pub IsDistinct : GoMap V → Type ℓ
  IsDistinct [] = Unit
  IsDistinct ((k, v) ∷ m) = (lookup k m ≡ none) × IsDistinct m

  -- What holds of each key with its value holds of what is looked up.
  pub lookup-All {κ} :
      (P : Bytes → V → Type κ) (k : Bytes) (v : V) (m : GoMap V)
      → All (λ e. P e.0 e.1) m
      → lookup k m ≡ some v
      → P k v
  unfolding lookup
  lookup-All P k v [] h found = absurd (ground arith)
  lookup-All P k v ((j, w) ∷ m) h found = elim (Bool-cases (str_eq j k)) [
    | inl here ↦ let same : w ≡ v = ground arith in rw (← (str_eq_iff j k).0 here, ← same) (h.0)
    | inr later ↦ lookup-All P k v m h.1 (rw later at found)
  ]

  pub lookup-insert :
      (k j : Bytes) (v : V) (m : GoMap V)
      → lookup j (insert k v m) ≡ (if str_eq k j then some v else lookup j m)
  unfolding lookup insert
  lookup-insert k j v [] = refl
  lookup-insert k j v ((i, w) ∷ m) =
      ground (arith, str_eq_iff k j, str_eq_iff i k, str_eq_iff i j, lookup-insert k j v m)

  pub lookup-delete :
      (k j : Bytes) (m : GoMap V)
      → lookup j (delete k m) ≡ (if str_eq k j then none else lookup j m)
  unfolding lookup delete
  lookup-delete k j [] = ground arith
  lookup-delete k j ((i, w) ∷ m) =
      ground (arith, str_eq_iff k j, str_eq_iff i k, str_eq_iff i j, lookup-delete k j m)

  pub insert-IsDistinct :
      (k : Bytes) (v : V) (m : GoMap V) → IsDistinct m → IsDistinct (insert k v m)
  unfolding insert lookup
  insert-IsDistinct k v [] d = ground arith
  insert-IsDistinct k v ((j, w) ∷ m) d =
      ground
        (arith, insert-IsDistinct k v m d.1, lookup-insert k j v m, str_eq_iff j k, str_eq_iff k j)

  pub delete-IsDistinct : (k : Bytes) (m : GoMap V) → IsDistinct m → IsDistinct (delete k m)
  unfolding delete
  delete-IsDistinct k [] d = ground arith
  delete-IsDistinct k ((j, w) ∷ m) d =
      ground (arith, delete-IsDistinct k m d.1, lookup-delete k j m)

  lookup-retain-none :
      (keep : V → Bool) (k : Bytes) (m : GoMap V)
      → lookup k m ≡ none
      → lookup k (retain keep m) ≡ none
  unfolding lookup retain
  lookup-retain-none keep k [] h = refl
  lookup-retain-none keep k ((j, w) ∷ m) h = ground (arith, lookup-retain-none keep k m)

  pub retain-IsDistinct :
      (keep : V → Bool) (m : GoMap V) → IsDistinct m → IsDistinct (retain keep m)
  unfolding retain
  retain-IsDistinct keep [] d = tt
  retain-IsDistinct keep ((j, w) ∷ m) d =
      ground (arith, retain-IsDistinct keep m d.1, lookup-retain-none keep j m)

  -- What `retain` leaves at a key.
  abbrev pub kept : (V → Bool) → Option V → Option V
  kept keep none = none
  kept keep (some v) = if keep v then some v else none

  pub lookup-retain :
      (keep : V → Bool) (k : Bytes) (m : GoMap V)
      → IsDistinct m
      → lookup k (retain keep m) ≡ kept keep (lookup k m)
  unfolding lookup retain
  lookup-retain keep k [] d = refl
  lookup-retain keep k ((j, w) ∷ m) d =
      ground (arith, lookup-retain keep k m d.1, lookup-retain-none keep k m, str_eq_iff j k)

  pub length-insert :
      (k : Bytes) (v : V) (m : GoMap V)
      → length (insert k v m) ≡ (if is_some (lookup k m) then length m else length m + 1)
  unfolding lookup insert
  length-insert k v [] = omega arith
  length-insert k v ((j, w) ∷ m) = ground (arith, length-insert k v m)

  delete_absent : (k : Bytes) (m : GoMap V) → lookup k m ≡ none → delete k m ≡ m
  unfolding lookup delete
  delete_absent k [] h = refl
  delete_absent k ((j, w) ∷ m) h = ground (arith, delete_absent k m)

  pub length-delete :
      (k : Bytes) (v : V) (m : GoMap V)
      → IsDistinct m
      → lookup k m ≡ some v
      → length (delete k m) + 1 ≡ length m
  unfolding lookup delete
  length-delete k v [] d h = cc
  length-delete k v ((j, w) ∷ m) d h =
      ground (arith, length-delete k v m d.1, delete_absent k m, str_eq_iff j k)

  pub length-retain-le : (keep : V → Bool) (m : GoMap V) → length (retain keep m) ≤ length m
  unfolding retain
  length-retain-le keep [] = omega arith
  length-retain-le keep ((j, w) ∷ m) = ground (arith, length-retain-le keep m)

-- A predicate that holds of every value of a map.
module _ {ℓ κ} {V : Type ℓ} (P : V → Type κ) where
  abbrev pub AllValues : GoMap V → Type κ
  AllValues [] = Unit
  AllValues ((k, v) ∷ m) = P v × AllValues m

  pub AllValues-lookup : (k : Bytes) (v : V) (m : GoMap V) → AllValues m → lookup k m ≡ some v → P v
  unfolding lookup
  AllValues-lookup k v [] h e = cc
  AllValues-lookup k v ((j, w) ∷ m) h e = elim (Bool-cases (str_eq j k)) [
    | inl here ↦ subst P (ground arith) h.0
    | inr later ↦ AllValues-lookup k v m h.1 (ground arith)
  ]

  pub insert-AllValues :
      (k : Bytes) (v : V) (m : GoMap V) → P v → AllValues m → AllValues (insert k v m)
  unfolding insert
  insert-AllValues k v [] p h = (p, tt)
  insert-AllValues k v ((j, w) ∷ m) p h = elim (Bool-cases (str_eq j k)) [
    | inl here ↦ rw (here, insert) (p, h.1)
    | inr later ↦ rw (later, insert) (h.0, insert-AllValues k v m p h.1)
  ]

  pub delete-AllValues : (k : Bytes) (m : GoMap V) → AllValues m → AllValues (delete k m)
  unfolding delete
  delete-AllValues k [] h = tt
  delete-AllValues k ((j, w) ∷ m) h = elim (Bool-cases (str_eq j k)) [
    | inl here ↦ rw (here, delete) (delete-AllValues k m h.1)
    | inr later ↦ rw (later, delete) (h.0, delete-AllValues k m h.1)
  ]

  pub retain-AllValues : (keep : V → Bool) (m : GoMap V) → AllValues m → AllValues (retain keep m)
  unfolding retain
  retain-AllValues keep [] h = tt
  retain-AllValues keep ((j, w) ∷ m) h = elim (Bool-cases (keep w)) [
    | inl stays ↦ rw (stays, retain) (h.0, retain-AllValues keep m h.1)
    | inr goes ↦ rw (goes, retain) (retain-AllValues keep m h.1)
  ]

-- What `retain` lets through satisfies its test.
pub retain_kept-AllValues {ℓ κ} :
    {V : Type ℓ} (P Q : V → Type κ) (keep : V → Bool) (m : GoMap V)
    → ((v : V) → keep v ≡ true → P v → Q v)
    → AllValues P m
    → AllValues Q (retain keep m)
unfolding retain
retain_kept-AllValues P Q keep [] imp h = tt
retain_kept-AllValues P Q keep ((j, w) ∷ m) imp h = elim (Bool-cases (keep w)) [
  | inl stays ↦ rw (stays, retain) (imp w stays h.0, retain_kept-AllValues P Q keep m imp h.1)
  | inr goes ↦ rw (goes, retain) (retain_kept-AllValues P Q keep m imp h.1)
]
