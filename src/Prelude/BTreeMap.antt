-- ===== src/Prelude/BTreeMap.antt =====
-- `BTreeMap<String, V>` as the association list that its iteration yields, in key order.
pub mod Laws
pub mod Ascending
use Prim.Native.Nat.{Ordering}
use mathlib.Core.List.{List, [], ◌∷◌}
use mathlib.Core.Option.{Option, none, some}
use pebble_db.Prelude.Tests.{if◌then◌else◌}
use pebble_db.Prelude.Strings.{Text, cmp, text_eq}

abbrev pub BTreeMap {ℓ} : Type ℓ → Type ℓ
BTreeMap V = List (Text × V)

module _ {ℓ} {V : Type ℓ} where
  unfoldable pub insert : Text → V → BTreeMap V → BTreeMap V
  insert k v [] = (k, v) ∷ []
  insert k v ((j, w) ∷ m) =
      let rest = insert k v m in
      elim (cmp k j) [
        | Ordering.lt ↦ (k, v) ∷ (j, w) ∷ m
        | Ordering.eq ↦ (k, v) ∷ m
        | Ordering.gt ↦ (j, w) ∷ rest
      ]

  unfoldable pub get : Text → BTreeMap V → Option V
  get k [] = none
  get k ((j, v) ∷ m) = if text_eq j k then some v else get k m

  unfoldable pub remove : Text → BTreeMap V → BTreeMap V
  remove k [] = []
  remove k ((j, v) ∷ m) = let rest = remove k m in if text_eq j k then m else (j, v) ∷ rest

  -- `entry(k)`'s value, or the default.
  abbrev pub get_or : Text → V → BTreeMap V → V
  get_or k d m = elim (get k m) [ none ↦ d | some v ↦ v ]
