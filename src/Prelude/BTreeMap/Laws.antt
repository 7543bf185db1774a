-- ===== src/Prelude/BTreeMap/Laws.antt =====
-- What a lookup finds after an insertion.
use mathlib.Core.List.{[], ◌∷◌}
use mathlib.Core.Option.{some}
use mathlib.Core.Bool.{false}
use mathlib.Core.Path.{◌≡◌}
use native.Mathlib.Omega.{arith}
use pebble_db.Prelude.Strings.{Text, text_eq}
use pebble_db.Prelude.Order.{text_eq_refl, eq_of_cmp, cmp-flip}
use pebble_db.Prelude.BTreeMap.{BTreeMap, insert, get}

module _ {ℓ} {V : Type ℓ} where
  pub get-insert : (k : Text) (v : V) (m : BTreeMap V) → get k (insert k v m) ≡ some v
  unfolding get insert
  get-insert k v [] = ground (arith, text_eq_refl k)
  get-insert k v ((j, w) ∷ m) = ground (arith, text_eq_refl k, cmp-flip k j, get-insert k v m)

  pub get-insert_ne :
      (k j : Text) (v : V) (m : BTreeMap V) → text_eq k j ≡ false → get j (insert k v m) ≡ get j m
  unfolding get insert
  get-insert_ne k j v [] h = ground arith
  get-insert_ne k j v ((i, w) ∷ m) h = ground (arith, get-insert_ne k j v m h, eq_of_cmp k i)
