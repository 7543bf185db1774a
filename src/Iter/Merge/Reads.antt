-- ===== src/Iter/Merge/Reads.antt =====
-- src/iter.rs: what a MergeIterator shows of the row that it stands before.
use pebble_db.Prelude.{◌≤◌, List, Option, none, some, true, false, length, sum_of}
use pebble_db.Prelude.{◌≡◌, refl, ◌∙◌, ap, arith}
use pebble_db.Iter.Storage.{StorageIterator}
use pebble_db.Iter.Merge.{CurrentEntry, MergeIterator, is_some, value_at, valid, key, value}
use pebble_db.Iter.Rows.{Rows, head_key, head_value}
use pebble_db.Iter.Rows.Union.{union, union-length}
use pebble_db.Iter.Rows.Visible.{visible, union-empty, visible-length}
use pebble_db.Iter.Rows.Least.{union-IsLeast}
use pebble_db.Iter.Cursor.{Cursor}
use pebble_db.Iter.Merge.Children.{Each-Ascending, value_at-Each, rest-remaining}
use pebble_db.Iter.Merge.Views.{Views, Ready}

module _ {I : Type 0} ⦃s : StorageIterator I⦄ (c : Cursor s) where
  pub key-Views :
      (it : MergeIterator I) (alls : List Rows) (rows : Rows)
      → Views c it alls rows
      → key it ≡ head_key rows
  unfolding key
  key-Views it alls rows v = go it.current v.ready ∙ ap head_key v.sees
    where
      go :
          (o : Option CurrentEntry)
          → Ready it.keep_tombstones v.rests o
          → elim o [ none ↦ none | some c ↦ some c.key ]
            ≡ head_key (visible it.keep_tombstones (union v.rests))
      go none h = rw (union-empty v.rests h) refl
      go (some d) (l, seen) =
          rw (union-IsLeast v.rests d (Each-Ascending c it.children alls v.rests v.each) l, seen)
            refl

  pub value-Views :
      (it : MergeIterator I) (alls : List Rows) (rows : Rows)
      → Views c it alls rows
      → value it ≡ head_value rows
  unfolding value
  value-Views it alls rows v = go it.current v.ready ∙ ap head_value v.sees
    where
      go :
          (o : Option CurrentEntry)
          → Ready it.keep_tombstones v.rests o
          → elim o [ none ↦ none | some c ↦ value_at it.children c.source ]
            ≡ head_value (visible it.keep_tombstones (union v.rests))
      go none h = rw (union-empty v.rests h) refl
      go (some d) (l, seen) =
          value_at-Each c d.source it.children alls v.rests l.row v.each l.at
          ∙ rw (union-IsLeast v.rests d (Each-Ascending c it.children alls v.rests v.each) l, seen)
              refl

  pub valid-Views :
      (it : MergeIterator I) (alls : List Rows) (rows : Rows)
      → Views c it alls rows
      → valid it ≡ is_some (head_key rows)
  unfolding valid key
  valid-Views it alls rows v = valid-key it.current ∙ ap is_some (key-Views it alls rows v)
    where
      valid-key :
          (o : Option CurrentEntry)
          → elim o [ none ↦ false | some c ↦ true ]
            ≡ is_some (elim o [ none ↦ none | some c ↦ some c.key ])
      valid-key none = refl
      valid-key (some d) = refl

  -- The cursors count the rows that the merge has left.
  pub Views-length :
      (it : MergeIterator I) (alls : List Rows) (rows : Rows)
      → Views c it alls rows
      → length rows ≤ sum_of s.remaining it.children
  Views-length it alls rows v =
      let shown : length (visible it.keep_tombstones (union v.rests)) ≡ length rows =
        ap length v.sees in
      omega (
        arith,
        shown,
        visible-length it.keep_tombstones (union v.rests),
        union-length v.rests,
        rest-remaining c it.children alls v.rests v.each,
      )
