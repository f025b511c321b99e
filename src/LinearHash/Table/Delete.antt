-- ===== src/LinearHash/Table/Delete.antt =====
-- src/MultiHash/LinearHash/LiHash.cpp `Delete`: the deletion of an entry from a page, and what follows.
use rexio.Base.{
  ℕ, ◌+◌, ◌-◌, ◌*◌, ◌%◌, ◌^◌, ◌≤◌, ◌<◌, ◌≡◌, ap, ◌∙◌, ◌==◌, true, false, some, List, [], get_elem?,
  get_elem?-set_self, arith,
}
use rexio.Outcome.{ok, fail, assertion}
use rexio.Backend.Nvm.{Nvm}
use rexio.Backend.Entry.{Entry, find, erase}
use rexio.Backend.State.{Ssd, ◌>>=◌, ◌>>◌, calculate_page_capacity}
use rexio.Backend.Reader.{page_read}
use rexio.LinearHash.Bucket.{LBucket, decrease, is_full, get_bucket_read, value_delet}
use rexio.LinearHash.Table.{LinearHashTable, flag_at, put_bucket, split, table_insert, table_delete}
use rexio.LinearHash.Table.Places.{IsValid, home, bucket_of_lem, flag_at_below}
use rexio.LinearHash.Table.Insert.{put_bucket-IsValid}

module _ (nvm : Nvm) (key : ℕ) (b : LBucket) (es : List Entry) (x : Entry) (t : LinearHashTable)
    (s s' : Ssd nvm) (valid : IsValid t) (unsplit : t.split_flag (key % t.h1) ≡ false)
    (there : get_elem? t.bucket_table (key % t.h1) ≡ some b) (stored : b.bucket ≡ [])
    (full : b.size ≡ calculate_page_capacity nvm 16)
    (most : b.bucket_max ≡ calculate_page_capacity nvm 16)
    (read : page_read nvm b.page_num s ≡ ok (es, s')) (present : find key es ≡ some x)
    (two : 2 ≤ calculate_page_capacity nvm 16)
    (word : calculate_page_capacity nvm 16 < 2 ^ 63) where
  abbrev left : LBucket
  left = record b { bucket = erase key es; size = decrease ((b.size + b.bucket_max) % 2 ^ 64) }

  value_delet_page : value_delet nvm key b s ≡ ok ((0, left), s')
  unfolding value_delet
  value_delet_page = rw (value_delet, ◌>>=◌, stored, read, present)

  left-size : left.size ≡ 2 * calculate_page_capacity nvm 16 - 1
  left-size = omega (arith, full, most)

  abbrev remaining : LinearHashTable
  remaining = put_bucket (key % t.h1) left t

  home_key : home t key ≡ key % t.h1
  home_key = rw unsplit

  remaining-IsValid : IsValid remaining
  remaining-IsValid = put_bucket-IsValid (key % t.h1) left t valid

  remaining_unsplit : (c : Ssd nvm) → flag_at nvm (key % t.h1) remaining c ≡ ok (false, c)
  unfolding put_bucket
  remaining_unsplit c =
      flag_at_below nvm remaining remaining-IsValid (key % t.h1) c
        (omega (arith, valid.pos, valid.flags))
      ∙ ap (λ f. ok (f, c)) unsplit

  table_delete_page : table_delete nvm key t s ≡ ok (remaining, s')
  unfolding table_delete
  table_delete_page = rw (
    table_delete,
    ◌>>=◌,
    bucket_of_lem nvm t valid key s,
    home_key,
    there,
    value_delet_page,
    home_key,
    remaining_unsplit s',
    home_key,
  )

  remaining-bucket : get_elem? remaining.bucket_table (key % t.h1) ≡ some left
  unfolding put_bucket
  remaining-bucket =
      get_elem?-set_self t.bucket_table (key % t.h1) left (omega (arith, valid.pos, valid.based))

  remaining-home : (k : ℕ) → k % t.h1 ≡ key % t.h1 → home remaining k ≡ key % t.h1
  unfolding put_bucket
  remaining-home k same = rw (same, unsplit)

  left_fails : (c : Ssd nvm) → split nvm (key % t.h1) remaining c ≡ fail assertion
  unfolding split get_bucket_read
  left_fails c =
      let other : (left.size == calculate_page_capacity nvm 16) ≡ false =
        ground (arith, left-size) in
      rw (split, ◌>>=◌, ◌>>◌, remaining-bucket, other)

  left-fails_at : (i : ℕ) (c : Ssd nvm) → i ≡ key % t.h1 → split nvm i remaining c ≡ fail assertion
  left-fails_at i c e = rw e (left_fails c)

  left_full : is_full left ≡ true
  unfolding is_full
  left_full = ground (arith, left-size, most)

  -- In a table whose numbers fit each other, the deletion of a key from the page of a full bucket
  -- that is not split succeeds and leaves the bucket with twice its size less one: every insertion of a
  -- key of that bucket then ends in a failed assertion, whatever the device does meanwhile.
  pub insert-delete_page :
      (t' : LinearHashTable) × (table_delete nvm key t s ≡ ok (t', s'))
      × ((k v : ℕ) (c : Ssd nvm)
          → k % t.h1 ≡ key % t.h1
          → table_insert nvm k v t' c ≡ fail assertion)
  unfolding table_insert
  insert-delete_page = (
    remaining,
    table_delete_page,
    λ k v c same. rw (
      table_insert,
      ◌>>=◌,
      bucket_of_lem nvm remaining remaining-IsValid k c,
      remaining-home k same,
      remaining-bucket,
      left_full,
      left-fails_at (home remaining k) c (remaining-home k same),
    ),
  )
