-- ===== src/Tests/LazyHash.antt =====
-- The theorem of the lazy-split hash, at a table of four buckets for an entry each.
use rexio.Base.{◌≡◌, refl, [], ◌∷◌, arith}
use rexio.Outcome.{fail, exit}
use rexio.Backend.State.{calculate_page_capacity}
use rexio.LazyHash.{
  LsHash, new_ls_bucket, new_ls_hash, ls_insert, insert_on, place, get_bits, count_bits, bit_hash,
  if_compute, stored, put_entry, change_bucket, ls_bucket_insert, ls_all_clear, reinsert, ls_split,
  expand,
}
use rexio.LazyHash.Entries.{IsUsable}
use rexio.LazyHash.Fill.{ls_insert_lem}
use rexio.Tests.Toy.{toy}

-- Three entries of one bucket.
abbrev three : LsHash
three = record {
  bucket_list =
      new_ls_bucket 1
      ∷ (record (new_ls_bucket 1) {
        bucket_entries =
            record { key1 = 1; val = 5; flag = 0 }
            ∷ record { key1 = 9; val = 6; flag = 0 }
            ∷ record { key1 = 17; val = 7; flag = 0 }
            ∷ [];
        size = 3;
      })
      ∷ new_ls_bucket 1
      ∷ new_ls_bucket 1
      ∷ [];
  allsize = 3;
  bmaxsize = 1;
  if_threshold = 9;
}

three-IsUsable : IsUsable three
three-IsUsable = record { buckets = omega arith; room = omega arith; threshold = refl }

ls_insert_lem_example : ls_insert 2 8 three ≡ fail (exit 105)
ls_insert_lem_example = (ls_insert_lem 2 8 three three-IsUsable).1 (omega arith)

new_ls_hash-IsUsable : IsUsable (new_ls_hash toy)
unfolding new_ls_hash calculate_page_capacity
new_ls_hash-IsUsable = record { buckets = omega arith; room = omega arith; threshold = refl }

three_runs : ls_insert 2 8 three ≡ fail (exit 105)
unfolding ls_insert insert_on place get_bits count_bits bit_hash if_compute stored put_entry
    change_bucket ls_bucket_insert ls_all_clear reinsert ls_split expand
three_runs = refl
