-- ===== src/Tests/ExHash.antt =====
-- The theorems of the extendible hash at a directory of two buckets, on a
-- device with pages of four entries.
use rexio.Base.{
  ℕ, zero, suc, ◌≡◌, ◌≢◌, refl, ◌<◌, if◌then◌else◌, ◌==◌, List, [], ◌∷◌, arith, some, none, get_or,
}
use rexio.Outcome.{ok}
use rexio.Backend.Entry.{Entry, uint64_max, find}
use rexio.Backend.Nvm.{Nvm}
use rexio.Backend.State.{Ssd, calculate_page_capacity}
use rexio.Backend.Codec.{decode, encode}
use rexio.Backend.Reader.{ebucket_read, read_sectors}
use rexio.ExHash.Bucket.{ExBucket, increase_depth, get_data}
use rexio.ExHash.Directory.{Directory, turn_bit, split_directory, dir_insert, dir_search, merge}
use rexio.ExHash.Directory.Merge.{Merged, merge_lem}
use rexio.ExHash.Directory.Places.{pointer, Place, IsValid, Divided}
use rexio.ExHash.Directory.Divide.{split_directory_lem}
use rexio.ExHash.Directory.Insert.{place, search-dir_insert}
use rexio.ExHash.Directory.Fill.{onto}
use rexio.ExHash.Directory.Full.{search-dir_insert_full}
use rexio.Tests.Toy.{device, blank_of, read_log, same_list}

abbrev toy : Nvm
toy = device 16

abbrev blank : Ssd toy
blank = blank_of 16

abbrev empty : ExBucket
empty = record { depth = 1; size = 0; maxsize = 4; page_num = uint64_max; values = [] }

abbrev on_page : ExBucket
on_page = record { depth = 1; size = 4; maxsize = 4; page_num = 0; values = [] }

abbrev two : Directory
two = record {
  global_depth = 1;
  bucket_size = 4;
  buckets = 0 ∷ 1 ∷ [];
  store = λ q. if q == 0 then some empty else (if q == 1 then some on_page else none);
  next = 2;
}

two-places :
    (i j : ℕ) → i < 2 → j < 2 → (get_or (0 ∷ 1 ∷ []) i 0 ≡ i) × (get_or (0 ∷ 1 ∷ []) j 0 ≡ j)
two-places zero zero h k = (refl, refl)
two-places zero (suc zero) h k = (refl, refl)
two-places (suc zero) zero h k = (refl, refl)
two-places (suc zero) (suc zero) h k = (refl, refl)
two-places (suc (suc i)) j h k = absurd (omega (arith, h))
two-places zero (suc (suc j)) h k = absurd (omega (arith, k))
two-places (suc zero) (suc (suc j)) h k = absurd (omega (arith, k))

first-Place : Place two 0 empty
first-Place = record {
  held = refl;
  shallow = omega arith;
  known = omega arith;
  shared = λ j h. ground (arith, two-places 0 j (omega arith) h);
}

second-Place : Place two 1 on_page
second-Place = record {
  held = refl;
  shallow = omega arith;
  known = omega arith;
  shared = λ j h. ground (arith, two-places 1 j (omega arith) h);
}

two-placed : (i : ℕ) → i < 2 → (b : ExBucket) × Place two i b
two-placed zero h = (empty, first-Place)
two-placed (suc zero) h = (on_page, second-Place)
two-placed (suc (suc i)) h = absurd (omega (arith, h))

two-IsValid : IsValid two
two-IsValid = record { sized = refl; placed = two-placed }

abbrev four : List Entry
four =
    record { key = 1; val = 10 }
    ∷ record { key = 3; val = 30 }
    ∷ record { key = 5; val = 50 }
    ∷ record { key = 7; val = 70 }
    ∷ []

abbrev paged : Ssd toy
paged = record blank { dev = (0 ∷ 1 ∷ 2 ∷ 3 ∷ [], encode four) ∷ [] }

abbrev paged_read : Ssd toy
paged_read = record paged { counters = record paged.counters { eread = 1; reads = 1 } }

paged-get_data : get_data toy (increase_depth on_page) paged ≡ ok (four, paged_read)
unfolding get_data increase_depth ebucket_read read_sectors decode encode read_log same_list
    calculate_page_capacity
paged-get_data = refl

split_directory_lem_example :
    (d' : Directory) × (split_directory toy 1 two paged ≡ ok ((four, d'), paged_read))
    × IsValid d'
    × Divided 1 on_page two d'
split_directory_lem_example =
    split_directory_lem toy 1 on_page two paged paged_read four two-IsValid (omega arith)
      (omega arith) second-Place paged-get_data

search-dir_insert_example :
    (d' : Directory) × (dir_insert toy 1 4 40 two blank ≡ ok (d', blank))
    × IsValid d'
    × (dir_search toy 4 d' blank ≡ ok (record { key = 4; val = 40 }, blank))
    × ((q : ℕ) (e : Entry)
        → q ≢ 4
        → pointer two (place two q) ≡ 0
        → find q [] ≡ some e
        → dir_search toy q d' blank ≡ ok (e, blank))
    × ((q : ℕ)
        → pointer two (place two q) ≢ 0
        → dir_search toy q d' blank ≡ dir_search toy q two blank)
search-dir_insert_example =
    search-dir_insert toy two two-IsValid (omega arith) 0 4 40 empty blank first-Place (omega arith)

merge_lem_example :
    (d' : Directory) × (merge toy 0 two blank ≡ ok (d', blank))
    × IsValid d'
    × Merged 0 1 on_page two d'
unfolding turn_bit
merge_lem_example =
    merge_lem 0 empty on_page 0 refl two two-IsValid (omega arith) (omega arith) first-Place
      second-Place refl toy blank

abbrev ninth : Entry
ninth = record { key = 9; val = 90 }

search-dir_insert_full_example :
    (d' : Directory) × (dir_insert toy 2 9 90 two paged ≡ ok (d', paged_read))
    × IsValid d'
    × ((q : ℕ) (e : Entry)
        → find q (ninth ∷ onto four []) ≡ some e
        → dir_search toy q d' paged_read ≡ ok (e, paged_read))
    × ((q : ℕ)
        → pointer two (place two q) ≢ 1
        → dir_search toy q d' paged_read ≡ dir_search toy q two paged_read)
unfolding turn_bit
search-dir_insert_full_example =
    search-dir_insert_full toy two two-IsValid (omega arith) 0 ninth on_page paged paged_read four
      second-Place (omega arith) paged-get_data (refl, (refl, (refl, (refl, (refl, tt)))))
      (omega arith) (omega arith)
