-- ===== src/Tests/LinearHash.antt =====
-- The theorems of the linear hash at concrete tables, on the toy device, where two entries fill a page.
use rexio.Base.{
  ℕ, zero, suc, ◌≡◌, ◌≢◌, refl, ◌%◌, true, false, List, [], ◌∷◌, arith, some, get_elem?, inr,
}
use rexio.Outcome.{ok, fail, assertion}
use rexio.Backend.Entry.{Entry, uint64_max, find}
use rexio.Backend.State.{Ssd, calculate_page_capacity}
use rexio.Backend.Codec.{decode, encode}
use rexio.Backend.Reader.{page_read, read_sectors}
use rexio.Backend.Pages.{counted}
use rexio.LinearHash.Bucket.{LBucket, new_bucket}
use rexio.LinearHash.Contents.{InMemory}
use rexio.LinearHash.Table.{LinearHashTable, split, table_insert, table_search, table_delete}
use rexio.LinearHash.Table.Places.{IsValid, home}
use rexio.LinearHash.Table.Insert.{search-insert_room}
use rexio.LinearHash.Table.Page.{search-insert_full}
use rexio.LinearHash.Table.Share.{share}
use rexio.LinearHash.Table.Split.{HasRoom}
use rexio.LinearHash.Table.Found.{search-split}
use rexio.LinearHash.Table.Delete.{insert-delete_page}
use rexio.Tests.Toy.{toy, toy-Reliable, blank, read_log, same_list}

abbrev empty : LBucket
empty = record { bucket = []; page_num = uint64_max; bucket_max = 2; size = 0 }

abbrev table : List LBucket → LinearHashTable
table bs = record { bucket_table = bs; h1 = 2; h2 = 4; split_flag = λ _. false }

table-IsValid : (a b : LBucket) → IsValid (table (a ∷ b ∷ []))
table-IsValid a b = record {
  pos = omega arith;
  twice = omega arith;
  flags = omega arith;
  based = omega arith;
  paired = λ i low set. absurd (cc set);
}

empty-InMemory : InMemory toy empty
unfolding calculate_page_capacity
empty-InMemory = record { sized = refl; bounded = omega arith; most = refl; fresh = λ e. refl }

search-insert_room_example :
    (t' : LinearHashTable) × (table_insert toy 3 30 (table (empty ∷ empty ∷ [])) blank
      ≡ ok (t', blank))
    × IsValid t'
    × (table_search toy 3 t' blank ≡ ok (true, blank))
    × ((q : ℕ)
        → q ≢ 3
        → table_search toy q t' blank ≡ table_search toy q (table (empty ∷ empty ∷ [])) blank)
unfolding calculate_page_capacity
search-insert_room_example =
    search-insert_room toy (table (empty ∷ empty ∷ [])) (table-IsValid empty empty) 3 30 empty blank
      refl empty-InMemory (omega arith) (omega arith) (λ e. omega (arith, e))

abbrev e3 : Entry
e3 = record { key = 3; val = 30 }

abbrev half : LBucket
half = record { bucket = e3 ∷ []; page_num = uint64_max; bucket_max = 2; size = 1 }

half-InMemory : InMemory toy half
unfolding calculate_page_capacity
half-InMemory = record { sized = refl; bounded = omega arith; most = refl; fresh = λ e. refl }

search-insert_full_example :
    (t' : LinearHashTable) × (s' : Ssd toy) × (table_insert toy 1 10
        (table (empty ∷ half ∷ []))
        blank
      ≡ ok (t', s'))
    × IsValid t'
    × ((n : ℕ) (e : Entry)
        → get_elem? (e3 ∷ (record { key = 1; val = 10 }) ∷ []) n ≡ some e
        → home (table (empty ∷ half ∷ [])) e.key ≡ 1
        → e.key ≢ 0
        → table_search toy e.key t' s' ≡ ok (true, counted toy s'))
unfolding calculate_page_capacity
search-insert_full_example =
    search-insert_full toy toy-Reliable refl (table (empty ∷ half ∷ [])) (table-IsValid empty half)
      1 10 half blank refl half-InMemory refl (omega arith) refl
      (
        record { key_fits = omega arith; val_fits = omega arith },
        (record { key_fits = omega arith; val_fits = omega arith }, tt),
      )
      refl (omega arith)

-- Bucket 1 has its entries in page 0.
abbrev both : List Entry
both = record { key = 1; val = 10 } ∷ e3 ∷ []

abbrev on_page : LBucket
on_page = record { bucket = []; page_num = 0; bucket_max = 2; size = 2 }

paged : Ssd toy
paged = record blank { dev = (0 ∷ 1 ∷ 2 ∷ 3 ∷ [], encode both) ∷ [] }

paged-page_read : page_read toy 0 paged ≡ ok (both, counted toy paged)
unfolding paged page_read read_sectors decode encode read_log same_list calculate_page_capacity
paged-page_read = refl

both-room : HasRoom toy 1 both (table (empty ∷ on_page ∷ []))
unfolding calculate_page_capacity share new_bucket
both-room zero h = omega (arith, h)
both-room (suc zero) h = omega arith
both-room (suc (suc zero)) h = omega (arith, h)
both-room (suc (suc (suc zero))) h = omega arith
both-room (suc (suc (suc (suc j)))) h = grind (arith, h)

search-split_example :
    (t' : LinearHashTable) × (split toy 1 (table (empty ∷ on_page ∷ [])) paged
      ≡ ok (t', counted toy paged))
    × IsValid t'
    × (table_search toy 3 t' (counted toy paged) ≡ ok (true, counted toy paged))
unfolding calculate_page_capacity share new_bucket
search-split_example =
    search-split toy 1 on_page both (table (empty ∷ on_page ∷ [])) paged (counted toy paged)
      (table-IsValid empty on_page) refl (omega arith) refl (λ e. omega (arith, e)) refl refl
      paged-page_read (omega arith) both-room (inr (refl, 3, omega arith, omega arith))
      (omega arith) 1 e3 refl refl (λ e. omega (arith, e)) (λ _. empty-InMemory)

insert-delete_page_example :
    (t' : LinearHashTable) × (table_delete toy 3 (table (empty ∷ on_page ∷ [])) paged
      ≡ ok (t', counted toy paged))
    × ((k v : ℕ) (c : Ssd toy) → k % 2 ≡ 1 → table_insert toy k v t' c ≡ fail assertion)
unfolding calculate_page_capacity find
insert-delete_page_example =
    insert-delete_page toy 3 on_page both e3 (table (empty ∷ on_page ∷ [])) paged
      (counted toy paged) (table-IsValid empty on_page) refl refl refl refl refl paged-page_read
      refl (omega arith) (omega arith)
