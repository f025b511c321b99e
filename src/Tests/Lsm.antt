-- ===== src/Tests/Lsm.antt =====
-- The theorems of the LSM tree's merge queue and buffer.
use rexio.Base.{
  inl, inr, leb, ◌&&◌, none, false, ◌≢◌, ℕ, ◌+◌, ◌≡◌, refl, ◌==◌, if◌then◌else◌, true, some, List,
  [], ◌∷◌, arith,
}
use rexio.Outcome.{ok}
use rexio.Backend.Entry.{Entry}
use rexio.Lsm.Merge.{insert, contextpop}
use rexio.Lsm.Merge.Order.{Ordered, occurrences, merge_insert_lem, contextpop_lem}
use rexio.Lsm.Buffer.{Buffer, set_find, put_value, get_value, get_range}
use rexio.Lsm.Buffer.Order.{IsSorted}
use rexio.Lsm.Buffer.Range.{get_range_lem}
use rexio.Lsm.Run.{Run, Level, reset, level_is_full}
use rexio.Lsm.Tree.{flush_into}
use rexio.Lsm.Tree.Flush.{held, flush_into_lem}
use rexio.Tests.Toy.{toy, blank}
use rexio.Lsm.Tree.Read.{lsm_get_value, lsm_get_value-put}
use rexio.Lsm.Tree.{LsmTree, lsm_put_value}
use rexio.Lsm.Buffer.Values.{IsValid, put_value_lem}

abbrev run : List Entry
run = record { key = 4; val = 1 } ∷ record { key = 2; val = 7 } ∷ []

abbrev queue : List Entry
queue = record { key = 2; val = 9 } ∷ record { key = 8; val = 3 } ∷ []

queue-Ordered : Ordered queue
queue-Ordered = ((inl (omega arith), tt), (tt, tt))

merge_insert_lem_example :
    Ordered (insert run queue)
    × ((k v : ℕ) → occurrences k v (insert run queue) ≡ occurrences k v run + occurrences k v queue)
merge_insert_lem_example = merge_insert_lem run queue queue-Ordered

contextpop_lem_example :
    contextpop
      (record { key = 2; val = 9 } ∷ record { key = 2; val = 7 } ∷ record { key = 8; val = 3 } ∷ [])
    ≡ ok (record { key = 2; val = 9 }, record { key = 8; val = 3 } ∷ [])
contextpop_lem_example =
    contextpop_lem (record { key = 2; val = 9 })
      (record { key = 2; val = 7 } ∷ record { key = 8; val = 3 } ∷ [])
      ((inr (refl, omega arith), (inl (omega arith), tt)), ((inl (omega arith), tt), (tt, tt)))

abbrev buffer : Buffer
buffer = record { max_size = 4; size = 2; entries = queue }

buffer-IsValid : IsValid buffer
buffer-IsValid = record {
  sorted = ((omega arith, tt), (tt, tt));
  counted = refl;
  bounded = omega arith;
}

put_value_lem_example :
    (b' : Buffer) × (put_value 2 5 buffer ≡ (true, b'))
    × IsValid b'
    × ((q : ℕ) → get_value q b' ≡ (if q == 2 then some 5 else get_value q buffer))
put_value_lem_example = put_value_lem 2 5 buffer buffer-IsValid (omega arith)

get_range_lem_example :
    (r : List Entry) × (get_range 3 9 buffer ≡ ok r)
    × IsSorted r
    × ((q : ℕ) → set_find q r ≡ (if leb 3 q && leb q 9 then set_find q queue else none))
get_range_lem_example = get_range_lem 3 9 buffer buffer-IsValid (omega arith)

-- Runs of two entries each.
abbrev filled : Run
filled = record {
  size = 2;
  max_size = 2;
  max_key = 8;
  min_key = 2;
  rundata = queue;
  page_pointers = [];
  fence_pointers = [];
}

abbrev upper_level : Level
upper_level = record { level_number = 1; max_run_size = 2; runs = filled ∷ filled ∷ [] }

abbrev lower_level : Level
lower_level = record {
  level_number = 2;
  max_run_size = 4;
  runs = record filled { max_size = 4 } ∷ reset filled ∷ [];
}

upper-full : level_is_full upper_level ≡ true
unfolding level_is_full
upper-full = refl

lower-room : level_is_full lower_level ≡ false
unfolding level_is_full reset
lower-room = refl

flush_into_lem_example :
    (current' : Level) × (next' : Level) × (flush_into toy (upper_level ∷ lower_level ∷ [])
      ≡ ok (current' ∷ next' ∷ []))
    × (held current'.runs ≡ 0)
    × (held next'.runs ≡ 0)
flush_into_lem_example = flush_into_lem toy upper_level lower_level [] upper-full lower-room

abbrev tree : LsmTree
tree = record { buffer = buffer; levels = upper_level ∷ [] }

lsm_get_value-put_example :
    (tree' : LsmTree) × (lsm_put_value toy 2 5 tree ≡ ok (true, tree'))
    × IsValid tree'.buffer
    × (lsm_get_value toy 2 tree' blank ≡ ok (some 5, blank))
    × ((q : ℕ) → q ≢ 2 → lsm_get_value toy q tree' blank ≡ lsm_get_value toy q tree blank)
lsm_get_value-put_example = lsm_get_value-put toy 2 5 tree buffer-IsValid (omega arith) blank
