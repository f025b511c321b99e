-- ===== src/Tests/NoFtl.antt =====
-- The theorems of the LSM tree without FTL.
use rexio.Base.{
  ℕ, zero, suc, ◌+◌, ◌<◌, ◌≤◌, ◌≡◌, refl, ap, ◌∙◌, none, some, List, [], ◌∷◌, ◌++◌, length-append,
  get_elem?, arith,
}
use rexio.Outcome.{ok, fail, undefined}
use rexio.Backend.Entry.{Entry}
use rexio.Backend.State.{Ssd}
use rexio.Parallel.{CoordinatorParam, lun_width, read_points}
use rexio.Parallel.Threads.{Numbered, Holds}
use rexio.Parallel.Pages.{pages_of}
use rexio.NoFtl.Run.{NoFtlRun, NoFtlLevel, noftl_run_put, noftl_run_get}
use rexio.NoFtl.Full.{noftl_run_put-full}
use rexio.NoFtl.Tree.{NoFtlTree}
use rexio.Tests.Toy.{device-Reliable}
use rexio.Tests.Parallel.{wide, wide-Paged, numbered, length-numbered, geo, start}

abbrev last : Entry
last = record { key = 2048; val = 7 }

Numbered-snoc :
    (count n : ℕ) (e : Entry)
    → e.key ≡ n + count
    → e.val ≡ 7
    → Numbered n (numbered count n ++ e ∷ [])
Numbered-snoc zero n e key val =
    (omega (arith, key), (λ zero_val. omega (arith, zero_val, val)), tt)
Numbered-snoc (suc count) n e key val = (
  refl,
  (λ zero_val. omega (arith, zero_val)),
  Numbered-snoc count (n + 1) e (omega (arith, key)) val,
)

-- A run for two pages, with all entries but one.
abbrev run : NoFtlRun
run = record {
  size = 2047;
  max_size = 2048;
  max_key = 2047;
  min_key = 1;
  num_pu = 0;
  run_param = none;
  page_pointers = [];
  rundata = numbered 2047 1;
  fence_pointers = [];
}

noftl_run_put-full_example :
    (r' : NoFtlRun) × (s' : Ssd wide) × (param : CoordinatorParam) × (noftl_run_put wide geo last
        run start
      ≡ ok (r', s'))
    × (r'.size ≡ r'.max_size)
    × (r'.rundata ≡ [])
    × ((k : ℕ)
        → k < 2
        → (p : ℕ) × (b : List Entry) × (get_elem? (read_points wide geo 2 0 param.start_page) k
            ≡ some p)
          × (get_elem? (pages_of wide 2 (numbered 2047 1 ++ last ∷ [])) k ≡ some b)
          × Holds wide s'.dev p b)
    × ((key : ℕ)
        → r'.min_key ≤ key
        → key ≤ r'.max_key
        → noftl_run_get wide geo key r' s' ≡ fail undefined)
unfolding lun_width
noftl_run_put-full_example =
    noftl_run_put-full wide (device-Reliable 4096 (omega arith)) wide-Paged refl geo run refl
      (omega arith) 2 (omega arith) refl 1 (omega arith) refl 1 0 0 last start refl
      (length-append (numbered 2047 1) (last ∷ []) ∙ ap (λ n. n + 1) (length-numbered 2047 1))
      (Numbered-snoc 2047 1 last refl refl) (omega arith) (omega arith) refl refl refl

abbrev level : NoFtlLevel
level = record { level_number = 1; lun_number = 0; max_run_size = 2048; runs = run ∷ run ∷ [] }

abbrev tree : NoFtlTree
tree = record {
  buffer = record { max_size = 1; size = 1; entries = last ∷ [] };
  levels = level ∷ level ∷ [];
}
