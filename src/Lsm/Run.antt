-- ===== src/Lsm/Run.antt =====
-- src/LSM-Tree/UtilityImplement/run.cpp and level.cpp: runs of entries, and the levels that hold them.
pub mod Read
use rexio.Base.{
  ℕ, ◌+◌, ◌-◌, ◌*◌, ◌/◌, ◌^◌, ltb, leb, ◌==◌, if◌then◌else◌, Bool, true, false, not, ◌&&◌, List, [],
  ◌∷◌, ◌++◌, length, map, replicate, max, min,
}
use rexio.Outcome.{Outcome, ok, ◌>>=◌, ◌>>◌, assert}
use rexio.Backend.Entry.{Entry, uint64_max}
use rexio.Backend.Nvm.{Nvm}
use rexio.Backend.State.{calculate_page_capacity}

pub record Run : Type 0 where
  pub size : ℕ
  pub max_size : ℕ
  pub max_key : ℕ
  pub min_key : ℕ
  pub rundata : List Entry
  pub page_pointers : List ℕ
  pub fence_pointers : List ℕ

unfoldable pub new_run : Nvm → ℕ → Run
new_run nvm maxsize = record {
  size = 0;
  max_size = maxsize;
  max_key = 0;
  min_key = uint64_max;
  rundata = [];
  page_pointers = replicate (maxsize / calculate_page_capacity nvm 16) uint64_max;
  fence_pointers = [];
}

-- `SingleRunRead`: the reads of the pages are commented out, so the result is empty.
unfoldable pub single_run_read : Run → List Entry
single_run_read r = []

-- `PutValue`: a full page of entries gets a fence pointer, and is not written.
unfoldable pub run_put_value : Nvm → Entry → Run → Outcome Run
run_put_value nvm entry r = do
  assert (ltb r.size r.max_size)
  let rundata = r.rundata ++ entry ∷ []
  let full_page = (length rundata == calculate_page_capacity nvm 16) && not (r.size + 1 == 0)
  ok (record r {
    rundata = rundata;
    max_key = max entry.key r.max_key;
    min_key = min entry.key r.min_key;
    size = r.size + 1;
    fence_pointers = (if full_page then r.fence_pointers ++ entry.key ∷ [] else r.fence_pointers);
  })

-- `Reset()`
unfoldable pub reset : Run → Run
reset r = record r {
  fence_pointers = [];
  size = 0;
  rundata = [];
  page_pointers = map (λ _. uint64_max) r.page_pointers;
  max_key = 0;
  min_key = uint64_max;
}

-- `Reset(flag)`
unfoldable pub reset_flag : Bool → Run → Run
reset_flag flag r = record r {
  fence_pointers = [];
  size = 0;
  rundata = [];
  page_pointers = if flag then [] else r.page_pointers;
  max_key = 0;
  min_key = uint64_max;
}

unfoldable pub unbind : Run → Run
unbind r = record r { page_pointers = []; rundata = []; fence_pointers = []; size = 0 }

unfoldable pub run_is_full : Run → Bool
run_is_full r = leb r.max_size r.size

unfoldable pub run_is_empty : Run → Bool
run_is_empty r = r.size == 0

pub record Level : Type 0 where
  pub level_number : ℕ
  pub max_run_size : ℕ
  pub runs : List Run

-- The number comes from `LevelAlloctor`, which counts from 1.
unfoldable pub new_level : Nvm → ℕ → ℕ → Level
unfolding new_run
new_level nvm level_number buffersize =
    let run = new_run nvm (buffersize * 2 ^ (level_number - 1)) in
    record {
      level_number = level_number;
      max_run_size = buffersize * 2 ^ (level_number - 1);
      runs = run ∷ run ∷ [];
    }

-- The first run with room takes the entry; if there is none, the entry is dropped.
unfoldable pub put_first : Nvm → Entry → List Run → Outcome (List Run)
unfolding run_is_full run_put_value
put_first nvm entry [] = ok []
put_first nvm entry (r ∷ rs) = elim (run_is_full r) [
  | false ↦ do r' ← run_put_value nvm entry r; ok (r' ∷ rs)
  | true ↦ do rs' ← put_first nvm entry rs; ok (r ∷ rs')
]

unfoldable pub level_put_value : Nvm → Entry → Level → Outcome Level
unfolding put_first
level_put_value nvm entry l = do runs ← put_first nvm entry l.runs; ok (record l { runs = runs })

unfoldable pub put_entries : Nvm → List Entry → Level → Outcome Level
unfolding level_put_value
put_entries nvm [] l = ok l
put_entries nvm (e ∷ es) l = do l' ← level_put_value nvm e l; put_entries nvm es l'

-- `IsEmpty`: no run is full to the last entry.
unfoldable pub none_full : ℕ → List Run → Bool
none_full max_run_size [] = true
none_full max_run_size (r ∷ rs) =
    not (not (r.size == 0) && (r.size == max_run_size)) && none_full max_run_size rs

unfoldable pub level_is_empty : Level → Bool
unfolding none_full
level_is_empty l = none_full l.max_run_size l.runs

-- `IsFull`: no run is empty.
unfoldable pub none_empty : ℕ → List Run → Bool
none_empty max_run_size [] = true
none_empty max_run_size (r ∷ rs) =
    not (not (r.size == max_run_size) && (r.size == 0)) && none_empty max_run_size rs

unfoldable pub level_is_full : Level → Bool
unfolding none_empty
level_is_full l = none_empty l.max_run_size l.runs
