-- ===== src/NoFtl/Run.antt =====
-- src/LSMTree-NoFTL/run.cpp and level.cpp: runs that are written as a whole, and their levels.
use rexio.Base.{
  ℕ, ◌+◌, ◌-◌, ◌*◌, ◌%◌, ◌^◌, ltb, leb, ◌==◌, if◌then◌else◌, not, ◌&&◌, ◌||◌, Bool, true, false,
  Option, none, some, List, [], ◌∷◌, ◌++◌, length, get_elem?, max, min,
}
use rexio.Outcome.{fail, undefined}
use rexio.Backend.Nvm.{Nvm}
use rexio.Backend.Entry.{Entry, uint64_max, find}
use rexio.Backend.State.{
  Io, ◌>>=◌, ◌>>◌, return, require, demand, modulo, exit_with, calculate_page_capacity,
}
use rexio.Backend.Reader.{run_read_from_page}
use rexio.Lsm.Run.Read.{lower_index, value_of}
use rexio.Parallel.{Geo, CoordinatorParam, coordinator_write}
use rexio.Parallel.ReadMode.{coordinator_read}
use rexio.Backend.Codec.{decode}

-- `run_param` is `none` as long as only its size is set.
pub record NoFtlRun : Type 0 where
  pub size : ℕ
  pub max_size : ℕ
  pub max_key : ℕ
  pub min_key : ℕ
  pub num_pu : ℕ
  pub run_param : Option CoordinatorParam
  pub page_pointers : List ℕ
  pub rundata : List Entry
  pub fence_pointers : List ℕ

unfoldable pub noftl_run : ℕ → ℕ → NoFtlRun
noftl_run maxsize num_pu = record {
  size = 0;
  max_size = maxsize;
  max_key = 0;
  min_key = uint64_max;
  num_pu = num_pu % 2;
  run_param = none;
  page_pointers = [];
  rundata = [];
  fence_pointers = [];
}

-- `Reset()`
unfoldable pub noftl_reset : NoFtlRun → NoFtlRun
noftl_reset r = record r {
  fence_pointers = [];
  size = 0;
  rundata = [];
  max_key = 0;
  min_key = uint64_max;
}

unfoldable pub noftl_run_is_full : NoFtlRun → Bool
noftl_run_is_full r = leb r.max_size r.size

pub record NoFtlLevel : Type 0 where
  pub level_number : ℕ
  pub lun_number : ℕ
  pub max_run_size : ℕ
  pub runs : List NoFtlRun

-- The number comes from `LevelRising`, which counts from 1; the size of a run fits its 32 bits.
unfoldable pub noftl_level : ℕ → ℕ → ℕ → NoFtlLevel
unfolding noftl_run
noftl_level level_number buffersize lun_num =
    let max_run_size = buffersize * 2 ^ (level_number - 1) in
    let run = noftl_run max_run_size lun_num in
    record {
      level_number = level_number;
      lun_number = lun_num;
      max_run_size = max_run_size;
      runs = run ∷ run ∷ [];
    }

-- `IsEmpty`: no run is full to the last entry.
unfoldable pub noftl_none_full : ℕ → List NoFtlRun → Bool
noftl_none_full max_run_size [] = true
noftl_none_full max_run_size (r ∷ rs) =
    not (not (r.size == 0) && (r.size == max_run_size)) && noftl_none_full max_run_size rs

unfoldable pub noftl_level_is_empty : NoFtlLevel → Bool
unfolding noftl_none_full
noftl_level_is_empty l = noftl_none_full l.max_run_size l.runs

-- `IsFull`: no run is empty.
unfoldable pub noftl_none_empty : ℕ → List NoFtlRun → Bool
noftl_none_empty max_run_size [] = true
noftl_none_empty max_run_size (r ∷ rs) =
    not (not (r.size == max_run_size) && (r.size == 0)) && noftl_none_empty max_run_size rs

unfoldable pub noftl_level_is_full : NoFtlLevel → Bool
unfolding noftl_none_empty
noftl_level_is_full l = noftl_none_empty l.max_run_size l.runs

module _ (nvm : Nvm) (geo : Geo) where
  -- `RunDataWrite`, true for the result 0 and false for -1.
  unfoldable pub noftl_data_write : NoFtlRun → Io nvm (Bool × NoFtlRun)
  unfolding coordinator_write calculate_page_capacity
  noftl_data_write r = do
    rest ← modulo (length r.rundata) (calculate_page_capacity nvm 16)
    elim (rest == 0) [
      | true ↦ do
        param ← coordinator_write nvm geo r.rundata r.num_pu
        return (true, record r { run_param = some param; rundata = [] })
      | false ↦ return (false, r)
    ]

  -- `SingleRunRead`: `max_size` entries out of the bytes that the read mode hands out. The start page
  -- of a run that was never written is not set, and neither is what no page was read into.
  unfoldable pub noftl_run_read : NoFtlRun → Io nvm (List Entry)
  unfolding coordinator_read decode
  noftl_run_read r = do
    param ← demand r.run_param
    bytes ← coordinator_read nvm geo r.num_pu r.max_size param.start_page
    demand (if ltb (length bytes) (16 * r.max_size) then none else some (decode r.max_size bytes))

  unfoldable pub noftl_run_put : Entry → NoFtlRun → Io nvm NoFtlRun
  unfolding noftl_data_write
  noftl_run_put entry r = do
    require (ltb r.size r.max_size)
    let r₁ = record r {
      rundata = r.rundata ++ entry ∷ [];
      max_key = max entry.key r.max_key;
      min_key = min entry.key r.min_key;
      size = r.size + 1;
    }
    elim (r₁.size == r₁.max_size) [
      | false ↦ return r₁
      | true ↦ do
        (written, r₂) ←
            noftl_data_write (record r₁ { fence_pointers = r₁.fence_pointers ++ entry.key ∷ [] })
        elim written [
          | true ↦ do require (length r₂.rundata == 0); return r₂
          | false ↦ exit_with 104
        ]
    ]

  -- `find` in `Rundata`, whose iterator is compared with the end of another vector, which is undefined
  -- whatever was found.
  unfoldable pub noftl_value_in_memory : ℕ → NoFtlRun → Io nvm (Option ℕ)
  unfolding find
  noftl_value_in_memory key r = elim (find key r.rundata) [
    | some e ↦ λ _. fail undefined
    | none ↦ λ _. fail undefined
  ]

  unfoldable pub noftl_run_get : ℕ → NoFtlRun → Io nvm (Option ℕ)
  unfolding noftl_value_in_memory find lower_index run_read_from_page
  noftl_run_get key r =
      if r.size == 0
      then return none
      else if not (length r.fence_pointers == 0) && (ltb key r.min_key || ltb r.max_key key)
      then return none
      else elim (get_elem? r.page_pointers (lower_index key r.fence_pointers)) [
        | none ↦ noftl_value_in_memory key r
        | some p ↦ elim (p == uint64_max) [
          | true ↦ noftl_value_in_memory key r
          | false ↦ do reads ← run_read_from_page nvm p; return (value_of (find key reads))
        ]
      ]

  -- The first run with room takes the entry; if there is none, the entry is dropped.
  unfoldable pub noftl_put_first : Entry → List NoFtlRun → Io nvm (List NoFtlRun)
  unfolding noftl_run_is_full noftl_run_put
  noftl_put_first entry [] = return []
  noftl_put_first entry (r ∷ rs) = elim (noftl_run_is_full r) [
    | false ↦ do r' ← noftl_run_put entry r; return (r' ∷ rs)
    | true ↦ do rs' ← noftl_put_first entry rs; return (r ∷ rs')
  ]

  unfoldable pub noftl_level_put : Entry → NoFtlLevel → Io nvm NoFtlLevel
  unfolding noftl_put_first
  noftl_level_put entry l = do
    runs ← noftl_put_first entry l.runs
    return (record l { runs = runs })

  unfoldable pub noftl_first_in_runs : ℕ → List NoFtlRun → Io nvm (Option ℕ)
  unfolding noftl_run_get
  noftl_first_in_runs key [] = return none
  noftl_first_in_runs key (r ∷ rs) = elim (r.size == 0) [
    | true ↦ noftl_first_in_runs key rs
    | false ↦ do
      val ← noftl_run_get key r
      elim val [ some v ↦ return (some v) | none ↦ noftl_first_in_runs key rs ]
  ]
