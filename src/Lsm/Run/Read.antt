-- ===== src/Lsm/Run/Read.antt =====
-- src/LSM-Tree/UtilityImplement/run.cpp: the reads of a run, by its fence pointers, and the writes of
-- its pages and pointers.
use rexio.Base.{
  ℕ, zero, suc, ◌+◌, ◌*◌, ◌/◌, ltb, ◌==◌, if◌then◌else◌, not, ◌&&◌, ◌||◌, Bool, true, false, Option,
  none, some, List, [], ◌∷◌, ◌++◌, length, get_elem?, set, max,
}
use rexio.Outcome.{fail, undefined}
use rexio.Backend.Nvm.{Nvm}
use rexio.Backend.Entry.{Entry, uint64_max, find}
use rexio.Backend.State.{Io, ◌>>=◌, ◌>>◌, return, require, demand, calculate_page_capacity}
use rexio.Backend.Reader.{run_read_from_page}
use rexio.Backend.Writer.{single_page_write_lsm}
use rexio.Lsm.Run.{Run}

-- `lower_bound(v.begin(), v.end(), key) - v.begin()`, of a vector in order
unfoldable pub lower_index : ℕ → List ℕ → ℕ
lower_index key [] = 0
lower_index key (f ∷ fs) = let rest = lower_index key fs in if ltb f key then suc rest else 0

-- `*value = (*get).val`, or a null pointer
abbrev pub value_of : Option Entry → Option ℕ
value_of none = none
value_of (some e) = some e.val

-- The loop of `SetFencePointers`.
unfoldable pub push_fences : List ℕ → Run → Run
push_fences [] r = r
push_fences (p ∷ ps) r =
    push_fences ps
      (record r { fence_pointers = r.fence_pointers ++ p ∷ []; max_key = max r.max_key p })

module _ (nvm : Nvm) where
  -- The end of `GetValue` in memory: the iterator that `find` returns is compared with the end of
  -- another vector, which is undefined whatever was found.
  unfoldable pub value_in_memory : ℕ → Run → Io nvm (Option ℕ)
  unfolding find
  value_in_memory key r = elim (find key r.rundata) [
    | some e ↦ λ _. fail undefined
    | none ↦ λ _. fail undefined
  ]

  -- `GetValue` behind the tests of the size and of the keys.
  unfoldable pub value_by_fences : ℕ → Run → Io nvm (Option ℕ)
  unfolding find lower_index value_in_memory run_read_from_page
  value_by_fences key r = elim (get_elem? r.page_pointers (lower_index key r.fence_pointers)) [
    | none ↦ value_in_memory key r
    | some p ↦ elim (p == uint64_max) [
      | true ↦ value_in_memory key r
      | false ↦ do reads ← run_read_from_page nvm p; return (value_of (find key reads))
    ]
  ]

  unfoldable pub run_get_value : ℕ → Run → Io nvm (Option ℕ)
  unfolding value_by_fences
  run_get_value key r =
      if r.size == 0
      then return none
      else if not (length r.fence_pointers == 0) && (ltb key r.min_key || ltb r.max_key key)
      then return none
      else value_by_fences key r

  -- `RunDataWrite`, true for the result 0 and false for -1.
  unfoldable pub run_data_write : Run → Io nvm (Bool × Run)
  unfolding single_page_write_lsm calculate_page_capacity
  run_data_write r =
      let pagesize = calculate_page_capacity nvm 16 in
      elim (length r.rundata == pagesize) [
        | true ↦ elim (r.size / pagesize) [
          | zero ↦ λ _. fail undefined
          | suc index ↦ do
            pointer ← demand (get_elem? r.page_pointers index)
            page ← single_page_write_lsm nvm r.rundata pointer
            return (true, record r { page_pointers = set r.page_pointers index page; rundata = [] })
        ]
        | false ↦ return (false, r)
      ]

  -- The loop of `SetPagePointers`.
  unfoldable pub push_pointers : List ℕ → Run → Io nvm Run
  unfolding calculate_page_capacity
  push_pointers [] r = return r
  push_pointers (p ∷ ps) r = do
    require (not (p == uint64_max))
    push_pointers ps (record r {
      page_pointers = r.page_pointers ++ p ∷ [];
      size = r.size + calculate_page_capacity nvm 16;
    })

  unfoldable pub set_page_pointers : List ℕ → Run → Io nvm (Bool × Run)
  unfolding push_pointers calculate_page_capacity
  set_page_pointers pointers r = do
    require (length r.page_pointers == 0)
    r' ← push_pointers pointers r
    return (length pointers * calculate_page_capacity nvm 16 == r'.max_size / 2, r')

  unfoldable pub set_fence_pointers : List ℕ → Run → Bool × Run
  unfolding push_fences calculate_page_capacity
  set_fence_pointers pointers r =
      (length pointers * calculate_page_capacity nvm 16 == r.max_size / 2, push_fences pointers r)
