-- ===== src/NoFtl/Tree.antt =====
-- src/LSMTree-NoFTL/StorageManager.cpp: the flush of a level, the put and the reads.
use rexio.Base.{ℕ, ◌==◌, if◌then◌else◌, Bool, true, false, Option, none, some, List, [], ◌∷◌, map}
use rexio.Outcome.{fail, undefined}
use rexio.Backend.Nvm.{Nvm}
use rexio.Backend.Entry.{Entry}
use rexio.Backend.State.{Io, ◌>>=◌, ◌>>◌, return, require}
use rexio.Lsm.Merge.{insert}
use rexio.Lsm.Buffer.{Buffer, put_value, get_value, all_clear, get_entries}
use rexio.Parallel.{Geo}
use rexio.NoFtl.Run.{
  NoFtlRun, NoFtlLevel, noftl_reset, noftl_run_read, noftl_level_put, noftl_level_is_empty,
  noftl_level_is_full, noftl_first_in_runs,
}

pub record NoFtlTree : Type 0 where
  pub buffer : Buffer
  pub levels : List NoFtlLevel

unfoldable pub noftl_reset_filled : List NoFtlRun → List NoFtlRun
unfolding noftl_reset
noftl_reset_filled [] = []
noftl_reset_filled (r ∷ rs) = (if r.size == 0 then r else noftl_reset r) ∷ noftl_reset_filled rs

module _ (nvm : Nvm) (geo : Geo) where
  -- `if(GetNowSize() != 0) mergecon.Insert(SingleRunRead());` for the runs of a level
  unfoldable pub noftl_insert_runs : List NoFtlRun → List Entry → Io nvm (List Entry)
  unfolding insert noftl_run_read
  noftl_insert_runs [] queue = return queue
  noftl_insert_runs (r ∷ rs) queue = elim (r.size == 0) [
    | true ↦ noftl_insert_runs rs queue
    | false ↦ do entries ← noftl_run_read nvm geo r; noftl_insert_runs rs (insert entries queue)
  ]

  -- The entries of the queue but the deleted ones go to the level.
  unfoldable pub noftl_drain : List Entry → NoFtlLevel → Io nvm NoFtlLevel
  unfolding noftl_level_put
  noftl_drain [] l = return l
  noftl_drain (e ∷ queue) l = elim (e.val == 0) [
    | true ↦ noftl_drain queue l
    | false ↦ do l' ← noftl_level_put nvm geo e l; noftl_drain queue l'
  ]

  -- The merge of `FlushInto`, behind the call that made room in the next level.
  unfoldable pub noftl_merge_into : NoFtlLevel → NoFtlLevel → Io nvm (NoFtlLevel × NoFtlLevel)
  unfolding noftl_insert_runs noftl_reset_filled noftl_drain noftl_reset
  noftl_merge_into current next = do
    queue ← noftl_insert_runs current.runs []
    queue' ← noftl_insert_runs next.runs queue
    next' ← noftl_drain queue' (record next { runs = noftl_reset_filled next.runs })
    return (record current { runs = map noftl_reset current.runs }, next')

  -- `FlushInto`, on the levels from `current` on. The level behind the last one is out of range.
  unfoldable pub noftl_flush_into : List NoFtlLevel → Io nvm (List NoFtlLevel)
  unfolding noftl_merge_into noftl_level_is_full noftl_level_is_empty
  noftl_flush_into [] = λ _. fail undefined
  noftl_flush_into (current ∷ []) = elim (noftl_level_is_full current) [
    | true ↦ λ _. fail undefined
    | false ↦ return (current ∷ [])
  ]
  noftl_flush_into (current ∷ next ∷ rest) = elim (noftl_level_is_full current) [
    | false ↦ return (current ∷ next ∷ rest)
    | true ↦ elim (noftl_level_is_full next) [
      | false ↦ do
        (current', next') ← noftl_merge_into current next
        return (current' ∷ next' ∷ rest)
      | true ↦ do
        below ← noftl_flush_into (next ∷ rest)
        elim below [
          | [] ↦ λ _. fail undefined
          | next' ∷ rest' ↦ do
            require (noftl_level_is_empty next')
            (current', next'') ← noftl_merge_into current next'
            return (current' ∷ next'' ∷ rest')
        ]
    ]
  ]

  unfoldable pub noftl_put_entries : List Entry → NoFtlLevel → Io nvm NoFtlLevel
  unfolding noftl_level_put
  noftl_put_entries [] l = return l
  noftl_put_entries (e ∷ es) l = do l' ← noftl_level_put nvm geo e l; noftl_put_entries es l'

  -- The buffer's entries go to level 0, by way of a merge if a run of it is full.
  unfoldable pub noftl_take_buffer : List Entry → NoFtlLevel → Io nvm NoFtlLevel
  unfolding noftl_level_is_empty noftl_put_entries noftl_insert_runs noftl_reset_filled noftl_drain
  noftl_take_buffer bufferdata level = elim (noftl_level_is_empty level) [
    | true ↦ noftl_put_entries bufferdata level
    | false ↦ do
      queue ← noftl_insert_runs level.runs (insert bufferdata [])
      noftl_drain queue (record level { runs = noftl_reset_filled level.runs })
  ]

  -- `PutValue`: true (1) for a put into the buffer and false (0) for one that flushed it.
  unfoldable pub noftl_put_value : ℕ → ℕ → NoFtlTree → Io nvm (Bool × NoFtlTree)
  unfolding put_value noftl_flush_into noftl_take_buffer all_clear get_entries
  noftl_put_value key value tree = elim (put_value key value tree.buffer).0 [
    | true ↦ return (true, record tree { buffer = (put_value key value tree.buffer).1 })
    | false ↦ do
      levels ← noftl_flush_into tree.levels
      elim levels [
        | [] ↦ λ _. fail undefined
        | first ∷ rest ↦ do
          first' ← noftl_take_buffer (get_entries tree.buffer) first
          let (again, buffer') = put_value key value (all_clear tree.buffer)
          require again
          return (false, record { buffer = buffer'; levels = first' ∷ rest })
      ]
  ]

  unfoldable pub noftl_delete_value : ℕ → NoFtlTree → Io nvm (Bool × NoFtlTree)
  unfolding noftl_put_value
  noftl_delete_value key tree = noftl_put_value key 0 tree

  unfoldable pub noftl_first_in_levels : ℕ → List NoFtlLevel → Io nvm (Option ℕ)
  unfolding noftl_first_in_runs
  noftl_first_in_levels key [] = return none
  noftl_first_in_levels key (l ∷ ls) = do
    val ← noftl_first_in_runs nvm geo key l.runs
    elim val [ some v ↦ return (some v) | none ↦ noftl_first_in_levels key ls ]

  unfoldable pub noftl_get_value : ℕ → NoFtlTree → Io nvm (Option ℕ)
  unfolding get_value noftl_first_in_levels
  noftl_get_value key tree = elim (get_value key tree.buffer) [
    | some v ↦ return (some v)
    | none ↦ noftl_first_in_levels key tree.levels
  ]
