-- ===== src/Lsm/Tree.antt =====
-- src/LSM-Tree/LsmTree.cpp: the flush of a level into the next one, and the put.
pub mod Flush
pub mod Read
use rexio.Base.{ℕ, ◌==◌, if◌then◌else◌, Bool, true, false, not, List, [], ◌∷◌, map}
use rexio.Outcome.{Outcome, ok, fail, undefined, ◌>>=◌, ◌>>◌, assert}
use rexio.Backend.Entry.{Entry}
use rexio.Backend.Nvm.{Nvm}
use rexio.Lsm.Merge.{insert}
use rexio.Lsm.Buffer.{Buffer, put_value, all_clear, get_entries}
use rexio.Lsm.Run.{
  Run, Level, single_run_read, reset, level_put_value, put_entries, level_is_empty, level_is_full,
}

pub record LsmTree : Type 0 where
  pub buffer : Buffer
  pub levels : List Level

-- `if(GetNowSize() != 0) mergecon.Insert(SingleRunRead());` for the runs of a level
unfoldable pub insert_runs : List Run → List Entry → List Entry
unfolding insert single_run_read
insert_runs [] queue = queue
insert_runs (r ∷ rs) queue =
    insert_runs rs (if not (r.size == 0) then insert (single_run_read r) queue else queue)

-- The reset of the runs that are not empty.
unfoldable pub reset_filled : List Run → List Run
unfolding reset
reset_filled [] = []
reset_filled (r ∷ rs) = (if not (r.size == 0) then reset r else r) ∷ reset_filled rs

-- `while(!mergecon.IsEmpty())`: `Contextpop1` hands out the entries from the front, and those with
-- value 0, the deleted ones, are dropped.
unfoldable pub drain : Nvm → List Entry → Level → Outcome Level
unfolding level_put_value
drain nvm [] l = ok l
drain nvm (e ∷ queue) l = elim (e.val == 0) [
  | true ↦ drain nvm queue l
  | false ↦ do l' ← level_put_value nvm e l; drain nvm queue l'
]

-- The merge of `FlushInto`, behind the call that made room in the next level.
unfoldable pub merge_into : Nvm → Level → Level → Outcome (Level × Level)
unfolding insert_runs reset_filled drain
merge_into nvm current next = do
  let queue = insert_runs next.runs (insert_runs current.runs [])
  next' ← drain nvm queue (record next { runs = reset_filled next.runs })
  ok (record current { runs = map reset current.runs }, next')

-- `FlushInto`, on the levels from `current` on. The level behind the last one is out of range.
unfoldable pub flush_into : Nvm → List Level → Outcome (List Level)
unfolding merge_into level_is_full level_is_empty
flush_into nvm [] = fail undefined
flush_into nvm (current ∷ []) = if level_is_full current then fail undefined else ok (current ∷ [])
flush_into nvm (current ∷ next ∷ rest) = elim (level_is_full current) [
  | false ↦ ok (current ∷ next ∷ rest)
  | true ↦ elim (level_is_full next) [
    | false ↦ do (current', next') ← merge_into nvm current next; ok (current' ∷ next' ∷ rest)
    | true ↦ do
      below ← flush_into nvm (next ∷ rest)
      elim below [
        | [] ↦ fail undefined
        | next' ∷ rest' ↦ do
          assert (level_is_empty next')
          (current', next'') ← merge_into nvm current next'
          ok (current' ∷ next'' ∷ rest')
      ]
  ]
]

-- The buffer's entries go to level 0, by way of a merge if a run of it is full.
unfoldable pub take_buffer : Nvm → List Entry → Level → Outcome Level
unfolding level_is_empty put_entries insert_runs reset_filled drain
take_buffer nvm bufferdata level = elim (level_is_empty level) [
  | true ↦ put_entries nvm bufferdata level
  | false ↦
      drain nvm (insert_runs level.runs (insert bufferdata []))
        (record level { runs = reset_filled level.runs })
]

-- `PutValue`: the result is 1 for a put into the buffer and 0 for one that flushed it.
unfoldable pub lsm_put_value : Nvm → ℕ → ℕ → LsmTree → Outcome (Bool × LsmTree)
unfolding put_value flush_into take_buffer all_clear get_entries
lsm_put_value nvm key value tree =
    let (stored, buffer) = put_value key value tree.buffer in
    if stored then ok (true, record tree { buffer = buffer }) else (do
      levels ← flush_into nvm tree.levels
      elim levels [
        | [] ↦ fail undefined
        | first ∷ rest ↦ do
          first' ← take_buffer nvm (get_entries tree.buffer) first
          let (again, buffer') = put_value key value (all_clear tree.buffer)
          assert again
          ok (false, record { buffer = buffer'; levels = first' ∷ rest })
      ])

unfoldable pub update_value : Nvm → ℕ → ℕ → LsmTree → Outcome (Bool × LsmTree)
unfolding lsm_put_value
update_value nvm key val tree = lsm_put_value nvm key val tree

unfoldable pub delete_value : Nvm → ℕ → LsmTree → Outcome (Bool × LsmTree)
unfolding lsm_put_value
delete_value nvm key tree = lsm_put_value nvm key 0 tree
