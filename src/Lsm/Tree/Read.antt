-- ===== src/Lsm/Tree/Read.antt =====
-- src/LSM-Tree/LsmTree.cpp and UtilityImplement/level.cpp `GetValue`: a read asks the buffer, and then
-- the runs of the levels in their order.
use rexio.Base.{
  ℕ, ◌<◌, ◌≡◌, ◌≢◌, ◌==◌, true, false, Option, none, some, List, [], ◌∷◌, ==_refl, ==_ne,
}
use rexio.Outcome.{ok}
use rexio.Backend.Nvm.{Nvm}
use rexio.Backend.State.{Ssd, Io, ◌>>=◌, return}
use rexio.Lsm.Buffer.{get_value}
use rexio.Lsm.Buffer.Values.{IsValid, put_value_lem}
use rexio.Lsm.Run.{Run, Level}
use rexio.Lsm.Run.Read.{run_get_value}
use rexio.Lsm.Tree.{LsmTree, lsm_put_value}

module _ (nvm : Nvm) where
  -- The loop over the runs of a level.
  unfoldable pub first_in_runs : ℕ → List Run → Io nvm (Option ℕ)
  unfolding run_get_value
  first_in_runs key [] = return none
  first_in_runs key (r ∷ rs) = elim (r.size == 0) [
    | true ↦ first_in_runs key rs
    | false ↦ do
      val ← run_get_value nvm key r
      elim val [ some v ↦ return (some v) | none ↦ first_in_runs key rs ]
  ]

  unfoldable pub level_get_value : ℕ → Level → Io nvm (Option ℕ)
  unfolding first_in_runs
  level_get_value key l = first_in_runs key l.runs

  -- The loop over the levels.
  unfoldable pub first_in_levels : ℕ → List Level → Io nvm (Option ℕ)
  unfolding level_get_value
  first_in_levels key [] = return none
  first_in_levels key (l ∷ ls) = do
    val ← level_get_value key l
    elim val [ some v ↦ return (some v) | none ↦ first_in_levels key ls ]

  unfoldable pub lsm_get_value : ℕ → LsmTree → Io nvm (Option ℕ)
  unfolding get_value first_in_levels
  lsm_get_value key tree = elim (get_value key tree.buffer) [
    | some v ↦ return (some v)
    | none ↦ first_in_levels key tree.levels
  ]

  module _ (key value : ℕ) (tree : LsmTree) (valid : IsValid tree.buffer)
      (room : tree.buffer.size < tree.buffer.max_size) (s : Ssd nvm) where
    -- A put into a tree whose buffer is valid and has room is read back at once, without the device,
    -- and a read of any other key ends as before, whatever the levels hold; the buffer stays valid.
    pub lsm_get_value-put :
        (tree' : LsmTree) × (lsm_put_value nvm key value tree ≡ ok (true, tree'))
        × IsValid tree'.buffer
        × (lsm_get_value key tree' s ≡ ok (some value, s))
        × ((q : ℕ) → q ≢ key → lsm_get_value q tree' s ≡ lsm_get_value q tree s)
    unfolding lsm_put_value lsm_get_value
    lsm_get_value-put =
        let (b', done, valid', found) = put_value_lem key value tree.buffer valid room in
        (
          record tree { buffer = b' },
          rw (lsm_put_value, done),
          valid',
          rw (lsm_get_value, found key, ==_refl key),
          λ q h. rw (lsm_get_value, found q, ==_ne q key h),
        )
