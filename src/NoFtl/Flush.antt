-- ===== src/NoFtl/Flush.antt =====
-- src/LSMTree-NoFTL/StorageManager.cpp: a flush reads runs, and no run can be read.
use rexio.Base.{
  ℕ, ltb, ◌*◌, Option-cases, sym, ◌≡◌, ◌≢◌, refl, ap, ◌∙◌, ◌==◌, Bool-cases, ==_ne, true, false,
  inl, inr, List, [], ◌∷◌, arith,
}
use rexio.Outcome.{fail, undefined}
use rexio.Backend.Nvm.{Nvm}
use rexio.Backend.Entry.{Entry}
use rexio.Backend.State.{Ssd, ◌>>=◌}
use rexio.Parallel.{Geo}
use rexio.Parallel.ReadMode.{coordinator_read_lem}
use rexio.NoFtl.Run.{NoFtlRun, NoFtlLevel, noftl_none_empty, noftl_level_is_full, noftl_run_read}
use rexio.NoFtl.Tree.{noftl_insert_runs, noftl_merge_into, noftl_flush_into}

-- A level has a run, and its runs have room.
pub record IsLevel (l : NoFtlLevel) : Type 0 where
  pub first : NoFtlRun
  pub others : List NoFtlRun
  pub has_runs : l.runs ≡ first ∷ others
  pub has_room : l.max_run_size ≢ 0
  pub first_room : first.max_size ≢ 0

abbrev pub AreLevels : List NoFtlLevel → Type 0
AreLevels [] = Unit
AreLevels (l ∷ ls) = IsLevel l × AreLevels ls

first_filled :
    (max_run_size : ℕ) (r : NoFtlRun) (rs : List NoFtlRun)
    → max_run_size ≢ 0
    → noftl_none_empty max_run_size (r ∷ rs) ≡ true
    → r.size ≢ 0
unfolding noftl_none_empty
first_filled max_run_size r rs room full empty =
    let zero_size : (r.size == 0) ≡ true = ground (arith, empty) in
    let not_max : (r.size == max_run_size) ≡ false =
      ==_ne r.size max_run_size (λ e. room (omega (arith, e, empty))) in
    cc (full, zero_size, not_max)

module _ (nvm : Nvm) (geo : Geo) where
  -- No run with room for an entry can be read.
  noftl_run_read-stops :
      (r : NoFtlRun) (s : Ssd nvm) → r.max_size ≢ 0 → noftl_run_read nvm geo r s ≡ fail undefined
  unfolding noftl_run_read
  noftl_run_read-stops r s room = elim (Option-cases r.run_param) [
    | inl unset ↦ rw (noftl_run_read, ◌>>=◌, unset) refl
    | inr (param, set) ↦
        elim (coordinator_read_lem nvm geo r.num_pu r.max_size param.start_page s) [
          | inl stops ↦ rw (noftl_run_read, ◌>>=◌, set, stops) refl
          | inr nothing ↦
              let short : ltb 0 (16 * r.max_size) ≡ true = ground (arith, room) in
              rw (noftl_run_read, ◌>>=◌, set, nothing, short) refl
        ]
  ]

  insert_runs-stops :
      (r : NoFtlRun) (rs : List NoFtlRun) (queue : List Entry) (s : Ssd nvm)
      → r.size ≢ 0
      → r.max_size ≢ 0
      → noftl_insert_runs nvm geo (r ∷ rs) queue s ≡ fail undefined
  unfolding noftl_insert_runs
  insert_runs-stops r rs queue s filled room =
      rw (noftl_insert_runs, ==_ne r.size 0 filled, ◌>>=◌, noftl_run_read-stops r s room) refl

  merge-stops :
      (current next : NoFtlLevel) (s : Ssd nvm)
      → IsLevel current
      → noftl_level_is_full current ≡ true
      → noftl_merge_into nvm geo current next s ≡ fail undefined
  unfolding noftl_merge_into noftl_level_is_full
  merge-stops current next s level full =
      let filled =
        first_filled current.max_run_size level.first level.others level.has_room
          (ap (noftl_none_empty current.max_run_size) (sym level.has_runs) ∙ full) in
      rw
        (
          noftl_merge_into,
          ◌>>=◌,
          level.has_runs,
          insert_runs-stops level.first level.others [] s filled level.first_room,
        )
        refl

  pub flush_stops :
      (current : NoFtlLevel) (rest : List NoFtlLevel) (s : Ssd nvm)
      → AreLevels (current ∷ rest)
      → noftl_level_is_full current ≡ true
      → noftl_flush_into nvm geo (current ∷ rest) s ≡ fail undefined
  unfolding noftl_flush_into
  flush_stops current [] s levels full = rw (noftl_flush_into, full) refl
  flush_stops current (next ∷ rest) s levels full = elim (Bool-cases (noftl_level_is_full next)) [
    | inr room ↦
        rw (noftl_flush_into, full, room, ◌>>=◌, merge-stops current next s levels.0 full) refl
    | inl also ↦
        rw (noftl_flush_into, full, also, ◌>>=◌, flush_stops next rest s levels.1 also) refl
  ]
