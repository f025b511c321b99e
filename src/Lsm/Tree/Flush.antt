-- ===== src/Lsm/Tree/Flush.antt =====
-- src/LSM-Tree/LsmTree.cpp `FlushInto`: what a flush leaves.
use rexio.Base.{
  ℕ, ◌+◌, ◌≡◌, refl, ◌==◌, Bool-cases, inl, inr, true, false, not, List, [], ◌∷◌, map, arith,
}
use rexio.Outcome.{ok, ◌>>=◌}
use rexio.Backend.Nvm.{Nvm}
use rexio.Lsm.Merge.{insert}
use rexio.Lsm.Run.{Run, Level, reset, single_run_read, level_is_full}
use rexio.Lsm.Tree.{insert_runs, reset_filled, drain, merge_into, flush_into}

-- How many entries the runs count.
unfoldable pub held : List Run → ℕ
held [] = 0
held (r ∷ rs) = r.size + held rs

insert_runs-nothing : (rs : List Run) → insert_runs rs [] ≡ []
unfolding insert_runs insert single_run_read
insert_runs-nothing [] = refl
insert_runs-nothing (r ∷ rs) = elim (Bool-cases (not (r.size == 0))) [
  | inl some_entries ↦ rw some_entries (insert_runs-nothing rs)
  | inr no_entries ↦ rw no_entries (insert_runs-nothing rs)
]

held-reset : (rs : List Run) → held (map reset rs) ≡ 0
unfolding held reset
held-reset [] = refl
held-reset (r ∷ rs) = omega (arith, held-reset rs)

held-reset_filled : (rs : List Run) → held (reset_filled rs) ≡ 0
unfolding held reset_filled reset
held-reset_filled [] = refl
held-reset_filled (r ∷ rs) = ground (arith, held-reset_filled rs)

-- A flush of a level without an empty run, into a next level that has one, never fails, keeps the
-- levels behind, and leaves both levels with runs that count no entry.
pub flush_into_lem :
    (nvm : Nvm) (current next : Level) (rest : List Level)
    → level_is_full current ≡ true
    → level_is_full next ≡ false
    → (current' : Level) × (next' : Level) × (flush_into nvm (current ∷ next ∷ rest)
        ≡ ok (current' ∷ next' ∷ rest))
      × (held current'.runs ≡ 0)
      × (held next'.runs ≡ 0)
unfolding flush_into
flush_into_lem nvm current next rest full room = (
  record current { runs = map reset current.runs },
  record next { runs = reset_filled next.runs },
  rw (
    flush_into,
    full,
    room,
    ◌>>=◌,
    merge_into,
    insert_runs-nothing current.runs,
    insert_runs-nothing next.runs,
    drain,
  ),
  held-reset current.runs,
  held-reset_filled next.runs,
)
