-- ===== src/MemTier.antt =====
-- src/Ti-OCSSD/MemoryTier/MemTier.cpp: the memory tier of the two-tier index, a hash table of skip
-- lists whose nodes lead to the offsets of the store tier.
pub mod Values
pub mod Table
use rexio.Base.{
  ℕ, zero, suc, ◌+◌, ◌*◌, ◌%◌, ◌^◌, ltb, ◌==◌, if◌then◌else◌, Bool, true, false, Option, none, some,
  List, [], ◌∷◌, ◌++◌, length, get_elem?, set, replicate,
}
use rexio.Outcome.{Outcome, ok, fail, exit, undefined, ◌>>=◌, deref}
use rexio.SkipList.{
  TskiplistNode, TncSkiplist, tskiplist_create, set_node, search_node, descend_update, random_level,
  insert_new,
}
use rexio.Backend.Nvm.{Nvm}
use rexio.Backend.Entry.{uint64_max}
use rexio.Backend.State.{Ssd}
use rexio.Store.{StoreTier, sync_write, sync_read, sync_delete}

-- `global` and `Globaldepth`
pub record TncTree : Type 0 where
  pub global : List TncSkiplist
  pub globaldepth : ℕ

-- `number` of a new list is what the memory held.
unfoldable pub local_generation : ℕ → ℕ → TncSkiplist
unfolding tskiplist_create
local_generation memory globaldepth = tskiplist_create memory globaldepth

unfoldable pub double_hashtable : ℕ → TncTree → TncTree
unfolding local_generation
double_hashtable memory tree =
    let nex = if length tree.global == 0 then 2 else length tree.global in
    record {
      global = tree.global ++ replicate nex (local_generation memory tree.globaldepth);
      globaldepth = suc tree.globaldepth;
    }

-- `n` rounds of the loop
unfoldable pub double_times : ℕ → ℕ → TncTree → TncTree
unfolding double_hashtable
double_times zero memory tree = tree
double_times (suc n) memory tree = double_times n memory (double_hashtable memory tree)

unfoldable pub extend_hash_table_initialize : ℕ → TncTree → TncTree
unfolding double_times
extend_hash_table_initialize memory tree = double_times 20 memory tree

-- The low bits of a key.
abbrev pub low_bits : TncTree → ℕ → ℕ
low_bits tree key = key % 2 ^ tree.globaldepth

-- `hashkey & (1<<Globaldepth)-1`: a shift of an `int` by 31 or more is undefined.
unfoldable pub bucket : TncTree → ℕ → Outcome ℕ
bucket tree key = if ltb tree.globaldepth 31 then ok (low_bits tree key) else fail undefined

unfoldable pub local_of : TncTree → ℕ → Outcome TncSkiplist
unfolding bucket
local_of tree key = do i ← bucket tree key; deref (get_elem? tree.global i)

-- The list that `local_of` leads to is changed in place.
unfoldable pub set_local : TncTree → ℕ → TncSkiplist → TncTree
set_local tree key sl = record tree { global = set tree.global (low_bits tree key) sl }

module _ (nvm : Nvm) where
  -- The node that the descent ends at has the key: a deleted one comes back.
  unfoldable pub insert_present :
      TncSkiplist → ℕ → ℕ → ℕ → Ssd nvm → StoreTier → Outcome (TncSkiplist × StoreTier)
  unfolding set_node
  insert_present sl temp hashkey hashvalue t s =
      if (sl.nodes temp).flag == 1 then ok (sl, s) else (do
        (offset1, s') ← sync_write nvm hashkey hashvalue t s
        ok (
          set_node temp (record (sl.nodes temp) { flag = 1; offset = offset1 })
              (record sl { number = sl.number + 1 }),
          s',
        ))

  -- `rands` are the values of `rand()`, `rand_max` is `RAND_MAX`.
  unfoldable pub insert_node :
      ℕ → (ℕ → ℕ) → ℕ → ℕ → Ssd nvm → StoreTier → TncTree → Outcome (TncTree × StoreTier)
  unfolding insert_present local_of set_local
  insert_node rand_max rands hashkey hashvalue t s tree = do
    sl ← local_of tree hashkey
    (temp, update) ← descend_update (suc sl.level) hashkey sl sl.head (λ _. none)
    elim ((sl.nodes temp).key == hashkey) [
      | true ↦ do
        (sl', s') ← insert_present sl temp hashkey hashvalue t s
        ok (set_local tree hashkey sl', s')
      | false ↦ do
        (offset1, s') ← sync_write nvm hashkey hashvalue t s
        sl' ← insert_new hashkey offset1 (random_level rand_max rands) update sl
        ok (set_local tree hashkey sl', s')
    ]

  -- A live node's value, if the entry at its offset has the key; else `UINT64_MAX`.
  unfoldable pub read_value :
      ℕ → TskiplistNode → Ssd nvm → StoreTier → Outcome (ℕ × (StoreTier × Ssd nvm))
  read_value key1 node t s = elim (node.flag == 0) [
    | true ↦ ok (uint64_max, (s, t))
    | false ↦ do
      (entry, after) ← sync_read nvm node.offset t s
      ok ((if entry.key == key1 then entry.val else uint64_max), after)
  ]

  unfoldable pub search : ℕ → Ssd nvm → StoreTier → TncTree → Outcome (ℕ × (StoreTier × Ssd nvm))
  unfolding local_of read_value
  search key1 t s tree = do
    head ← local_of tree key1
    node ← search_node head key1
    elim node [ none ↦ ok (uint64_max, (s, t)) | some a ↦ read_value key1 (head.nodes a) t s ]

  -- The entry of a live node is deleted; `SyncDelete` always returns 0.
  unfoldable pub drop_entry : TskiplistNode → Ssd nvm → StoreTier → Outcome (StoreTier × Ssd nvm)
  drop_entry node t s = if node.flag == 1 then sync_delete nvm node.offset t s else ok (s, t)

  -- The result is false for -1.
  unfoldable pub update :
      ℕ → ℕ → Ssd nvm → StoreTier → TncTree → Outcome (Bool × (TncTree × (StoreTier × Ssd nvm)))
  unfolding local_of set_local drop_entry set_node
  update key1 val t s tree = do
    head ← local_of tree key1
    node ← search_node head key1
    elim node [
      | none ↦ ok (false, (tree, (s, t)))
      | some a ↦ do
        (s', t') ← drop_entry (head.nodes a) t s
        (offset1, s'') ← sync_write nvm key1 val t' s'
        ok (
          true,
          (
            set_local tree key1 (set_node a (record (head.nodes a) { offset = offset1 }) head),
            (s'', t'),
          ),
        )
    ]

  -- The node that the search returns is read without a test for null.
  unfoldable pub delete_value :
      TncSkiplist → ℕ → Ssd nvm → StoreTier → Outcome (TncSkiplist × (StoreTier × Ssd nvm))
  unfolding set_node
  delete_value head hashkey t s = do
    node ← search_node head hashkey
    a ← deref node
    elim ((head.nodes a).flag == 1) [
      | true ↦ do
        after ← sync_delete nvm (head.nodes a).offset t s
        ok (set_node a (record (head.nodes a) { flag = 0 }) head, after)
      | false ↦ ok (head, (s, t))
    ]

  unfoldable pub delete :
      ℕ → Ssd nvm → StoreTier → TncTree → Outcome (TncTree × (StoreTier × Ssd nvm))
  unfolding local_of set_local delete_value
  delete key1 t s tree = do
    head ← local_of tree key1
    (head', after) ← delete_value head key1 t s
    ok (set_local tree key1 head', after)
