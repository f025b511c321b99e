-- ===== src/Tests/SkipLists.antt =====
-- The theorems of the memory tier on a list with the keys 5 and 9.
use rexio.Base.{
  ℕ, ◌+◌, ◌≤◌, ◌<◌, ◌≡◌, refl, ◌==◌, if◌then◌else◌, Option, none, some, [], ◌∷◌, length, get_elem?,
  arith,
}
use rexio.Outcome.{ok, fail, undefined}
use rexio.SkipList.{
  TskiplistNode, TncSkiplist, max_level1, search_node, random_level, descend_update, insert_new,
}
use rexio.SkipList.Order.{first, drop_lt, last_lt}
use rexio.SkipList.Walk.{IsValid, search_node_lem}
use rexio.SkipList.Link.{insert_order}
use rexio.SkipList.Create.{insert_lem}
use rexio.SkipList.Level.{random_level_lem}
use rexio.MemTier.{
  TncTree, double_times, insert_node, search, delete, local_of, set_local, low_bits,
}
use rexio.MemTier.Table.{Good, double_times_lem}
use rexio.MemTier.Values.{search-insert_node, insert_node-zero, insert_node-full, delete-missing}
use rexio.Backend.State.{calculate_page_capacity}
use rexio.Store.{StoreTier}
use rexio.Store.Buffer as Buffer
use rexio.Tests.Toy.{toy, blank}
use rexio.Tests.StoreTier.{one, one-IsValid}

-- Node 1 has key 5 and one level, node 2 has key 9 and two levels.
abbrev nodes : ℕ → TskiplistNode
nodes q =
    if q == 0
    then record {
      key = 0;
      flag = 1;
      offset = 0;
      max_level = 32;
      forward = λ i. if i == 0 then some 1 else if i == 1 then some 2 else none;
    }
    else if q == 1
    then record {
      key = 5;
      flag = 1;
      offset = 1;
      max_level = 1;
      forward = λ i. if i == 0 then some 2 else none;
    }
    else record { key = 9; flag = 1; offset = 2; max_level = 2; forward = λ _. none }

abbrev pair : TncSkiplist
pair = record { nodes = nodes; next = 3; head = 0; number = 2; level = 2; depth = 0 }

pair-IsValid : IsValid pair (1 ∷ 2 ∷ [])
unfolding first
pair-IsValid = record {
  chain = (λ i h. ground arith, (λ i h. ground arith, λ i h. ground arith));
  rises = (omega arith, ((omega arith, tt), (omega arith, (tt, tt))));
  bounded = omega arith;
  head_levels = refl;
  head_key = refl;
  head_flag = refl;
  capped = (omega arith, (omega arith, tt));
  level_fits = omega arith;
  allocated = (omega arith, (omega arith, tt));
  head_allocated = omega arith;
  distinct = ((λ e. omega (arith, e), tt), (tt, tt));
  off_head = (λ e. omega (arith, e), (λ e. omega (arith, e), tt));
}

search_node_lem_example : search_node pair 6 ≡ ok (some 2)
unfolding drop_lt
search_node_lem_example = search_node_lem pair (1 ∷ 2 ∷ []) 6 pair-IsValid

insert_lem_example :
    (q : ℕ) × (update : ℕ → Option ℕ) × (sl' : TncSkiplist) × (descend_update 3 7 pair 0 (λ _. none)
      ≡ ok (q, update))
    × (q ≡ 1)
    × (insert_new 7 44 2 update pair ≡ ok sl')
    × IsValid sl' (1 ∷ 3 ∷ 2 ∷ [])
    × (search_node sl' 7 ≡ ok (some 3))
    × ((sl'.nodes 3).key ≡ 7)
    × ((sl'.nodes 3).flag ≡ 1)
    × ((sl'.nodes 3).offset ≡ 44)
unfolding last_lt insert_order
insert_lem_example =
    insert_lem pair 7 44 2 (1 ∷ 2 ∷ []) pair-IsValid (omega arith) (omega arith) (omega arith)

random_level_lem_example :
    (0 < random_level 100 (λ j. 24 + j))
    × (random_level 100 (λ j. 24 + j) ≤ max_level1)
    × ((j : ℕ) → 1 + j < random_level 100 (λ j. 24 + j) → 24 + j < 25)
    × (random_level 100 (λ j. 24 + j) < max_level1
        → (j : ℕ) → 1 + j ≡ random_level 100 (λ j. 24 + j)
        → 25 ≤ 24 + j)
random_level_lem_example = random_level_lem 100 (λ j. 24 + j)

double_times_lem_example :
    let tree = double_times 2 0 (record { global = []; globaldepth = 0 }) in
    (length tree.global ≡ 4)
    × (tree.globaldepth ≡ 2)
    × ((sl : TncSkiplist) × (local_of tree 7 ≡ ok sl) × Good sl)
double_times_lem_example = double_times_lem 1 0 7 (omega arith)

-- A table of one list.
abbrev tree : TncTree
tree = record { global = pair ∷ []; globaldepth = 0 }

tree-here : (key : ℕ) → get_elem? tree.global (low_bits tree key) ≡ some pair
tree-here key = let only : low_bits tree key ≡ 0 = omega arith in rw only

search-insert_node_example :
    (tree' : TncTree) × (s' : StoreTier) × (sl' : TncSkiplist) × (insert_node toy 100
        (λ j. 24 + j)
        7
        70
        blank
        one
        tree
      ≡ ok (tree', s'))
    × (search toy 7 blank s' tree' ≡ ok (70, (s', blank)))
    × (local_of tree' 7 ≡ ok sl')
    × IsValid sl' (1 ∷ 3 ∷ 2 ∷ [])
    × Buffer.IsValid toy s'
unfolding insert_order calculate_page_capacity
search-insert_node_example =
    search-insert_node toy tree pair 7 (omega arith) (tree-here 7) (1 ∷ 2 ∷ []) pair-IsValid 100
      (λ j. 24 + j) blank one 70 (omega arith) (omega arith) one-IsValid (omega arith) (omega arith)

insert_node-zero_example :
    insert_node toy 100 (λ j. 24 + j) 0 70 blank one tree ≡ ok (set_local tree 0 pair, one)
insert_node-zero_example =
    insert_node-zero toy tree pair 0 (omega arith) (tree-here 0) (1 ∷ 2 ∷ []) pair-IsValid 100
      (λ j. 24 + j) blank one 70 refl (omega arith)

-- The same list, after a node of 32 levels has come and gone from its count.
abbrev tall : TncSkiplist
tall = record pair { level = 32 }

abbrev tall_tree : TncTree
tall_tree = record { global = tall ∷ []; globaldepth = 0 }

tall-IsValid : IsValid tall (1 ∷ 2 ∷ [])
unfolding first
tall-IsValid = record {
  chain = (λ i h. ground arith, (λ i h. ground arith, λ i h. ground arith));
  rises = (omega arith, ((omega arith, tt), (omega arith, (tt, tt))));
  bounded = omega arith;
  head_levels = refl;
  head_key = refl;
  head_flag = refl;
  capped = (omega arith, (omega arith, tt));
  level_fits = omega arith;
  allocated = (omega arith, (omega arith, tt));
  head_allocated = omega arith;
  distinct = ((λ e. omega (arith, e), tt), (tt, tt));
  off_head = (λ e. omega (arith, e), (λ e. omega (arith, e), tt));
}

tall-here : get_elem? tall_tree.global (low_bits tall_tree 7) ≡ some tall
tall-here = refl

insert_node-full_example :
    insert_node toy 100 (λ j. 24 + j) 7 70 blank one tall_tree ≡ fail undefined
insert_node-full_example =
    insert_node-full toy tall_tree tall 7 (omega arith) tall-here (1 ∷ 2 ∷ []) tall-IsValid 100
      (λ j. 24 + j) blank one 70 refl

delete-missing_example : delete toy 12 blank one tree ≡ fail undefined
unfolding drop_lt
delete-missing_example =
    delete-missing toy tree pair 12 (omega arith) (tree-here 12) (1 ∷ 2 ∷ []) pair-IsValid 100
      (λ j. 24 + j) blank one 70 refl
