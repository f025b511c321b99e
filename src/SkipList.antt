-- ===== src/SkipList.antt =====
-- src/Ti-OCSSD/MemoryTier/Node.h and Node.cpp, and the walks of MemTier.cpp: one skip list of the
-- memory tier. Its nodes stand in a store of their own, under addresses that `malloc` gives out in
-- turn; a forward pointer is an address or null.
pub mod Order
pub mod Walk
pub mod Link
pub mod Last
pub mod Places
pub mod Insert
pub mod Keep
pub mod Descend
pub mod Create
pub mod Level
use rexio.Base.{
  ℕ, zero, suc, ◌+◌, ◌*◌, ◌/◌, ◌<◌, ltb, ◌==◌, if◌then◌else◌, Bool, true, false, not, ◌&&◌, Option,
  none, some, List, [], ◌∷◌,
}
use rexio.Outcome.{Outcome, ok, fail, undefined, unfinished, ◌>>=◌, deref}

-- `forward` holds `max_level` pointers.
pub record TskiplistNode : Type 0 where
  pub key : ℕ
  pub flag : ℕ
  pub offset : ℕ
  pub max_level : ℕ
  pub forward : ℕ → Option ℕ

pub record TncSkiplist : Type 0 where
  pub nodes : ℕ → TskiplistNode
  pub next : ℕ
  pub head : ℕ
  pub number : ℕ
  pub level : ℕ
  pub depth : ℕ

abbrev pub max_level1 : ℕ
max_level1 = 32

unfoldable pub tskiplist_node_creat : ℕ → ℕ → ℕ → TskiplistNode
tskiplist_node_creat key offset max_level = record {
  key = key;
  flag = 1;
  offset = offset;
  max_level = max_level;
  forward = λ _. none;
}

-- `number` is not set: it is what the memory held.
unfoldable pub tskiplist_create : ℕ → ℕ → TncSkiplist
unfolding tskiplist_node_creat
tskiplist_create memory depth = record {
  nodes = λ _. tskiplist_node_creat 0 0 max_level1;
  next = 1;
  head = 0;
  number = memory;
  level = 0;
  depth = depth;
}

unfoldable pub set_node : ℕ → TskiplistNode → TncSkiplist → TncSkiplist
set_node a node sl = record sl { nodes = λ q. if q == a then node else sl.nodes q }

-- `node->forward[i]`
unfoldable pub forward_at : TncSkiplist → ℕ → ℕ → Outcome (Option ℕ)
forward_at sl a i =
    if ltb i (sl.nodes a).max_level then ok ((sl.nodes a).forward i) else fail undefined

-- `node->forward[i] = p`
unfoldable pub set_forward : ℕ → ℕ → Option ℕ → TncSkiplist → TncSkiplist
unfolding set_node
set_forward a i p sl =
    set_node a (record (sl.nodes a) { forward = λ j. if j == i then p else (sl.nodes a).forward j })
      sl

-- `while (node->forward[i] && node->forward[i]->key < hashkey) node = node->forward[i];`, on fuel
unfoldable pub advance : ℕ → ℕ → ℕ → TncSkiplist → ℕ → Outcome ℕ
unfolding forward_at
advance zero i hashkey sl node = fail unfinished
advance (suc fuel) i hashkey sl node = do
  p ← forward_at sl node i
  elim p [
    | none ↦ ok node
    | some n ↦ elim (ltb (sl.nodes n).key hashkey) [
      | true ↦ advance fuel i hashkey sl n
      | false ↦ ok node
    ]
  ]

-- The levels below `i`, from above. A walk visits a node at most once, so the nodes are fuel enough.
unfoldable pub descend : ℕ → ℕ → TncSkiplist → ℕ → Outcome ℕ
unfolding advance
descend zero hashkey sl node = ok node
descend (suc i) hashkey sl node = do
  node' ← advance sl.next i hashkey sl node
  descend i hashkey sl node'

unfoldable pub search_node : TncSkiplist → ℕ → Outcome (Option ℕ)
unfolding descend
search_node sl hashkey = do node ← descend sl.level hashkey sl sl.head; forward_at sl node 0

-- The same descent, which notes in `update` where it leaves each level.
unfoldable pub descend_update :
    ℕ → ℕ → TncSkiplist → ℕ → (ℕ → Option ℕ) → Outcome (ℕ × (ℕ → Option ℕ))
unfolding advance
descend_update zero hashkey sl node update = ok (node, update)
descend_update (suc i) hashkey sl node update = do
  node' ← advance sl.next i hashkey sl node
  descend_update i hashkey sl node' (λ j. if j == i then some node' else update j)

-- `for (i < v)`: the new node `tsl` enters level after level, from level `i` on, `n` of them.
unfoldable pub link : ℕ → ℕ → (ℕ → Option ℕ) → ℕ → TncSkiplist → Outcome TncSkiplist
unfolding forward_at set_forward
link i zero update tsl sl = ok sl
link i (suc n) update tsl sl = do
  u ← deref (update i)
  p ← forward_at sl u i
  link (i + 1) n update tsl (set_forward u i (some tsl) (set_forward tsl i p sl))

-- `while (rand() < P_FACTOR1 && v < MAX_LEVEL1) v++;`, where `rands` are the values of `rand()` and
-- `p_factor1` is `RAND_MAX >> 2`. Fuel 32 is enough, for `v` grows to 32 at most.
unfoldable pub level_from : ℕ → ℕ → (ℕ → ℕ) → ℕ → ℕ
level_from zero p_factor1 rands v = v
level_from (suc fuel) p_factor1 rands v =
    let rest = level_from fuel p_factor1 (λ j. rands (suc j)) (v + 1) in
    if ltb (rands 0) p_factor1 && ltb v max_level1 then rest else v

unfoldable pub random_level : ℕ → (ℕ → ℕ) → ℕ
unfolding level_from
random_level rand_max rands = level_from 32 (rand_max / 4) rands 1

-- Behind the search of `InsertNode`: the new node, with `v` levels and the offset of its value.
unfoldable pub insert_new : ℕ → ℕ → ℕ → (ℕ → Option ℕ) → TncSkiplist → Outcome TncSkiplist
unfolding link set_node tskiplist_node_creat
insert_new hashkey offset1 v update sl =
    let grown : ℕ → Option ℕ =
      λ j. (if not (ltb j sl.level) && ltb j v && ltb sl.level v then some sl.head else update j) in
    let tsl = sl.next in
    link 0 v grown tsl (
      set_node tsl (tskiplist_node_creat hashkey offset1 v) (record sl {
        next = sl.next + 1;
        number = sl.number + 1;
        level = if ltb sl.level v then v else sl.level;
      }))
