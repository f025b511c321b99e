-- ===== src/MemTier/Table.antt =====
-- src/Ti-OCSSD/MemoryTier/MemTier.cpp: the growth of the hash table of skip lists.
use rexio.Base.{
  ℕ, zero, suc, ◌+◌, ◌^◌, ◌<◌, ◌≡◌, refl, ap, ◌∙◌, ltb, true, ◌==◌, if◌then◌else◌, some, [], ◌∷◌,
  ◌++◌, arith, List, length, get_elem?, replicate, length-append, length-replicate,
}
use native.Mathlib.Nat.{one-le-pow, two-pow-succ, mod-lt}
use rexio.Outcome.{ok}
use rexio.SkipList.{TncSkiplist}
use rexio.SkipList.Walk.{IsValid}
use rexio.SkipList.Level.{tskiplist_create-IsValid}
use rexio.MemTier.{
  TncTree, local_generation, double_hashtable, double_times, bucket, low_bits, local_of,
}

abbrev pub Good : TncSkiplist → Type 0
Good sl = (order : List ℕ) × IsValid sl order

abbrev pub AllGood : List TncSkiplist → Type 0
AllGood [] = Unit
AllGood (sl ∷ l) = Good sl × AllGood l

AllGood-append : (l m : List TncSkiplist) → AllGood l → AllGood m → AllGood (l ++ m)
AllGood-append [] m g h = h
AllGood-append (sl ∷ l) m g h = (g.0, AllGood-append l m g.1 h)

AllGood-replicate : (n : ℕ) (sl : TncSkiplist) → Good sl → AllGood (replicate n sl)
AllGood-replicate zero sl g = tt
AllGood-replicate (suc n) sl g = (g, AllGood-replicate n sl g)

-- A table has a valid list for every value of its low bits.
pub record IsTable (tree : TncTree) : Type 0 where
  pub sized : length tree.global ≡ 2 ^ tree.globaldepth
  pub lists : AllGood tree.global

local_generation-Good : (memory depth : ℕ) → Good (local_generation memory depth)
unfolding local_generation
local_generation-Good memory depth = ([], tskiplist_create-IsValid memory depth)

double_hashtable-globaldepth :
    (memory : ℕ) (tree : TncTree)
    → (double_hashtable memory tree).globaldepth ≡ suc tree.globaldepth
unfolding double_hashtable
double_hashtable-globaldepth memory tree = refl

double_size :
    (tree : TncTree)
    → length tree.global ≡ 2 ^ tree.globaldepth
    → (sl : TncSkiplist)
    → length
        (tree.global ++ replicate (if length tree.global == 0 then 2 else length tree.global) sl)
      ≡ 2 ^ suc tree.globaldepth
double_size tree sized sl =
    length-append tree.global _
    ∙ ground (
      arith,
      sized,
      length-replicate (length tree.global) sl,
      one-le-pow tree.globaldepth 2 (omega arith),
      two-pow-succ tree.globaldepth,
    )

double_hashtable-IsTable :
    (memory : ℕ) (tree : TncTree) → IsTable tree → IsTable (double_hashtable memory tree)
unfolding double_hashtable
double_hashtable-IsTable memory tree table = record {
  sized = double_size tree table.sized (local_generation memory tree.globaldepth);
  lists =
      AllGood-append tree.global _ table.lists
        (AllGood-replicate _ _ (local_generation-Good memory tree.globaldepth));
}

double_times-IsTable :
    (n memory : ℕ) (tree : TncTree)
    → IsTable tree
    → IsTable (double_times n memory tree)
      × ((double_times n memory tree).globaldepth ≡ tree.globaldepth + n)
unfolding double_times
double_times-IsTable zero memory tree table = (table, omega arith)
double_times-IsTable (suc n) memory tree table =
    let (table', depth) =
      double_times-IsTable n memory (double_hashtable memory tree)
        (double_hashtable-IsTable memory tree table) in
    (table', omega (arith, depth, double_hashtable-globaldepth memory tree))

-- The first doubling of an empty table makes two lists.
first_double :
    (memory : ℕ) → IsTable (double_hashtable memory (record { global = []; globaldepth = 0 }))
unfolding double_hashtable
first_double memory = record {
  sized = refl;
  lists = AllGood-replicate 2 _ (local_generation-Good memory 0);
}

AllGood-get :
    (l : List TncSkiplist) (i : ℕ)
    → AllGood l
    → i < length l
    → (sl : TncSkiplist) × (get_elem? l i ≡ some sl) × Good sl
AllGood-get [] i g h = absurd (omega arith)
AllGood-get (sl ∷ l) zero g h = (sl, refl, g.0)
AllGood-get (sl ∷ l) (suc i) g h = AllGood-get l i g.1 (omega arith)

local_of-IsTable :
    (tree : TncTree) (key : ℕ)
    → IsTable tree
    → tree.globaldepth < 31
    → (sl : TncSkiplist) × (local_of tree key ≡ ok sl) × Good sl
unfolding local_of bucket
local_of-IsTable tree key table narrow =
    let inside : low_bits tree key < length tree.global = omega (
      arith,
      table.sized,
      mod-lt key {m = 2 ^ tree.globaldepth} (one-le-pow tree.globaldepth 2 (omega arith)),
    ) in
    let (sl, found, good) = AllGood-get tree.global (low_bits tree key) table.lists inside in
    let shifts : ltb tree.globaldepth 31 ≡ true = ground (arith, narrow) in
    (sl, rw (shifts, found) refl, good)

-- At most 30 doublings of the empty table, of which the initialisation makes 20, `n + 1` of them, give
-- a table of depth `n + 1` with `2 ^ (n + 1)` valid lists, in which every key finds a list.
pub double_times_lem :
    (n memory key : ℕ)
    → n < 30
    → let tree = double_times (suc n) memory (record { global = []; globaldepth = 0 }) in
      (length tree.global ≡ 2 ^ suc n)
      × (tree.globaldepth ≡ suc n)
      × ((sl : TncSkiplist) × (local_of tree key ≡ ok sl) × Good sl)
unfolding double_times
double_times_lem n memory key narrow =
    let first = double_hashtable memory (record { global = []; globaldepth = 0 }) in
    let (table, depth) = double_times-IsTable n memory first (first_double memory) in
    let deep =
      depth
      ∙ omega
          (arith, double_hashtable-globaldepth memory (record { global = []; globaldepth = 0 })) in
    (
      table.sized ∙ ap (λ d. 2 ^ d) deep,
      deep,
      local_of-IsTable _ key table (omega (arith, deep, narrow)),
    )
