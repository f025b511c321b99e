-- ===== src/Cache/Nodes/View.antt =====
-- What a cache holds, seen from outside: the nodes in order, without their addresses. These are the
-- functions that the caches are meant to compute, on plain lists.
use rexio.Base.{
  ℕ, zero, suc, ◌≤◌, ◌<◌, ◌≡◌, refl, ap, ◌==◌, if◌then◌else◌, Option, none, some, List, [], ◌∷◌,
  map, length, take, arith,
}
use rexio.Cache.Nodes.{ReadNode, Cell, pop_back}
use rexio.Cache.Nodes.Laws.{find_key, erase_key, length-erase_key}

abbrev pub view {ℓ} : {D : Type ℓ} → List (Cell D) → List (ReadNode D)
view = map (λ e. e.node)

-- The contents that a lookup returns.
abbrev pub payload? {ℓ} : {D : Type ℓ} → Option (ReadNode D) → Option D
payload? none = none
payload? (some n) = some n.payload

module _ {ℓ} {D : Type ℓ} (key : ℕ → ℕ) where
  unfoldable pub lookup : ℕ → List (ReadNode D) → Option (ReadNode D)
  lookup k [] = none
  lookup k (n ∷ l) = if key n.page_id == k then some n else lookup k l

  unfoldable pub remove : ℕ → List (ReadNode D) → List (ReadNode D)
  remove k [] = []
  remove k (n ∷ l) = if key n.page_id == k then l else n ∷ remove k l

module _ {ℓ} {D : Type ℓ} (key : ℕ → ℕ) where
  -- A use of `k`: its node goes to the front.
  unfoldable pub promote : ℕ → List (ReadNode D) → List (ReadNode D)
  promote k l = elim (lookup key k l) [ none ↦ l | some n ↦ n ∷ remove key k l ]

  -- A store of `n`: to the front, and only the first `cap` nodes stay.
  unfoldable pub store : ℕ → ReadNode D → List (ReadNode D) → List (ReadNode D)
  store cap n l = take cap (n ∷ remove key (key n.page_id) l)

  pub view-find_key :
      (k : ℕ) (l : List (Cell D))
      → lookup key k (view l) ≡ elim (find_key key k l) [ none ↦ none | some e ↦ some e.node ]
  unfolding lookup find_key
  view-find_key k [] = refl
  view-find_key k (e ∷ l) = ground (arith, view-find_key k l)

  pub view-erase_key :
      (k : ℕ) (l : List (Cell D)) → view (erase_key key k l) ≡ remove key k (view l)
  unfolding remove erase_key
  view-erase_key k [] = refl
  view-erase_key k (e ∷ l) = ground (arith, view-erase_key k l)

  pub remove_absent :
      (k : ℕ) (l : List (Cell D)) → find_key key k l ≡ none → remove key k (view l) ≡ view l
  unfolding remove find_key
  remove_absent k [] h = refl
  remove_absent k (e ∷ l) h = ground (arith, remove_absent k l)

module _ {ℓ} {D : Type ℓ} where
  pub length-view : (l : List (Cell D)) → length (view l) ≡ length l
  length-view [] = refl
  length-view (e ∷ l) = ap suc (length-view l)

  pub take-view : (n : ℕ) (l : List (Cell D)) → length l ≤ n → take n (view l) ≡ view l
  take-view zero [] h = refl
  take-view zero (e ∷ l) h = absurd (omega arith)
  take-view (suc n) [] h = refl
  take-view (suc n) (e ∷ l) h = ap (◌∷◌ e.node) (take-view n l (omega arith))

  pub take-pop_back :
      (n : ℕ) (l : List (Cell D)) → length l ≡ suc n → take n (view l) ≡ view (pop_back l)
  unfolding pop_back
  take-pop_back n [] h = absurd (omega arith)
  take-pop_back zero (e ∷ []) h = refl
  take-pop_back (suc n) (e ∷ []) h = absurd (omega arith)
  take-pop_back zero (e ∷ d ∷ l) h = absurd (omega arith)
  take-pop_back (suc n) (e ∷ d ∷ l) h = ap (◌∷◌ e.node) (take-pop_back n (d ∷ l) (omega arith))

module _ {ℓ} {D : Type ℓ} (key : ℕ → ℕ) where
  pub store-fits :
      (cap : ℕ) (n : ReadNode D) (l : List (Cell D))
      → length l < cap
      → find_key key (key n.page_id) l ≡ none
      → store key cap n (view l) ≡ n ∷ view l
  unfolding store
  store-fits zero n l h miss = absurd (omega arith)
  store-fits (suc m) n l h miss =
      rw (remove_absent key (key n.page_id) l miss, take-view m l (omega arith))

  pub store-full :
      (cap : ℕ) (n : ReadNode D) (l : List (Cell D))
      → 0 < cap
      → length l ≡ cap
      → find_key key (key n.page_id) l ≡ none
      → store key cap n (view l) ≡ n ∷ view (pop_back l)
  unfolding store
  store-full zero n l p h miss = absurd (omega arith)
  store-full (suc m) n l p h miss =
      rw (remove_absent key (key n.page_id) l miss, take-pop_back m l h)

  pub store-cached :
      (cap : ℕ) (n : ReadNode D) (l : List (Cell D)) (e : Cell D)
      → length l ≤ cap
      → find_key key (key n.page_id) l ≡ some e
      → store key cap n (view l) ≡ n ∷ view (erase_key key (key n.page_id) l)
  unfolding store
  store-cached zero n l e h hit =
      absurd (omega (arith, length-erase_key key (key n.page_id) l e hit))
  store-cached (suc m) n l e h hit = rw (← view-erase_key key (key n.page_id) l) (
      rw (
        take-view m (erase_key key (key n.page_id) l)
          (omega (arith, length-erase_key key (key n.page_id) l e hit))))

  -- What was stored last is found, under every page number with its key.
  pub lookup-store :
      (cap k : ℕ) (n : ReadNode D) (l : List (ReadNode D))
      → 0 < cap
      → key n.page_id ≡ k
      → lookup key k (store key cap n l) ≡ some n
  unfolding store lookup
  lookup-store zero k n l p h = absurd (omega arith)
  lookup-store (suc m) k n l p h = ground arith
