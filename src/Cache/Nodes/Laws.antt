-- ===== src/Cache/Nodes/Laws.antt =====
-- Facts on the list of nodes, filed under the keys that `key` gives to page numbers.
use rexio.Base.{
  ℕ, ◌+◌, ◌≤◌, ◌<◌, ◌≡◌, refl, ◌==◌, if◌then◌else◌, Option, none, some, List, [], ◌∷◌, length,
  arith,
}
use rexio.Cache.Nodes.{Cell, find_addr, erase_addr, back, pop_back}

-- The address that a found node has.
abbrev pub at {ℓ} : {D : Type ℓ} → Option (Cell D) → Option ℕ
at none = none
at (some e) = some e.addr

-- The addresses fall from the front to the back, below `n`.
abbrev pub Falls {ℓ} : {D : Type ℓ} → ℕ → List (Cell D) → Type 0
Falls n [] = Unit
Falls n (e ∷ l) = (e.addr < n) × Falls e.addr l

module _ {ℓ} {D : Type ℓ} (key : ℕ → ℕ) where
  unfoldable pub find_key : ℕ → List (Cell D) → Option (Cell D)
  find_key k [] = none
  find_key k (e ∷ l) = if key e.node.page_id == k then some e else find_key k l

  unfoldable pub erase_key : ℕ → List (Cell D) → List (Cell D)
  erase_key k [] = []
  erase_key k (e ∷ l) = if key e.node.page_id == k then l else e ∷ erase_key k l

  -- No key occurs twice.
  abbrev pub Distinct : List (Cell D) → Type ℓ
  Distinct [] = Unit
  Distinct (e ∷ l) = (find_key (key e.node.page_id) l ≡ none) × Distinct l

module _ {ℓ} {D : Type ℓ} (key : ℕ → ℕ) where
  pub Falls-weaken : (m n : ℕ) (l : List (Cell D)) → m ≤ n → Falls m l → Falls n l
  Falls-weaken m n [] h f = tt
  Falls-weaken m n (e ∷ l) h f = (omega arith, f.1)

  pub find_key-lt :
      (k n : ℕ) (l : List (Cell D)) (e : Cell D)
      → Falls n l
      → find_key key k l ≡ some e
      → e.addr < n
  unfolding find_key
  find_key-lt k n [] e f h = ground arith
  find_key-lt k n (d ∷ l) e f h = ground (arith, find_key-lt k d.addr l e f.1)

  -- Following the iterator finds the node of the key.
  pub find_addr-find_key :
      (k n : ℕ) (l : List (Cell D)) (e : Cell D)
      → Falls n l
      → find_key key k l ≡ some e
      → find_addr e.addr l ≡ some e
  unfolding find_key find_addr
  find_addr-find_key k n [] e f h = ground arith
  find_addr-find_key k n (d ∷ l) e f h =
      ground (arith, find_addr-find_key k d.addr l e f.1, find_key-lt k d.addr l e f.1)

  pub erase_addr-erase_key :
      (k n : ℕ) (l : List (Cell D)) (e : Cell D)
      → Falls n l
      → find_key key k l ≡ some e
      → erase_addr e.addr l ≡ erase_key key k l
  unfolding find_key erase_addr erase_key
  erase_addr-erase_key k n [] e f h = ground arith
  erase_addr-erase_key k n (d ∷ l) e f h =
      ground (arith, erase_addr-erase_key k d.addr l e f.1, find_key-lt k d.addr l e f.1)

  pub find_key-erase_key :
      (k q : ℕ) (l : List (Cell D))
      → Distinct key l
      → find_key key q (erase_key key k l) ≡ (if q == k then none else find_key key q l)
  unfolding find_key erase_key
  find_key-erase_key k q [] h = ground arith
  find_key-erase_key k q (e ∷ l) h = ground (arith, find_key-erase_key k q l h.1)

  pub length-erase_key :
      (k : ℕ) (l : List (Cell D)) (e : Cell D)
      → find_key key k l ≡ some e
      → length (erase_key key k l) + 1 ≡ length l
  unfolding find_key erase_key
  length-erase_key k [] e h = ground arith
  length-erase_key k (d ∷ l) e h = ground (arith, length-erase_key k l e)

  pub Falls-erase_key : (k n : ℕ) (l : List (Cell D)) → Falls n l → Falls n (erase_key key k l)
  unfolding erase_key
  Falls-erase_key k n [] f = tt
  Falls-erase_key k n (e ∷ l) f =
      ground (arith, Falls-erase_key k e.addr l f.1, Falls-weaken e.addr n l (omega arith) f.1)

  pub Distinct-erase_key :
      (k : ℕ) (l : List (Cell D)) → Distinct key l → Distinct key (erase_key key k l)
  unfolding erase_key
  Distinct-erase_key k [] h = tt
  Distinct-erase_key k (e ∷ l) h =
      ground (arith, Distinct-erase_key k l h.1, find_key-erase_key k (key e.node.page_id) l h.1)

  -- A list that is not empty has a last node, and `pop_back` hides its key alone.
  pub record Ends (l : List (Cell D)) (e : Cell D) : Type ℓ where
    pub last : back l ≡ some e
    pub shorter : length (pop_back l) + 1 ≡ length l
    pub rest :
        (q : ℕ)
        → find_key key q (pop_back l) ≡ (if key e.node.page_id == q then none else find_key key q l)
    pub found : find_key key (key e.node.page_id) l ≡ some e

  pub back-Ends :
      (d : Cell D) (l : List (Cell D)) → Distinct key (d ∷ l) → (e : Cell D) × Ends (d ∷ l) e
  unfolding back pop_back find_key
  back-Ends d [] h =
      (d, record { last = refl; shorter = refl; rest = λ q. ground arith; found = ground arith })
  back-Ends d (c ∷ l) h =
      let (e, b) = back-Ends c l h.1 in
      (
        e,
        record {
          last = b.last;
          shorter = omega (arith, b.shorter);
          rest = λ q. ground (arith, b.rest q, b.found);
          found = ground (arith, b.found);
        },
      )

  pub nonempty-Ends : (l : List (Cell D)) → Distinct key l → 0 < length l → (e : Cell D) × Ends l e
  nonempty-Ends [] h p = absurd (omega arith)
  nonempty-Ends (d ∷ l) h p = back-Ends d l h

  pub Falls-pop_back : (n : ℕ) (l : List (Cell D)) → Falls n l → Falls n (pop_back l)
  unfolding pop_back
  Falls-pop_back n [] f = tt
  Falls-pop_back n (e ∷ []) f = tt
  Falls-pop_back n (e ∷ d ∷ l) f = (f.0, Falls-pop_back e.addr (d ∷ l) f.1)

  pub Distinct-pop_back : (l : List (Cell D)) → Distinct key l → Distinct key (pop_back l)
  unfolding pop_back
  Distinct-pop_back [] h = tt
  Distinct-pop_back (e ∷ []) h = tt
  Distinct-pop_back (e ∷ d ∷ l) h =
      let (z, b) = back-Ends d l h.1 in
      (ground (arith, b.rest (key e.node.page_id)), Distinct-pop_back (d ∷ l) h.1)

  pub find_key-key :
      (k : ℕ) (l : List (Cell D)) (e : Cell D) → find_key key k l ≡ some e → key e.node.page_id ≡ k
  unfolding find_key
  find_key-key k [] e h = ground arith
  find_key-key k (d ∷ l) e h = ground (arith, find_key-key k l e)
