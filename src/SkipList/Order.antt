-- ===== src/SkipList/Order.antt =====
-- src/Ti-OCSSD/MemoryTier/MemTier.cpp: what the forward pointers of a skip list stand for, the list of
-- its nodes in the order of their keys.
use rexio.Base.{
  ℕ, ◌≤◌, ◌<◌, ◌≡◌, refl, ltb, ltb→lt, if◌then◌else◌, Bool-cases, inl, inr, Option, none, some,
  List, [], ◌∷◌, length, arith,
}
use rexio.SkipList.{TncSkiplist}

abbrev pub All : (ℕ → Type 0) → List ℕ → Type 0
All P [] = Unit
All P (a ∷ l) = P a × All P l

pub All-map : (P Q : ℕ → Type 0) (l : List ℕ) → ((a : ℕ) → P a → Q a) → All P l → All Q l
All-map P Q [] f all = tt
All-map P Q (a ∷ l) f all = (f a all.0, All-map P Q l f all.1)

module _ (sl : TncSkiplist) where
  abbrev pub key_of : ℕ → ℕ
  key_of a = (sl.nodes a).key

  abbrev pub levels : ℕ → ℕ
  levels a = (sl.nodes a).max_level

  -- The first node that level `i` passes.
  unfoldable pub first : ℕ → List ℕ → Option ℕ
  first i [] = none
  first i (a ∷ l) = if ltb i (sl.nodes a).max_level then some a else first i l

  -- What is left behind the keys below `k`.
  unfoldable pub drop_lt : ℕ → List ℕ → List ℕ
  drop_lt k [] = []
  drop_lt k (a ∷ l) = if ltb (sl.nodes a).key k then drop_lt k l else a ∷ l

  -- The last node, of `p` and the nodes of `l` with keys below `k`, that is on level `i`.
  unfoldable pub last_lt : ℕ → ℕ → ℕ → List ℕ → ℕ
  last_lt k i p [] = p
  last_lt k i p (a ∷ l) =
      if ltb (sl.nodes a).key k
      then last_lt k i (if ltb i (sl.nodes a).max_level then a else p) l
      else p

  abbrev pub Links : ℕ → List ℕ → Type 0
  Links p l = (i : ℕ) → i < (sl.nodes p).max_level → (sl.nodes p).forward i ≡ first i l

module _ (sl : TncSkiplist) where
  -- The pointers of `p` and of the nodes `l` behind it lead to the next node of each level.
  abbrev pub Chain : ℕ → List ℕ → Type 0
  Chain p [] = Links sl p []
  Chain p (a ∷ l) = Links sl p (a ∷ l) × Chain a l

  abbrev pub AllAbove : ℕ → List ℕ → Type 0
  AllAbove k = All (λ a. k ≤ (sl.nodes a).key)

  -- The keys rise, and every node is on level 0.
  abbrev pub Rises : List ℕ → Type 0
  Rises [] = Unit
  Rises (a ∷ l) = (0 < (sl.nodes a).max_level) × (AllAbove (sl.nodes a).key l × Rises l)

  pub Chain-Links : (p : ℕ) (l : List ℕ) → Chain p l → Links sl p l
  Chain-Links p [] c = c
  Chain-Links p (a ∷ l) c = c.0

  pub drop_lt-AllAbove : (k x : ℕ) (l : List ℕ) → k ≤ x → AllAbove x l → drop_lt sl k l ≡ l
  unfolding drop_lt
  drop_lt-AllAbove k x [] h above = refl
  drop_lt-AllAbove k x (a ∷ l) h above = ground (arith, above.0)

  -- A node that a walk has reached on level `i`, and the nodes behind it.
  pub record Reached (i : ℕ) (q : ℕ) (rest : List ℕ) : Type 0 where
    pub chain : Chain q rest
    pub rises : Rises rest
    pub tall : i < (sl.nodes q).max_level

  first-AllAbove :
      (i k a : ℕ) (l : List ℕ) → AllAbove k l → first sl i l ≡ some a → k ≤ (sl.nodes a).key
  unfolding first
  first-AllAbove i k a [] above h = ground arith
  first-AllAbove i k a (b ∷ l) above h = ground (arith, above.0, first-AllAbove i k a l above.1)

  -- From a node to the first one on its level.
  pub first_lem :
      (i p a : ℕ) (l : List ℕ)
      → Chain p l
      → Rises l
      → first sl i l ≡ some a
      → (post : List ℕ) × Reached i a post
        × (length post < length l)
        × ((k : ℕ) → (sl.nodes a).key < k → drop_lt sl k l ≡ drop_lt sl k post)
        × ((k j p' : ℕ)
            → (sl.nodes a).key < k
            → j ≤ i
            → last_lt sl k j p' l ≡ last_lt sl k j a post)
  unfolding first drop_lt last_lt
  first_lem i p a [] c r h = ground arith
  first_lem i p a (b ∷ l) c r h = elim (Bool-cases (ltb i (sl.nodes b).max_level)) [
    | inl here ↦
        let same : b ≡ a = ground arith in
        rw (← same) (
          l,
          record { chain = c.1; rises = r.1.1; tall = ltb→lt i _ here },
          omega arith,
          λ k below. ground arith,
          λ k j p' below low. ground arith,
        )
    | inr short ↦
        let later : first sl i l ≡ some a = ground arith in
        let (post, reached, shorter, dropped, lasts) = first_lem i b a l c.1 r.1.1 later in
        (
          post,
          reached,
          omega arith,
          λ k below.
              ground (arith, first-AllAbove i (sl.nodes b).key a l r.1.0 later, dropped k below),
          λ k j p' below low. ground (
            arith,
            first-AllAbove i (sl.nodes b).key a l r.1.0 later,
            lasts k j b below low,
            lasts k j p' below low,
          ),
        )
  ]
