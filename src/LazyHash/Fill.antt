-- ===== src/LazyHash/Fill.antt =====
-- src/MultiHash/LazySplitHash/LSHash.cpp: what an insertion does to the number of entries, and how
-- the one ends that makes the table full.
use rexio.Base.{
  ℕ, zero, suc, ◌+◌, ◌-◌, ◌*◌, ◌/◌, ◌≤◌, ◌<◌, ◌≡◌, ◌⊎◌, inl, inr, ltb, ◌==◌, refl, ◌∙◌, Bool-cases,
  lt→ltb, ==_ne, true, false, List, [], ◌∷◌, ◌++◌, length, length-append, length-set, get_elem?_in,
  set, arith,
}
use rexio.Outcome.{Outcome, ok, fail, exit, ◌>>=◌}
use rexio.LazyHash.{
  LsEntry, LsHash, Inserts, new_ls_bucket, ls_all_clear, stored, get_bits, bit_hash, if_compute,
  reinsert, ls_split, expand, insert_on, ls_insert,
}
use rexio.LazyHash.Place.{top_dropped-lt}
use rexio.LazyHash.Entries.{
  IsUsable, Grown, stored-set, stored-append, change_bucket_lem, put_entry-Grown,
}

-- An insertion ends with `exit(105)`, or with one more entry.
abbrev pub Ends : LsHash → Outcome LsHash → Type 0
Ends t m =
    (m ≡ fail (exit 105))
    ⊎ ((t' : LsHash) × (m ≡ ok t')
        × (stored t'.bucket_list ≡ suc (stored t.bucket_list))
        × (length t'.bucket_list ≡ length t.bucket_list)
        × IsUsable t')

-- Reinsertions end with `exit(105)`, or leave the buckets there.
reinsert-Ends :
    (ins : Inserts) (bound : ℕ)
    → ((k v : ℕ) (t : LsHash) → IsUsable t → stored t.bucket_list < bound → Ends t (ins k v t))
    → (es : List LsEntry) (t : LsHash) → IsUsable t
    → stored t.bucket_list + length es ≤ bound
    → (reinsert ins es t ≡ fail (exit 105))
      ⊎ ((t' : LsHash) × (reinsert ins es t ≡ ok t')
          × (length t'.bucket_list ≡ length t.bucket_list))
unfolding reinsert
reinsert-Ends ins bound each [] t usable fits = inr (t, refl, refl)
reinsert-Ends ins bound each (e ∷ es) t usable fits =
    elim (each e.key1 e.val t usable (omega (arith, fits))) [
      | inl stops ↦ inl (rw stops)
      | inr (t₁, runs, grown, same, usable₁) ↦
          elim (reinsert-Ends ins bound each es t₁ usable₁ (omega (arith, grown, fits))) [
            | inl stops ↦ inl (rw runs stops)
            | inr (t', rest, same') ↦ inr (t', rw runs rest, same' ∙ same)
          ]
    ]

module _ (ins : Inserts) (bound : ℕ)
    (each : (k v : ℕ) (t : LsHash)
      → IsUsable t
      → stored t.bucket_list < bound
      → Ends t (ins k v t)) where
  -- A split clears the bucket, and the assertion at its end never holds.
  ls_split-stops :
      (num : ℕ) (t : LsHash)
      → IsUsable t
      → num < length t.bucket_list
      → stored t.bucket_list ≤ bound
      → ls_split ins num t ≡ fail (exit 105)
  unfolding ls_split ls_all_clear
  ls_split-stops num t usable inside fits =
      let (b, here) = get_elem?_in t.bucket_list num inside in
      let b' = ls_all_clear b in
      let t₁ = record t { bucket_list = set t.bucket_list num b' } in
      let width : length t₁.bucket_list ≡ length t.bucket_list = length-set t.bucket_list num b' in
      let usable₁ : IsUsable t₁ = record {
        buckets = omega (arith, width, usable.buckets);
        room = usable.room;
        threshold = usable.threshold;
      } in
      let fits₁ : stored t₁.bucket_list + length b.bucket_entries ≤ bound =
        omega (arith, stored-set t.bucket_list num b b' here, fits) in
      elim (reinsert-Ends ins bound each b.bucket_entries t₁ usable₁ fits₁) [
        | inl stops ↦ rw (here, stops)
        | inr (t₂, runs, same) ↦
            let inside₂ : num < length t₂.bucket_list = omega (arith, same, width, inside) in
            let (c, there) = get_elem?_in t₂.bucket_list num inside₂ in
            let some_left : (length (set t₂.bucket_list num (ls_all_clear c)) == 0) ≡ false =
              ==_ne (length (set t₂.bucket_list num (ls_all_clear c))) 0
                (λ e. omega (arith, e, length-set t₂.bucket_list num (ls_all_clear c), inside₂)) in
            rw (here, runs, ◌>>=◌, change_bucket_lem num ls_all_clear t₂ c there, some_left)
      ]

  expand-stops :
      (t : LsHash) → IsUsable t → stored t.bucket_list ≤ bound → expand ins t ≡ fail (exit 105)
  unfolding expand
  expand-stops t usable fits =
      let bs = t.bucket_list ++ new_ls_bucket t.bmaxsize ∷ [] in
      let wider = length-append t.bucket_list (new_ls_bucket t.bmaxsize ∷ []) in
      ls_split-stops (bit_hash (length t.bucket_list) (get_bits (length t.bucket_list) - 1))
        (record t { bucket_list = bs })
        (record {
          buckets = omega (arith, wider);
          room = usable.room;
          threshold = usable.threshold;
        })
        (omega (arith, wider, top_dropped-lt (length t.bucket_list) usable.buckets))
        (omega (arith, stored-append t.bucket_list t.bmaxsize, fits))

-- The quotient that decides on a split, of one more entry.
abbrev pub load : LsHash → ℕ
load t = (t.allsize + 1) / (length t.bucket_list * t.bmaxsize)

if_compute_lem :
    (t : LsHash) → IsUsable t → if_compute (record t { allsize = t.allsize + 1 }) ≡ ok (load t)
unfolding if_compute
if_compute_lem t usable =
    let positive : (length t.bucket_list * t.bmaxsize == 0) ≡ false =
      ==_ne (length t.bucket_list * t.bmaxsize) 0
        (λ e. grind (arith, usable.buckets, usable.room, e)) in
    rw positive

insert_on-below :
    (fuel key value : ℕ) (t : LsHash)
    → IsUsable t
    → ltb 9 (10 * load t) ≡ false
    → (t' : LsHash) × (insert_on (suc fuel) key value t ≡ ok t')
      × Grown (record t { allsize = t.allsize + 1 }) t'
unfolding insert_on
insert_on-below fuel key value t usable below =
    let t₁ = record t { allsize = t.allsize + 1 } in
    let (t', runs, grown) = put_entry-Grown key value t₁ usable.buckets in
    let below' : ltb t.if_threshold (10 * load t) ≡ false = rw usable.threshold below in
    (t', rw (if_compute_lem t usable, ◌>>=◌, below') runs, grown)

Grown-IsUsable : (t t' : LsHash) → IsUsable t → Grown t t' → IsUsable t'
Grown-IsUsable t t' usable grown = record {
  buckets = omega (arith, usable.buckets, grown.as_many);
  room = omega (arith, usable.room, grown.as_large);
  threshold = grown.same_threshold ∙ usable.threshold;
}

IsUsable-counted : (t : LsHash) → IsUsable t → IsUsable (record t { allsize = t.allsize + 1 })
IsUsable-counted t usable = record {
  buckets = usable.buckets;
  room = usable.room;
  threshold = usable.threshold;
}

insert_on-above :
    (fuel key value : ℕ) (t : LsHash)
    → ((k v : ℕ) (t : LsHash)
        → IsUsable t
        → stored t.bucket_list < fuel
        → Ends t (insert_on fuel k v t))
    → IsUsable t
    → stored t.bucket_list ≤ fuel
    → ltb 9 (10 * load t) ≡ true
    → insert_on (suc fuel) key value t ≡ fail (exit 105)
unfolding insert_on
insert_on-above fuel key value t each usable enough above =
    let t₁ = record t { allsize = t.allsize + 1 } in
    let stops : expand (insert_on fuel) t₁ ≡ fail (exit 105) =
      expand-stops (insert_on fuel) fuel each t₁ (IsUsable-counted t usable) enough in
    rw (insert_on, if_compute_lem t usable, usable.threshold, ◌>>=◌, above, stops)

insert_on-Ends :
    (fuel key value : ℕ) (t : LsHash)
    → IsUsable t
    → stored t.bucket_list < fuel
    → Ends t (insert_on fuel key value t)
unfolding insert_on
insert_on-Ends zero key value t usable enough = absurd (omega arith)
insert_on-Ends (suc fuel) key value t usable enough =
    let t₁ = record t { allsize = t.allsize + 1 } in
    elim (Bool-cases (ltb 9 (10 * load t))) [
      | inl above ↦ inl (
          insert_on-above fuel key value t (insert_on-Ends fuel) usable (omega (arith, enough))
            above)
      | inr below ↦
          let (t', runs, grown) = insert_on-below fuel key value t usable below in
          inr (
            t',
            runs,
            grown.one_more,
            grown.as_many,
            Grown-IsUsable t₁ t' (IsUsable-counted t usable) grown,
          )
    ]

module _ (key value : ℕ) (t : LsHash) (usable : IsUsable t) where
  -- In a table that has buckets with room, and the threshold of 0.9, an insertion always ends. If the
  -- count with the new entry is below the room of all buckets, the entry is stored and counted, in
  -- as many buckets. Else the insertion starts a split, whose last assertion ends the program with
  -- `exit(105)`, however the entries are distributed and the splits nested.
  pub ls_insert_lem :
      (t.allsize + 1 < length t.bucket_list * t.bmaxsize
        → (t' : LsHash) × (ls_insert key value t ≡ ok t')
          × IsUsable t'
          × (t'.allsize ≡ t.allsize + 1)
          × (stored t'.bucket_list ≡ suc (stored t.bucket_list))
          × (length t'.bucket_list ≡ length t.bucket_list)
          × (t'.bmaxsize ≡ t.bmaxsize))
      × (length t.bucket_list * t.bmaxsize ≤ t.allsize + 1
          → ls_insert key value t ≡ fail (exit 105))
  unfolding ls_insert
  ls_insert_lem = (
    λ less.
        let small : load t ≡ 0 = grind (arith, less) in
        let (t', runs, grown) =
          insert_on-below (stored t.bucket_list) key value t usable (rw small refl) in
        (
          t',
          runs,
          Grown-IsUsable (record t { allsize = t.allsize + 1 }) t' (IsUsable-counted t usable)
              grown,
          grown.same_count,
          grown.one_more,
          grown.as_many,
          grown.as_large,
        ),
    λ full.
        let large : 0 < load t = grind (arith, full, usable.buckets, usable.room) in
        insert_on-above (stored t.bucket_list) key value t (insert_on-Ends (stored t.bucket_list))
          usable (omega arith) (lt→ltb 9 (10 * load t) (omega (arith, large))),
  )
