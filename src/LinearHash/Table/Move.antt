-- ===== src/LinearHash/Table/Move.antt =====
-- src/MultiHash/LinearHash/LiHash.cpp `split`: the loop that moves the
-- entries of the old bucket, where no bucket is filled by them.
use rexio.Base.{
  ℕ, ◌+◌, ◌*◌, ◌%◌, ◌^◌, ◌≤◌, ◌<◌, ◌≡◌, ◌≢◌, ◌⊎◌, refl, sym, ap, ◌∙◌, leb, if◌then◌else◌, some,
  List, [], ◌∷◌, length, get_or, get_elem?, replicate, length-set, length-append, length-replicate,
  get_elem?-get_or, get_or-set_self, get_or-set_ne, get_or-append_replicate, Bool-cases, inl, inr,
  arith,
}
use mathlib.Core.Path.{subst}
use native.Mathlib.Decide.{ℕ_discrete}
use rexio.Outcome.{ok}
use rexio.Backend.Nvm.{Nvm}
use rexio.Backend.Entry.{Entry}
use rexio.Backend.State.{Ssd, ◌>>=◌, calculate_page_capacity}
use rexio.LinearHash.Bucket.{LBucket, new_bucket}
use rexio.LinearHash.Contents.{extended, bucket_insert_room}
use rexio.LinearHash.Table.{LinearHashTable, put_bucket, table_double, move_entry, move_entries}
use rexio.LinearHash.Table.Places.{modulo_pos}
use rexio.LinearHash.Table.Share.{
  share, taken, share_hit, share_miss, taken_nothing, taken-taken, share-cons, length-share_cons,
  share_nil,
}

module _ (nvm : Nvm) where
  -- A bucket of the table; one that is not there yet is as it will be made.
  abbrev pub content : LinearHashTable → ℕ → LBucket
  content t i = get_or t.bucket_table i (new_bucket (calculate_page_capacity nvm 16))

  -- `t'` is `t` with the entries `es` in the buckets where `h2` places them.
  pub record Shares (es : List Entry) (t t' : LinearHashTable) : Type 0 where
    pub h1_kept : t'.h1 ≡ t.h1
    pub h2_kept : t'.h2 ≡ t.h2
    pub flags_kept : t'.split_flag ≡ t.split_flag
    pub longer : length t.bucket_table ≤ length t'.bucket_table
    pub grown :
        (length t'.bucket_table ≡ length t.bucket_table)
        ⊎ (length t.bucket_table + t.h1 ≤ length t'.bucket_table)
    pub reached : (i : ℕ) → 0 < length (share t.h2 i es) → i < length t'.bucket_table
    pub contents : (i : ℕ) → content t' i ≡ taken (share t.h2 i es) (content t i)

  abbrev fitted : ℕ → LinearHashTable → LinearHashTable
  fitted n t = if leb (length t.bucket_table) n then table_double nvm t else t

  content-fitted : (n i : ℕ) (t : LinearHashTable) → content (fitted n t) i ≡ content t i
  unfolding table_double
  content-fitted n i t = elim (Bool-cases (leb (length t.bucket_table) n)) [
    | inl h ↦ rw h (get_or-append_replicate t.bucket_table t.h1 i _)
    | inr h ↦ rw h
  ]

  record Fits (n : ℕ) (t t' : LinearHashTable) : Type 0 where
    h1_same : t'.h1 ≡ t.h1
    h2_same : t'.h2 ≡ t.h2
    flags_same : t'.split_flag ≡ t.split_flag
    no_shorter : length t.bucket_table ≤ length t'.bucket_table
    doubled :
        (length t'.bucket_table ≡ length t.bucket_table)
        ⊎ (length t.bucket_table + t.h1 ≤ length t'.bucket_table)
    inside : n < t.h2 → n < length t'.bucket_table

  fitted-Fits :
      (n : ℕ) (t : LinearHashTable)
      → t.h2 ≡ 2 * t.h1
      → t.h1 ≤ length t.bucket_table
      → Fits n t (fitted n t)
  unfolding table_double
  fitted-Fits n t twice based =
      let long =
        length-append t.bucket_table
          (replicate t.h1 (new_bucket (calculate_page_capacity nvm 16))) in
      let more = length-replicate t.h1 (new_bucket (calculate_page_capacity nvm 16)) in
      elim (Bool-cases (leb (length t.bucket_table) n)) [
        | inl h ↦ rw h (record {
          h1_same = refl;
          h2_same = refl;
          flags_same = refl;
          no_shorter = omega (arith, long, more);
          doubled = inr (omega (arith, long, more));
          inside = λ low. omega (arith, long, more);
        })
        | inr h ↦ rw h (record {
          h1_same = refl;
          h2_same = refl;
          flags_same = refl;
          no_shorter = omega arith;
          doubled = inl refl;
          inside = λ low. ground arith;
        })
      ]

  module _ (e : Entry) (t : LinearHashTable) (pos : 0 < t.h1) (twice : t.h2 ≡ 2 * t.h1)
      (based : t.h1 ≤ length t.bucket_table) where
    abbrev target : ℕ
    target = e.key % t.h2

    abbrev moved : LinearHashTable
    moved = put_bucket target (extended nvm e.key e.val (content t target)) (fitted target t)

    target-inside : target < length (fitted target t).bucket_table
    target-inside = (fitted-Fits target t twice based).inside (omega (arith, pos, twice))

    target-bucket : get_elem? (fitted target t).bucket_table target ≡ some (content t target)
    target-bucket =
        get_elem?-get_or (fitted target t).bucket_table target _ target-inside
        ∙ ap some (content-fitted target target t)

    move_entry_room :
        (s : Ssd nvm)
        → (content t target).size + 1 < 2 ^ 64
        → (content t target).size + 1 ≢ calculate_page_capacity nvm 16
        → move_entry nvm e t s ≡ ok (moved, s)
    unfolding move_entry
    move_entry_room s word room = rw (
      move_entry,
      ◌>>=◌,
      modulo_pos e.key t.h2 s (omega (arith, pos, twice)),
      target-bucket,
      bucket_insert_room nvm e.key e.val (content t target) s word room,
    )

    moved-Fits : Fits target t moved
    unfolding put_bucket
    moved-Fits =
        let f = fitted-Fits target t twice based in
        let same =
          length-set (fitted target t).bucket_table target
            (extended nvm e.key e.val (content t target)) in
        record {
          h1_same = f.h1_same;
          h2_same = f.h2_same;
          flags_same = f.flags_same;
          no_shorter = omega (arith, same, f.no_shorter);
          doubled = ground (arith, same, f.doubled);
          inside = λ low. omega (arith, same, target-inside);
        }

    moved-content : (i : ℕ) → content moved i ≡ taken (share t.h2 i (e ∷ [])) (content t i)
    unfolding put_bucket share
    moved-content i = elim (ℕ_discrete target i) [
      | yes same ↦ rw (share_hit t.h2 i e [] same) (
          subst (λ j. content moved j ≡ taken (e ∷ []) (content t j)) same
            (get_or-set_self (fitted target t).bucket_table target _ _ target-inside))
      | no differs ↦ rw (share_miss t.h2 i e [] differs) (
          get_or-set_ne (fitted target t).bucket_table target i _ _ differs
          ∙ content-fitted target i t
          ∙ sym (taken_nothing (content t i)))
    ]

    moved-share : (i : ℕ) (es : List Entry) → share moved.h2 i es ≡ share t.h2 i es
    moved-share i es = ap (λ m. share m i es) moved-Fits.h2_same

    -- The entries that are still to come fit if all did.
    moved-room :
        (i : ℕ) (es : List Entry)
        → (content moved i).size + length (share moved.h2 i es)
          ≡ (content t i).size + length (share t.h2 i (e ∷ es))
    moved-room i es = omega (
      arith,
      ap (λ b. b.size) (moved-content i),
      ap length (moved-share i es),
      length-share_cons t.h2 i e es,
    )

    target-room :
        (es : List Entry)
        → (content t target).size + 1
          ≤ (content t target).size + length (share t.h2 target (e ∷ es))
    target-room es = omega (arith, ap length (share_hit t.h2 target e es refl))

    moved-Shares :
        (es : List Entry) (t' : LinearHashTable) → Shares es moved t' → Shares (e ∷ es) t t'
    moved-Shares es t' k = record {
      h1_kept = k.h1_kept ∙ moved-Fits.h1_same;
      h2_kept = k.h2_kept ∙ moved-Fits.h2_same;
      flags_kept = k.flags_kept ∙ moved-Fits.flags_same;
      longer = omega (arith, k.longer, moved-Fits.no_shorter);
      grown =
          ground (
            arith, k.grown, k.longer, moved-Fits.doubled, moved-Fits.h1_same, moved-Fits.no_shorter,
          );
      reached = λ i h. elim (ℕ_discrete target i) [
        | yes same ↦ omega (arith, same, k.longer, moved-Fits.inside (omega (arith, pos, twice)))
        | no differs ↦ k.reached i (
            omega
              (arith, h, ap length (moved-share i es), ap length (share_miss t.h2 i e es differs)))
      ];
      contents = λ i.
          k.contents i
          ∙ ap (λ l. taken l (content moved i)) (moved-share i es)
          ∙ ap (taken (share t.h2 i es)) (moved-content i)
          ∙ taken-taken (share t.h2 i (e ∷ [])) (share t.h2 i es) (content t i)
          ∙ ap (λ l. taken l (content t i)) (sym (share-cons t.h2 i e es));
    }

  module _ (word : calculate_page_capacity nvm 16 < 2 ^ 64) where
    pub move_entries-Shares :
        (es : List Entry) (t : LinearHashTable) (s : Ssd nvm)
        → 0 < t.h1
        → t.h2 ≡ 2 * t.h1
        → t.h1 ≤ length t.bucket_table
        → ((i : ℕ)
            → 0 < length (share t.h2 i es)
            → (content t i).size + length (share t.h2 i es) < calculate_page_capacity nvm 16)
        → (t' : LinearHashTable) × (move_entries nvm es t s ≡ ok (t', s)) × Shares es t t'
    unfolding move_entries
    move_entries-Shares [] t s pos twice based room = (
      t,
      refl,
      record {
        h1_kept = refl;
        h2_kept = refl;
        flags_kept = refl;
        longer = omega arith;
        grown = inl refl;
        reached = λ i h. absurd (omega (arith, h, ap length (share_nil t.h2 i)));
        contents = λ i.
            sym (taken_nothing (content t i))
            ∙ ap (λ l. taken l (content t i)) (sym (share_nil t.h2 i));
      },
    )
    move_entries-Shares (e ∷ es) t s pos twice based room =
        let t₁ = moved e t pos twice based in
        let f = moved-Fits e t pos twice based in
        let here = target-room e t pos twice based es in
        let there =
          room (e.key % t.h2)
            (omega (arith, ap length (share_hit t.h2 (e.key % t.h2) e es refl))) in
        let (t', run, k) =
          move_entries-Shares es t₁ s (omega (arith, f.h1_same))
            (omega (arith, twice, f.h1_same, f.h2_same)) (omega (arith, f.h1_same, f.no_shorter))
            (λ i h.
              let more = length-share_cons t.h2 i e es in
              let same = ap length (moved-share e t pos twice based i es) in
              omega (
                arith,
                moved-room e t pos twice based i es,
                room i (omega (arith, h, more, same)),
              )) in
        let enters =
          move_entry_room e t pos twice based s (omega (arith, here, there))
            (λ q. omega (arith, q, here, there)) in
        (t', rw (move_entries, ◌>>=◌, enters) run, moved-Shares e t pos twice based es t' k)
