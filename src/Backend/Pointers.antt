-- ===== src/Backend/Pointers.antt =====
-- src/Backend/IODisk/WriteDisk.cpp `PointerRenew`: the ring of free sectors.
use rexio.Base.{
  ℕ, zero, suc, ◌+◌, ◌/◌, ◌%◌, ◌≡◌, refl, ap, ◌∙◌, ltb, leb, ◌==◌, if◌then◌else◌, Bool, true, ◌&&◌,
  Bool-cases, inl, inr, arith,
}
use rexio.Outcome.{ok}
use rexio.Backend.Nvm.{Nvm}
use rexio.Backend.State.{Ssd, ◌>>=◌, ◌>>◌, write_at}
use rexio.Backend.Eraser.{erase_chunks, wrap_pointer, pointer_renew}
use rexio.Backend.Erases.{erasechunk-Returns}

module _ (nvm : Nvm) where
  -- The loop that erases `n` chunks from `i` on.
  abbrev pub cleared : ℕ → ℕ → (ℕ → ℕ) → ℕ → ℕ
  cleared i n usage c = if leb i c && ltb c (i + n) then 0 else usage c

  cleared-suc :
      (i n c : ℕ) (u v : ℕ → ℕ)
      → u c ≡ v c
      → cleared (i + 1) n (write_at u i 0) c ≡ cleared i (suc n) v c
  unfolding write_at
  cleared-suc i n c u v same = ground arith

  erase_chunks_lem :
      (i n : ℕ) (s : Ssd nvm)
      → (s' : Ssd nvm) × (erase_chunks nvm i n s ≡ ok (tt, s'))
        × ((c : ℕ) → s'.chunkusage c ≡ cleared i n s.chunkusage c)
        × (s'.sectorpointer ≡ s.sectorpointer)
        × (s'.gpt ≡ s.gpt)
        × (s'.data_page_pointer ≡ s.data_page_pointer)
  unfolding erase_chunks
  erase_chunks_lem i zero s = (s, refl, λ c. ground arith, refl, refl, refl)
  erase_chunks_lem i (suc n) s =
      let (_, s1, run, kept) = erasechunk-Returns nvm i s in
      let (s', run', usage, pointer, gpt, data_pointer) =
        erase_chunks_lem (i + 1) n (record s1 { chunkusage = write_at s1.chunkusage i 0 }) in
      (
        s',
        rw (◌>>=◌, ◌>>◌, run) run',
        λ c.
            usage c
            ∙ cleared-suc i n c s1.chunkusage s.chunkusage
                (ap (λ (u : ℕ → ℕ). u c) kept.chunkusage_kept),
        pointer ∙ kept.sectorpointer_kept,
        gpt ∙ kept.gpt_kept,
        data_pointer ∙ kept.data_page_pointer_kept,
      )

  write_at-add :
      (u : ℕ → ℕ) (p n c : ℕ) → write_at u p (u p + n) c ≡ u c + (if p == c then n else 0)
  unfolding write_at
  write_at-add u p n c = ground arith

  write_at_self : (g : ℕ → ℕ → Bool) (p q : ℕ) → write_at g p (write_at (g p) q true) p q ≡ true
  unfolding write_at
  write_at_self g p q = ground arith

  cleared-wraps :
      (over : Bool) (u : ℕ → ℕ) (c x : ℕ)
      → over ≡ true
      → u c ≡ x
      → cleared 0 150 u c ≡ (if over && ltb c 150 then 0 else x)
  cleared-wraps over u c x h e = ground arith

  -- The backend as the first lines of `PointerRenew` leave it.
  abbrev pub moved : ℕ → Ssd nvm → Ssd nvm
  moved sectors s =
      let chunk = s.sectorpointer / 4096 in
      record s {
        chunkusage = write_at s.chunkusage chunk (s.chunkusage chunk + sectors);
        gpt = write_at s.gpt chunk (write_at (s.gpt chunk) ((s.sectorpointer % 4096) / 4) true);
        sectorpointer = s.sectorpointer + sectors;
      }

  -- Whether the pointer runs over the end of the ring.
  abbrev pub wraps : ℕ → Ssd nvm → Bool
  wraps sectors s = leb 923648 (s.sectorpointer + sectors)

  -- `PointerRenew` always returns, whatever the device answers to the erases. The pointer moves on
  -- by the sectors, or to 0 at the end of the ring; the chunk that it stood in counts the sectors;
  -- at the end of the ring the first 150 chunks are counted as empty. The page is marked as used, and
  -- the pointer of data pages stays.
  pub pointer_renew_lem :
      (sectors : ℕ) (s : Ssd nvm)
      → (s' : Ssd nvm) × (pointer_renew nvm sectors s ≡ ok (tt, s'))
        × (s'.sectorpointer ≡ (if wraps sectors s then 0 else s.sectorpointer + sectors))
        × ((c : ℕ)
            → s'.chunkusage c ≡ (
                if wraps sectors s && ltb c 150
                then 0
                else (s.chunkusage c + (if s.sectorpointer / 4096 == c then sectors else 0))))
        × (s'.gpt (s.sectorpointer / 4096) ((s.sectorpointer % 4096) / 4) ≡ true)
        × (s'.data_page_pointer ≡ s.data_page_pointer)
  unfolding pointer_renew
  pointer_renew_lem sectors s = elim (Bool-cases (wraps sectors s)) [
    | inr inside ↦ (
      moved sectors s,
      rw (wrap_pointer, inside),
      ground arith,
      λ c. rw inside (write_at-add s.chunkusage (s.sectorpointer / 4096) sectors c),
      write_at_self s.gpt (s.sectorpointer / 4096) ((s.sectorpointer % 4096) / 4),
      refl,
    )
    | inl over ↦
        let (s', run, usage, pointer, gpt, data_pointer) =
          erase_chunks_lem 0 150 (record (moved sectors s) { sectorpointer = 0 }) in
        (
          s',
          rw (wrap_pointer, over) run,
          rw over pointer,
          λ c.
              usage c
              ∙ cleared-wraps (wraps sectors s) (moved sectors s).chunkusage c _ over
                  (write_at-add s.chunkusage (s.sectorpointer / 4096) sectors c),
          rw gpt (write_at_self s.gpt (s.sectorpointer / 4096) ((s.sectorpointer % 4096) / 4)),
          data_pointer,
        )
  ]
