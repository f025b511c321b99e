-- ===== src/Backend/Erases.antt =====
-- src/Backend/IODisk/WriteDisk.cpp: compensation and erases always return, and touch the device and the
-- counters alone.
use rexio.Base.{
  ℕ, ◌+◌, ◌*◌, ◌≡◌, refl, ◌∙◌, ltb, if◌then◌else◌, Bool, true, false, List, [], ◌∷◌, drop,
}
use rexio.Outcome.{ok}
use rexio.Backend.Nvm.{Nvm}
use rexio.Backend.State.{Ssd, Counters, addrs_from, return, Io, ◌>>=◌, >>=-ok}
use rexio.Backend.Eraser.{
  write_sectors, compensate, compenstae_fun, erase_at, erasechunk_at, erasechunk,
}

-- The device and the counters apart, nothing changed.
pub record Kept {nvm : Nvm} (s s' : Ssd nvm) : Type 0 where
  pub write_buf_kept : s'.write_buf ≡ s.write_buf
  pub chunkusage_kept : s'.chunkusage ≡ s.chunkusage
  pub gpt_kept : s'.gpt ≡ s.gpt
  pub sectorpointer_kept : s'.sectorpointer ≡ s.sectorpointer
  pub data_page_pointer_kept : s'.data_page_pointer ≡ s.data_page_pointer

-- A call that always returns, and keeps what is not the device's.
abbrev pub Returns {ℓ} : {nvm : Nvm} {A : Type ℓ} → Io nvm A → Ssd nvm → Type ℓ
Returns {nvm = nvm} {A = A} m s = (a : A) × (s' : Ssd nvm) × (m s ≡ ok (a, s')) × Kept s s'

Kept-refl : {nvm : Nvm} (s : Ssd nvm) → Kept s s
Kept-refl s = record {
  write_buf_kept = refl;
  chunkusage_kept = refl;
  gpt_kept = refl;
  sectorpointer_kept = refl;
  data_page_pointer_kept = refl;
}

Kept-trans : {nvm : Nvm} {a b c : Ssd nvm} → Kept a b → Kept b c → Kept a c
Kept-trans h k = record {
  write_buf_kept = k.write_buf_kept ∙ h.write_buf_kept;
  chunkusage_kept = k.chunkusage_kept ∙ h.chunkusage_kept;
  gpt_kept = k.gpt_kept ∙ h.gpt_kept;
  sectorpointer_kept = k.sectorpointer_kept ∙ h.sectorpointer_kept;
  data_page_pointer_kept = k.data_page_pointer_kept ∙ h.data_page_pointer_kept;
}

module _ (nvm : Nvm) where
  if-Returns {ℓ} :
      {A : Type ℓ} (b : Bool) (m k : Io nvm A) (s : Ssd nvm)
      → Returns m s
      → Returns k s
      → Returns (if b then m else k) s
  if-Returns true m k s h h' = h
  if-Returns false m k s h h' = h'

  -- A call that only asks the device.
  asks : (s : Ssd nvm) (d : nvm.Dev) → Kept s (record s { dev = d })
  asks s d = record {
    write_buf_kept = refl;
    chunkusage_kept = refl;
    gpt_kept = refl;
    sectorpointer_kept = refl;
    data_page_pointer_kept = refl;
  }

  counted : (s : Ssd nvm) (c : Counters) → Kept s (record s { counters = c })
  counted s c = record {
    write_buf_kept = refl;
    chunkusage_kept = refl;
    gpt_kept = refl;
    sectorpointer_kept = refl;
    data_page_pointer_kept = refl;
  }

  write_sectors-Returns :
      (lba sectr : ℕ) (bytes : List ℕ) (s : Ssd nvm) → Returns (write_sectors nvm lba sectr bytes) s
  unfolding write_sectors
  write_sectors-Returns lba sectr bytes s = (_, _, refl, asks s _)

  erase_at-Returns : (lba : ℕ) (s : Ssd nvm) → Returns (erase_at nvm lba) s
  unfolding erase_at
  erase_at-Returns lba s = (_, _, refl, asks s _)

  compensate-Returns :
      (lba : ℕ) (sectrs : List ℕ) (s : Ssd nvm) → Returns (compensate nvm lba sectrs) s
  unfolding compensate
  compensate-Returns lba [] s = (true, s, refl, Kept-refl s)
  compensate-Returns lba (sectr ∷ sectrs) s =
      let d =
        nvm.cmd_write s.dev (addrs_from nvm (nvm.dev2gen lba) sectr nvm.ws_min)
          (drop (sectr * nvm.nbytes) s.write_buf) in
      let after = record s { dev = d.0 } in
      let (x, s', run, kept) =
        if-Returns d.1 (compensate nvm lba sectrs) (return false) after
          (compensate-Returns lba sectrs after) (false, after, refl, Kept-refl after) in
      (x, s', run, Kept-trans (asks s d.0) kept)

  compenstae_fun-Returns : (chunkno : ℕ) (s : Ssd nvm) → Returns (compenstae_fun nvm chunkno) s
  unfolding compenstae_fun
  compenstae_fun-Returns chunkno s = compensate-Returns _ _ s

  Returns->>= :
      (m : Io nvm Bool) (f : Bool → Io nvm Bool) (s : Ssd nvm)
      → Returns m s
      → ((a : Bool) (s' : Ssd nvm) → Returns (f a) s')
      → Returns (m >>= f) s
  Returns->>= m f s (a, s', run, kept) rest =
      let (b, s'', run', kept') = rest a s' in
      (b, s'', >>=-ok m f run ∙ run', Kept-trans kept kept')

  erasechunk_at-Returns :
      (pageno chunkno : ℕ) (s : Ssd nvm) → Returns (erasechunk_at nvm pageno chunkno) s
  unfolding erasechunk_at
  erasechunk_at-Returns pageno chunkno s =
      elim (ltb (s.chunkusage chunkno) nvm.nsectr)
        as (λ b.
          Returns
            (λ (s : Ssd nvm). elim b [
              | true ↦
                  (do
                    filled ← compenstae_fun nvm chunkno
                    if filled then erase_at nvm pageno else return false)
                    s
              | false ↦ erase_at nvm pageno s
            ])
            s) [
              | false ↦ erase_at-Returns pageno s
              | true ↦
                  Returns->>= (compenstae_fun nvm chunkno) _ s (compenstae_fun-Returns chunkno s)
                    (λ filled s'.
                      if-Returns filled (erase_at nvm pageno) (return false) s'
                        (erase_at-Returns pageno s') (false, s', refl, Kept-refl s'))
            ]

  pub erasechunk-Returns : (chunkno : ℕ) (s : Ssd nvm) → Returns (erasechunk nvm chunkno) s
  unfolding erasechunk
  erasechunk-Returns chunkno s =
      let after = record s {
        counters = record s.counters { lsm_erases = s.counters.lsm_erases + 1 };
      } in
      let (x, s', run, kept) = erasechunk_at-Returns (chunkno * 4096) chunkno after in
      (x, s', run, Kept-trans (counted s after.counters) kept)
