-- ===== src/Backend/Eraser.antt =====
-- src/Backend/IODisk/WriteDisk.cpp: erasing a chunk, and the pointer of the next free sector.
use rexio.Base.{
  ℕ, zero, suc, ◌+◌, ◌*◌, ◌/◌, ◌%◌, ltb, leb, if◌then◌else◌, Bool, true, false, List, [], ◌∷◌, drop,
}
use rexio.Outcome.{ok}
use rexio.Backend.Nvm.{Nvm}
use rexio.Backend.State.{Io, ◌>>=◌, ◌>>◌, return, modify, count, write_at, addrs_from, steps}

module _ (nvm : Nvm) where
  -- One `nvm_cmd_write` on `ws_min` sectors; the result is whether it returned 0.
  unfoldable pub write_sectors : ℕ → ℕ → List ℕ → Io nvm Bool
  unfolding addrs_from
  write_sectors lba sectr bytes s =
      let (dev, done) =
        nvm.cmd_write s.dev (addrs_from nvm (nvm.dev2gen lba) sectr nvm.ws_min) bytes in
      ok (done, record s { dev = dev })

  -- The loop of `CompenstaeFun`; false stands for -1.
  unfoldable pub compensate : ℕ → List ℕ → Io nvm Bool
  unfolding write_sectors
  compensate lba [] = return true
  compensate lba (sectr ∷ sectrs) = do
    s ← (λ s. ok (s, s))
    done ← write_sectors lba sectr (drop (sectr * nvm.nbytes) s.write_buf)
    if done then compensate lba sectrs else return false

  unfoldable pub compenstae_fun : ℕ → Io nvm Bool
  unfolding compensate steps
  compenstae_fun chunkno s =
      let secofchunk = s.chunkusage chunkno in
      compensate (chunkno * 4096 + secofchunk) (steps nvm secofchunk nvm.nsectr) s

  -- `nvm_cmd_erase` of the chunk that a sector lies in
  unfoldable pub erase_at : ℕ → Io nvm Bool
  erase_at lba s =
      let (dev, done) = nvm.cmd_erase s.dev (nvm.dev2gen lba ∷ []) in
      ok (done, record s { dev = dev })

  -- `erasechunk(pageno, chunkno)`: a chunk that is not full is filled before the erase.
  unfoldable pub erasechunk_at : ℕ → ℕ → Io nvm Bool
  unfolding compenstae_fun erase_at
  erasechunk_at pageno chunkno s = elim (ltb (s.chunkusage chunkno) nvm.nsectr) [
    | true ↦
        (do filled ← compenstae_fun chunkno; if filled then erase_at pageno else return false) s
    | false ↦ erase_at pageno s
  ]

  -- `erasechunk(chunkno)`
  unfoldable pub erasechunk : ℕ → Io nvm Bool
  unfolding erasechunk_at
  erasechunk chunkno = do
    count (λ c. record c { lsm_erases = c.lsm_erases + 1 })
    erasechunk_at (chunkno * 4096) chunkno

  -- The loop of `PointerRenew` over the chunks from `i` on, `n` of them.
  unfoldable pub erase_chunks : ℕ → ℕ → Io nvm (Unit {0})
  unfolding erasechunk write_at
  erase_chunks i zero = return tt
  erase_chunks i (suc n) = do
    _ ← erasechunk i
    modify (λ s. record s { chunkusage = write_at s.chunkusage i 0 })
    erase_chunks (i + 1) n

  -- `if (sectorpointer >= 923648) ...`
  unfoldable pub wrap_pointer : Io nvm (Unit {0})
  unfolding erase_chunks
  wrap_pointer s = elim (leb 923648 s.sectorpointer) [
    | true ↦ erase_chunks 0 150 (record s { sectorpointer = 0 })
    | false ↦ ok (tt, s)
  ]

  unfoldable pub pointer_renew : ℕ → Io nvm (Unit {0})
  unfolding wrap_pointer write_at
  pointer_renew sectors = do
    modify λ s.
        let chunk = s.sectorpointer / 4096 in
        record s {
          chunkusage = write_at s.chunkusage chunk (s.chunkusage chunk + sectors);
          gpt = write_at s.gpt chunk (write_at (s.gpt chunk) ((s.sectorpointer % 4096) / 4) true);
          sectorpointer = s.sectorpointer + sectors;
        }
    wrap_pointer
