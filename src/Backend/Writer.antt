-- ===== src/Backend/Writer.antt =====
-- src/Backend/SSDWrite/writer.cpp: the page writes of the indexes. The linear hash, the extendible
-- hash and the LSM tree have a copy each, which count in variables of their own.
pub mod Log
use rexio.Base.{ℕ, ◌+◌, ◌*◌, ◌/◌, ◌%◌, ◌==◌, if◌then◌else◌, Bool, true, false, not, List, [], ◌∷◌}
use rexio.Outcome.{Outcome, ok, fail}
use rexio.Backend.Nvm.{Nvm}
use rexio.Backend.Entry.{Entry, uint64_max}
use rexio.Backend.Codec.{fill_buffer}
use rexio.Backend.State.{
  Ssd, Io, ◌>>=◌, ◌>>◌, return, modify, count, require, exit_with, write_at, steps,
}
use rexio.Backend.Reader.{page_read, ebucket_read}
use rexio.Backend.Eraser.{write_sectors, erasechunk_at, pointer_renew}

module _ (nvm : Nvm) where
  -- The entries go to `bp->bufs->write`, and the buffer to the page; true if the driver returned 0.
  unfoldable pub program_page : List Entry → ℕ → Io nvm Bool
  unfolding fill_buffer write_sectors
  program_page entries pageno = do
    modify (λ s. record s { write_buf = fill_buffer entries s.write_buf })
    s ← (λ s. ok (s, s))
    write_sectors nvm pageno (pageno % 4096) s.write_buf

  -- `BucketWrite`, for `LHEntry` and for `ExEntry`; the driver's answer is dropped.
  unfoldable pub bucket_write_lh : List Entry → ℕ → Io nvm (Unit {0})
  unfolding program_page
  bucket_write_lh entries pageno = do
    require (not (pageno == uint64_max))
    _ ← program_page entries pageno
    return tt

  unfoldable pub bucket_write_ex : List Entry → ℕ → Io nvm (Unit {0})
  unfolding program_page
  bucket_write_ex entries pageno = do
    require (not (pageno == uint64_max))
    _ ← program_page entries pageno
    return tt

  -- Step 1 of `PageUpdate`: the pages of the chunk, by their first sector.
  unfoldable pub read_chunk_lh : ℕ → List ℕ → (ℕ → List Entry) → Io nvm (ℕ → List Entry)
  unfolding page_read write_at
  read_chunk_lh chunkno [] temp_entries = return temp_entries
  read_chunk_lh chunkno (sectr ∷ sectrs) temp_entries = do
    entries ← page_read nvm (sectr + chunkno * 4096)
    read_chunk_lh chunkno sectrs (write_at temp_entries sectr entries)

  -- Step 4 of `PageUpdate`.
  unfoldable pub write_chunk_lh : ℕ → List ℕ → (ℕ → List Entry) → Io nvm (Unit {0})
  unfolding bucket_write_lh
  write_chunk_lh chunkno [] temp_entries = return tt
  write_chunk_lh chunkno (sectr ∷ sectrs) temp_entries = do
    count (λ c. record c { writecount = c.writecount + 1 })
    bucket_write_lh (temp_entries sectr) (sectr + chunkno * 4096)
    write_chunk_lh chunkno sectrs temp_entries

  -- An erase that fails is only reported, so its result is dropped.
  unfoldable pub page_update_lh : ℕ → List Entry → Io nvm (Unit {0})
  unfolding read_chunk_lh write_chunk_lh erasechunk_at write_at steps
  page_update_lh pageno entries s =
      let chunkno = pageno / 4096 in
      let sectrs = steps nvm 0 (s.chunkusage chunkno) in
      (do
        temp_entries ← read_chunk_lh chunkno sectrs (λ _. [])
        _ ← erasechunk_at nvm pageno chunkno
        write_chunk_lh chunkno sectrs (write_at temp_entries (pageno % 4096) entries))
        s

  unfoldable pub read_chunk_ex : ℕ → List ℕ → (ℕ → List Entry) → Io nvm (ℕ → List Entry)
  unfolding ebucket_read write_at
  read_chunk_ex chunkno [] temp_entries = return temp_entries
  read_chunk_ex chunkno (sectr ∷ sectrs) temp_entries = do
    count (λ c. record c { eread = c.eread + 1 })
    entries ← ebucket_read nvm (sectr + chunkno * 4096)
    read_chunk_ex chunkno sectrs (write_at temp_entries sectr entries)

  unfoldable pub write_chunk_ex : ℕ → List ℕ → (ℕ → List Entry) → Io nvm (Unit {0})
  unfolding bucket_write_ex
  write_chunk_ex chunkno [] temp_entries = return tt
  write_chunk_ex chunkno (sectr ∷ sectrs) temp_entries = do
    count (λ c. record c { ewrite = c.ewrite + 1 })
    bucket_write_ex (temp_entries sectr) (sectr + chunkno * 4096)
    write_chunk_ex chunkno sectrs temp_entries

  unfoldable pub page_update_ex : ℕ → List Entry → Io nvm (Unit {0})
  unfolding read_chunk_ex write_chunk_ex erasechunk_at write_at steps
  page_update_ex pageno entries s =
      let chunkno = pageno / 4096 in
      let sectrs = steps nvm 0 (s.chunkusage chunkno) in
      (do
        temp_entries ← read_chunk_ex chunkno sectrs (λ _. [])
        _ ← erasechunk_at nvm pageno chunkno
        write_chunk_ex chunkno sectrs (write_at temp_entries (pageno % 4096) entries))
        s

  -- A page at the pointer of free sectors, which moves on if the driver returned 0.
  unfoldable pub program_next : List Entry → Io nvm (ℕ × Bool)
  unfolding program_page pointer_renew
  program_next entries = do
    s ← (λ s. ok (s, s))
    done ← program_page entries s.sectorpointer
    if done then pointer_renew nvm nvm.ws_min else return tt
    return (s.sectorpointer, done)

  -- `SingleBucketWrite`: the page number of the bucket afterwards.
  unfoldable pub single_bucket_write_lh : List Entry → ℕ → Io nvm ℕ
  unfolding program_next page_update_lh
  single_bucket_write_lh entries pageno = elim (pageno == uint64_max) [
    | true ↦ do
      count (λ c. record c { writecount = c.writecount + 1 })
      (page, _) ← program_next entries
      return page
    | false ↦ do
      count λ c. record c {
        erasecount = c.erasecount + 1;
        writecount = c.writecount + 1;
        readcount = c.readcount + 1;
      }
      page_update_lh pageno entries
      return pageno
  ]

  unfoldable pub single_bucket_write_ex : List Entry → ℕ → Io nvm ℕ
  unfolding program_next page_update_ex
  single_bucket_write_ex entries pageno = elim (pageno == uint64_max) [
    | true ↦ do
      count (λ c. record c { ewrite = c.ewrite + 1 })
      (page, _) ← program_next entries
      return page
    | false ↦ do
      count (λ c. record c { eerase = c.eerase + 1 })
      page_update_ex pageno entries
      return pageno
  ]

  -- `SinglePageWrite` of the LSM tree: a page that has a number already is not written.
  unfoldable pub single_page_write_lsm : List Entry → ℕ → Io nvm ℕ
  unfolding program_next
  single_page_write_lsm entries pageno = elim (pageno == uint64_max) [
    | true ↦ do
      count (λ c. record c { lsm_writes = c.lsm_writes + 1 })
      (page, done) ← program_next entries
      if done then return page else exit_with 4598
    | false ↦ return pageno
  ]
