-- ===== src/Backend/Reader.antt =====
-- src/Backend/SSDRead/reader.cpp: reading a page and taking it apart into entries.
use rexio.Base.{ℕ, ◌+◌, ◌%◌, ◌==◌, if◌then◌else◌, not, List}
use rexio.Outcome.{ok}
use rexio.Backend.Nvm.{Nvm}
use rexio.Backend.Entry.{Entry, uint64_max}
use rexio.Backend.Codec.{decode}
use rexio.Backend.State.{
  Io, ◌>>=◌, ◌>>◌, return, count, require, exit_with, calculate_page_capacity, addrs_from,
}

module _ (nvm : Nvm) where
  -- `nvm_cmd_read` into `bp->bufs->read`, whose bytes are the result; -1 ends the program.
  unfoldable pub read_sectors : ℕ → Io nvm (List ℕ)
  unfolding addrs_from
  read_sectors pageno s =
      let (bytes, done) =
        nvm.cmd_read s.dev (addrs_from nvm (nvm.dev2gen pageno) (pageno % nvm.nsectr) nvm.ws_min) in
      if done then ok (bytes, s) else exit_with 106 s

  unfoldable pub single_page_read : ℕ → Io nvm (List ℕ)
  single_page_read pageno = do count (λ c. record c { reads = c.reads + 1 }); read_sectors pageno

  unfoldable pub page_data_read : ℕ → Io nvm (List ℕ)
  page_data_read pageno = do
    count (λ c. record c { lsm_reads = c.lsm_reads + 1 })
    read_sectors pageno

  unfoldable pub tnc_entry_read : ℕ → Io nvm (List Entry)
  unfolding single_page_read
  tnc_entry_read page_id = do
    bytes ← single_page_read page_id
    return (decode (calculate_page_capacity nvm 16) bytes)

  unfoldable pub page_read : ℕ → Io nvm (List Entry)
  unfolding single_page_read
  page_read page_num = do
    count (λ c. record c { readcount = c.readcount + 1 })
    bytes ← single_page_read page_num
    return (decode (calculate_page_capacity nvm 16) bytes)

  unfoldable pub ebucket_read : ℕ → Io nvm (List Entry)
  unfolding single_page_read
  ebucket_read page_num = do
    count (λ c. record c { eread = c.eread + 1 })
    bytes ← single_page_read page_num
    return (decode (calculate_page_capacity nvm 16) bytes)

  unfoldable pub run_read_from_page : ℕ → Io nvm (List Entry)
  unfolding page_data_read
  run_read_from_page page_num = do
    require (not (page_num == uint64_max))
    bytes ← page_data_read page_num
    return (decode (calculate_page_capacity nvm 16) bytes)
