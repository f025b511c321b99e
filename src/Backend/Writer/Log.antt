-- ===== src/Backend/Writer/Log.antt =====
-- src/Backend/SSDWrite/writer.cpp: the data pages and the log pages of the two-tier index, and the
-- pointers that they move.
use rexio.Base.{
  ℕ, ◌+◌, ◌-◌, ◌*◌, ◌/◌, ◌%◌, leb, ◌==◌, if◌then◌else◌, List, [], ◌∷◌, ◌++◌, length, take, drop,
}
use rexio.Outcome.{ok, fail, undefined}
use rexio.Backend.Nvm.{Nvm}
use rexio.Backend.State.{Ssd, Io, ◌>>=◌, ◌>>◌, modify, count, require, exit_with, write_at}
use rexio.Backend.Eraser.{write_sectors}

module _ (nvm : Nvm) where
  -- `InfoRenew(scale, LogPointer, true)`: behind a log page.
  unfoldable pub info_renew_log : ℕ → ℕ → Ssd nvm → Ssd nvm
  unfolding write_at
  info_renew_log scale log_pointer s = record s {
    data_page_pointer =
        s.data_page_pointer
        + (if log_pointer / 4096 == s.data_page_pointer / 4096 then scale else 0);
    chunkusage =
        write_at s.chunkusage (log_pointer / 4096) (s.chunkusage (log_pointer / 4096) + scale);
  }

  -- `InfoRenew(scale)`: behind a data page. A chunk takes 820 data pages, the rest is for its log.
  unfoldable pub info_renew_data : ℕ → Ssd nvm → Ssd nvm
  unfolding write_at
  info_renew_data scale s =
      let chunk = s.data_page_pointer / 4096 in
      record s {
        chunkusage = write_at s.chunkusage chunk (s.chunkusage chunk + scale);
        data_page_pointer =
            if leb 820 (length (s.chunk_data chunk))
            then s.data_page_pointer + (4096 - s.data_page_pointer % 4096)
            else s.data_page_pointer + scale;
      }

  -- `for (i < n) bp->bufs->write[i] = bytes[i];`: to read behind the bytes is undefined.
  unfoldable pub copy_to_buffer : ℕ → List ℕ → Io nvm (Unit {0})
  copy_to_buffer n bytes s =
      if leb n (length bytes)
      then ok (tt, record s { write_buf = take n bytes ++ drop n s.write_buf })
      else fail undefined

  -- Behind a successful `nvm_cmd_write`.
  unfoldable pub log_data_page : ℕ → Ssd nvm → Ssd nvm
  unfolding info_renew_data write_at
  log_data_page pointer s =
      let chunk = pointer / 4096 in
      info_renew_data nvm.ws_min
        (record s { chunk_data = write_at s.chunk_data chunk (s.chunk_data chunk ++ pointer ∷ []) })

  unfoldable pub log_log_page : ℕ → ℕ → Ssd nvm → Ssd nvm
  unfolding info_renew_log write_at
  log_log_page block_id log_page_pointer s =
      info_renew_log nvm.ws_min (log_page_pointer + 4096 * block_id) (record s {
        chunk_log = write_at s.chunk_log block_id (s.chunk_log block_id ++ log_page_pointer ∷ []);
      })

  -- `SinglePageWrite()`: `page_bytes` are the bytes of `Pagedata`.
  unfoldable pub single_page_write : List ℕ → Io nvm (Unit {0})
  unfolding copy_to_buffer write_sectors log_data_page
  single_page_write page_bytes = do
    count (λ c. record c { writes = c.writes + 1 })
    copy_to_buffer 16384 page_bytes
    s ← (λ s. ok (s, s))
    done ← write_sectors nvm s.data_page_pointer (s.data_page_pointer % 4096) s.write_buf
    if done then modify (log_data_page s.data_page_pointer) else exit_with 4598

  -- `PageLogWrite(BlockId)`: `log` is `BufferLog[BlockId]`.
  unfoldable pub page_log_write : ℕ → List ℕ → Io nvm (Unit {0})
  unfolding copy_to_buffer write_sectors log_log_page
  page_log_write block_id log = do
    count (λ c. record c { writes = c.writes + 1 })
    t ← (λ s. ok (s, s))
    let log_page_pointer = t.chunkusage block_id
    require (leb log_page_pointer 4092)
    copy_to_buffer 16384 log
    s ← (λ s. ok (s, s))
    done ← write_sectors nvm (log_page_pointer + 4096 * block_id) log_page_pointer s.write_buf
    if done then modify (log_log_page block_id log_page_pointer) else exit_with 4598
