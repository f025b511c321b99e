-- ===== src/Tests/Toy.antt =====
-- A small device for the concrete runs: it keeps a log of its writes, and reads the last write at the
-- same addresses.
use rexio.Base.{
  ℕ, ◌≡◌, ◌<◌, refl, ◌+◌, ◌*◌, ◌/◌, ◌==◌, if◌then◌else◌, Bool, true, false, ◌&&◌, List, [], ◌∷◌,
  take, length, replicate, arith,
}
use rexio.Backend.Nvm.{Nvm, Reliable}
use rexio.Backend.State.{Ssd, Counters}

unfoldable pub same_list : List ℕ → List ℕ → Bool
same_list [] [] = true
same_list (x ∷ xs) (y ∷ ys) = (x == y) && same_list xs ys
same_list [] (_ ∷ _) = false
same_list (_ ∷ _) [] = false

same_list_refl : (xs : List ℕ) → same_list xs xs ≡ true
unfolding same_list
same_list_refl [] = refl
same_list_refl (x ∷ xs) = ground (arith, same_list_refl xs)

unfoldable pub read_log : ℕ → List (List ℕ × List ℕ) → List ℕ → List ℕ × Bool
read_log nbytes [] addrs = ([], false)
read_log nbytes ((written, bytes) ∷ log) addrs =
    if same_list written addrs
    then (take (length addrs * nbytes) bytes, true)
    else read_log nbytes log addrs

-- Sectors of some bytes, written in fours.
abbrev pub device : ℕ → Nvm
device bytes = record {
  Dev = List (List ℕ × List ℕ);
  Addr = ℕ;
  nbytes = bytes;
  nsectr = 4096;
  ws_min = 4;
  dev2gen = λ lba. lba;
  with_sectr = λ a s. a / 4096 * 4096 + s;
  cmd_write = λ log addrs bytes. ((addrs, bytes) ∷ log, true);
  cmd_read = read_log bytes;
  cmd_erase = λ log _. (log, true);
}

pub device-Reliable : (bytes : ℕ) → 0 < bytes → Reliable (device bytes)
unfolding read_log
device-Reliable bytes pos = record {
  ws_min_pos = omega arith;
  nbytes_pos = pos;
  read-write = λ d addrs buf done. rw (same_list_refl addrs);
}

-- Sectors of 8 bytes: a page of two entries.
abbrev pub toy : Nvm
toy = device 8

pub toy-Reliable : Reliable toy
toy-Reliable = device-Reliable 8 (omega arith)

abbrev pub no_counts : Counters
no_counts = record {
  writes = 0;
  reads = 0;
  readcount = 0;
  writecount = 0;
  erasecount = 0;
  eread = 0;
  ewrite = 0;
  eerase = 0;
  lsm_reads = 0;
  lsm_writes = 0;
  lsm_erases = 0;
}

abbrev pub blank_of : (bytes : ℕ) → Ssd (device bytes)
blank_of bytes = record {
  dev = [];
  write_buf = replicate 32 7;
  chunkusage = λ _. 0;
  gpt = λ _ _. false;
  sectorpointer = 0;
  data_page_pointer = 0;
  chunk_log = λ _. [];
  chunk_data = λ _. [];
  channel_current_pointer = [];
  counters = no_counts;
}

abbrev pub blank : Ssd toy
blank = blank_of 8
