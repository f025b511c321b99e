-- ===== src/Backend/Pages.antt =====
-- What is written to a page is read from it: SSDWrite/writer.cpp against SSDRead/reader.cpp.
use rexio.Base.{
  ℕ, zero, suc, ◌+◌, ◌*◌, ◌%◌, ◌≤◌, ◌≡◌, refl, ap, true, List, [], ◌∷◌, ◌++◌, length, take, drop,
  arith,
}
use rexio.Outcome.{ok}
use rexio.Backend.Nvm.{Nvm, Reliable}
use rexio.Backend.Entry.{Entry, AllWords}
use rexio.Backend.Codec.{encode, decode, fill_buffer, decode-encode, length-encode}
use rexio.Backend.State.{Ssd, ◌>>=◌, ◌>>◌, >>=-ok, calculate_page_capacity, addrs_from}
use rexio.Backend.Reader.{read_sectors, page_read}
use rexio.Backend.Eraser.{write_sectors}
use rexio.Backend.Writer.{program_page}

take-append-le {ℓ} :
    {A : Type ℓ} (n : ℕ) (xs ys : List A)
    → length xs ≤ n
    → (rest : List A) × (take n (xs ++ ys) ≡ xs ++ rest)
take-append-le n [] ys h = (take n ys, refl)
take-append-le zero (x ∷ xs) ys h = absurd (omega arith)
take-append-le (suc n) (x ∷ xs) ys h =
    let (rest, e) = take-append-le n xs ys (omega arith) in (rest, ap (◌∷◌ x) e)

module _ (nvm : Nvm) where
  pub length-addrs_from : (a : nvm.Addr) (sectr n : ℕ) → length (addrs_from nvm a sectr n) ≡ n
  unfolding addrs_from
  length-addrs_from a sectr zero = refl
  length-addrs_from a sectr (suc n) = ap suc (length-addrs_from a (sectr + 1) n)

  abbrev pub page_addrs : ℕ → List nvm.Addr
  page_addrs p = addrs_from nvm (nvm.dev2gen p) (p % 4096) nvm.ws_min

  -- The device takes the write of these entries to this page.
  abbrev pub Accepts : List Entry → ℕ → Ssd nvm → Type 0
  Accepts es p s = (nvm.cmd_write s.dev (page_addrs p) (fill_buffer es s.write_buf)).1 ≡ true

  -- The backend behind such a write.
  abbrev pub programmed : List Entry → ℕ → Ssd nvm → Ssd nvm
  programmed es p s = record s {
    dev = (nvm.cmd_write s.dev (page_addrs p) (fill_buffer es s.write_buf)).0;
    write_buf = fill_buffer es s.write_buf;
  }

  -- The backend behind a read of a bucket's page.
  abbrev pub counted : Ssd nvm → Ssd nvm
  counted c = record c {
    counters = record c.counters {
      readcount = c.counters.readcount + 1;
      reads = c.counters.reads + 1;
    };
  }

  -- The backend behind the write and the read.
  abbrev pub reread : List Entry → ℕ → Ssd nvm → Ssd nvm
  reread es p s = counted (programmed es p s)

  module _ (reliable : Reliable nvm) (width : nvm.nsectr ≡ 4096) (es : List Entry) (p : ℕ)
      (s : Ssd nvm) (accepted : Accepts es p s) where
    pub program_page_lem : program_page nvm es p s ≡ ok (true, programmed es p s)
    unfolding program_page write_sectors
    program_page_lem = rw accepted

    pub read_sectors-program_page :
        (c : Ssd nvm)
        → c.dev ≡ (programmed es p s).dev
        → read_sectors nvm p c ≡ ok (take (nvm.ws_min * nvm.nbytes) (fill_buffer es s.write_buf), c)
    unfolding read_sectors
    read_sectors-program_page c same = rw (
      same,
      width,
      reliable.read-write s.dev (page_addrs p) (fill_buffer es s.write_buf) accepted,
      length-addrs_from,
    )

    module _ (fits : length es ≡ calculate_page_capacity nvm 16) (words : AllWords es) where
      encode-fits : length (encode es) ≤ nvm.ws_min * nvm.nbytes
      unfolding calculate_page_capacity
      encode-fits = grind (arith, length-encode es)

      pub decode-page :
          decode
            (calculate_page_capacity nvm 16)
            (take (nvm.ws_min * nvm.nbytes) (fill_buffer es s.write_buf))
          ≡ es
      unfolding fill_buffer
      decode-page =
          let (rest, e) =
            take-append-le (nvm.ws_min * nvm.nbytes) (encode es)
              (drop (length (encode es)) s.write_buf) encode-fits in
          rw (e, ← fits) (decode-encode es rest words)

      -- The page is read as it was written as long as the device is left alone.
      pub page_read-programmed :
          (c : Ssd nvm) → c.dev ≡ (programmed es p s).dev → page_read nvm p c ≡ ok (es, counted c)
      unfolding page_read
      page_read-programmed c same =
          rw (◌>>=◌, ◌>>◌, read_sectors-program_page (counted c) same, decode-page)

      -- A full page of entries that the device takes is read back as it was written, key by key and
      -- value by value; reading counts, and changes nothing else.
      pub page_read-program_page :
          (program_page nvm es p >>= λ _. page_read nvm p) s ≡ ok (es, reread es p s)
      page_read-program_page =
          rw (>>=-ok (program_page nvm es p) (λ _. page_read nvm p) program_page_lem)
            (page_read-programmed (programmed es p s) refl)
