-- ===== src/Parallel/ReadMode.antt =====
-- src/Backend/SSDWrite/parallel_writer.cpp: the read mode of the coordinator. What is read before
-- something set it is undefined behaviour.
use rexio.Base.{
  ℕ, zero, suc, ◌+◌, ◌-◌, ◌*◌, ◌/◌, ◌%◌, ◌≡◌, ◌≢◌, refl, ◌==◌, Bool, true, false, Option, none,
  some, inl, inr, ◌⊎◌, List, [], ◌++◌, arith,
}
use rexio.Outcome.{fail, ok, undefined}
use rexio.Backend.Nvm.{Nvm}
use rexio.Backend.Entry.{uint64_max}
use rexio.Backend.Codec.{decode}
use rexio.Backend.State.{Ssd, Io, ◌>>=◌, ◌>>◌, return, demand, exit_with, addrs_from}
use rexio.Parallel.{Geo, page_capacity, check_keys, next_read_point}

-- `struct thread_param`: whether the buffer is allocated, and the size, if it was set.
pub record ThreadParam : Type 0 where
  pub buffer : Bool
  pub page_num : ℕ
  pub size : Option ℕ

module _ (nvm : Nvm) where
  -- `n / m`
  unfoldable pub quotient : ℕ → ℕ → Io nvm ℕ
  quotient n zero = λ _. fail undefined
  quotient n (suc m) = return (n / suc m)

  -- `nvm_cmd_read` of a page into the buffer of a thread
  unfoldable pub read_into : ℕ → Io nvm (List ℕ)
  unfolding addrs_from
  read_into page_num s =
      let (bytes, done) =
        nvm.cmd_read s.dev (addrs_from nvm (nvm.dev2gen page_num) (page_num % 4096) nvm.ws_min) in
      elim done [
        | true ↦
            ok (bytes, record s { counters = record s.counters { reads = s.counters.reads + 1 } })
        | false ↦ exit_with 4598 s
      ]

  -- The result is the bytes in the buffer. A buffer that is not read into is compared unset.
  unfoldable pub parallel_read_from_pu : ThreadParam → Io nvm (List ℕ)
  unfolding read_into check_keys decode
  parallel_read_from_pu arg = elim arg.buffer [
    | false ↦ λ _. fail undefined
    | true ↦ do
      s ← demand arg.size
      elim (arg.page_num == uint64_max) [
        | true ↦ λ _. fail undefined
        | false ↦ do
          bytes ← read_into arg.page_num
          check_keys nvm 1024 s (decode (page_capacity nvm) bytes)
          return bytes
      ]
  ]

  module _ (geo : Geo) (num_pug : ℕ) where
    -- The threads of a whole batch, whose buffers nobody allocates; the bytes of the buffers, one
    -- behind the other, and the point behind them.
    unfoldable pub read_threads : ℕ → ℕ → ℕ → Io nvm (List ℕ × ℕ)
    unfolding parallel_read_from_pu next_read_point
    read_threads zero point size = return ([], point)
    read_threads (suc n) point size = do
      bytes ← parallel_read_from_pu (record { buffer = false; page_num = point; size = some size })
      (rest, end) ←
          read_threads n (next_read_point nvm geo num_pug point) (size + page_capacity nvm)
      return (bytes ++ rest, end)

    unfoldable pub read_batches : ℕ → ℕ → ℕ → Io nvm (List ℕ × ℕ)
    unfolding read_threads
    read_batches zero point size = return ([], point)
    read_batches (suc n) point size = do
      (bytes, next) ← read_threads geo.max_os_threads point size
      (rest, end) ← read_batches n next (size + geo.max_os_threads * page_capacity nvm)
      return (bytes ++ rest, end)

    -- The pages behind the whole batches, whose bytes go nowhere; the sizes are those of the last
    -- batch, if there was one.
    unfoldable pub read_rest : ℕ → ℕ → Option ℕ → Io nvm (Unit {0})
    unfolding parallel_read_from_pu next_read_point
    read_rest zero point size = return tt
    read_rest (suc n) point size = do
      _ ← parallel_read_from_pu (record { buffer = true; page_num = point; size = size })
      read_rest n (next_read_point nvm geo num_pug point)
          (elim size [ none ↦ none | some s ↦ some (s + page_capacity nvm) ])

    unfoldable pub read_pages : ℕ → ℕ → ℕ → Io nvm (List ℕ)
    unfolding read_batches read_rest
    read_pages batchs pages start_page = do
      (bytes, point) ← read_batches batchs start_page 1
      read_rest (pages - batchs * geo.max_os_threads) point (elim batchs [
        | zero ↦ none
        | suc i ↦ some (i * geo.max_os_threads * page_capacity nvm + 1)
      ])
      return bytes

    -- `parallel_coordinator` in its read mode: the bytes that the result's buffer was given.
    unfoldable pub coordinator_read : ℕ → ℕ → Io nvm (List ℕ)
    unfolding quotient read_pages
    coordinator_read size start_page = do
      pages ← quotient size (page_capacity nvm)
      batchs ← quotient pages geo.max_os_threads
      read_pages batchs pages start_page

    -- Undefined behaviour, or no byte is read.
    abbrev pub Unread : ℕ → ℕ → Ssd nvm → Type 0
    Unread size start_page s =
        (coordinator_read size start_page s ≡ fail undefined)
        ⊎ (coordinator_read size start_page s ≡ ok ([], s))

    quotient_cases :
        (n m : ℕ) (s : Ssd nvm)
        → (quotient n m s ≡ fail undefined) ⊎ ((k : ℕ) × (quotient n m s ≡ ok (k, s)) × (m ≢ 0))
    unfolding quotient
    quotient_cases n zero s = inl refl
    quotient_cases n (suc m) s = inr (n / suc m, refl, λ e. omega (arith, e))

    read_threads-unset :
        (t point size : ℕ) (s : Ssd nvm) → t ≢ 0 → read_threads t point size s ≡ fail undefined
    unfolding read_threads parallel_read_from_pu
    read_threads-unset zero point size s some_ = absurd (some_ refl)
    read_threads-unset (suc t) point size s some_ = refl

    read_rest_cases :
        (n point : ℕ) (s : Ssd nvm)
        → (read_rest n point none s ≡ fail undefined) ⊎ (read_rest n point none s ≡ ok (tt, s))
    unfolding read_rest parallel_read_from_pu
    read_rest_cases zero point s = inr refl
    read_rest_cases (suc n) point s = inl refl

    read_pages_cases :
        (batchs pages start_page : ℕ) (s : Ssd nvm)
        → geo.max_os_threads ≢ 0
        → (read_pages batchs pages start_page s ≡ fail undefined)
          ⊎ (read_pages batchs pages start_page s ≡ ok ([], s))
    unfolding read_pages read_batches
    read_pages_cases zero pages start_page s some_ =
        elim (read_rest_cases (pages - 0 * geo.max_os_threads) start_page s) [
          | inl unset ↦ inl (rw (read_pages, ◌>>=◌, ◌>>◌, unset) refl)
          | inr nothing ↦ inr (rw (read_pages, ◌>>=◌, ◌>>◌, nothing) refl)
        ]
    read_pages_cases (suc n) pages start_page s some_ =
        let unset = read_threads-unset geo.max_os_threads start_page 1 s some_ in
        inl (rw (read_pages, read_batches, ◌>>=◌, unset) refl)

    pub coordinator_read_lem : (size start_page : ℕ) (s : Ssd nvm) → Unread size start_page s
    unfolding coordinator_read
    coordinator_read_lem size start_page s = elim (quotient_cases size (page_capacity nvm) s) [
      | inl none_ ↦ inl (rw (coordinator_read, ◌>>=◌, none_) refl)
      | inr (pages, runs, _) ↦ elim (quotient_cases pages geo.max_os_threads s) [
        | inl none_ ↦ inl (rw (coordinator_read, ◌>>=◌, runs, none_) refl)
        | inr (batchs, runs', some_) ↦ elim (read_pages_cases batchs pages start_page s some_) [
          | inl unset ↦ inl (rw (coordinator_read, ◌>>=◌, runs, runs', unset) refl)
          | inr nothing ↦ inr (rw (coordinator_read, ◌>>=◌, runs, runs', nothing) refl)
        ]
      ]
    ]
