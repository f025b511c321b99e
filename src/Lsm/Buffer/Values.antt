-- ===== src/Lsm/Buffer/Values.antt =====
-- src/LSM-Tree/UtilityImplement/buffer.cpp: what the buffer holds after a put.
use rexio.Base.{
  ℕ, ◌+◌, ◌≤◌, ◌<◌, ◌≡◌, leb, ◌==◌, if◌then◌else◌, true, false, inl, inr, Option-cases, none, some,
  length, arith,
}
use rexio.Backend.Entry.{Entry}
use rexio.Lsm.Buffer.{Buffer, set_insert, set_find, set_erase, put_value, get_value}
use rexio.Lsm.Buffer.Order.{
  IsSorted, set_insert-Enters, set_insert-present, set_erase-IsSorted, set_find-set_erase,
  length-set_erase,
}

-- The entries are in order, and counted; no more than fit.
pub record IsValid (b : Buffer) : Type 0 where
  pub sorted : IsSorted b.entries
  pub counted : b.size ≡ length b.entries
  pub bounded : b.size ≤ b.max_size

module _ (key1 val1 : ℕ) (b : Buffer) (valid : IsValid b) where
  abbrev e : Entry
  e = record { key = key1; val = val1 }

  -- What a buffer with room becomes.
  abbrev Takes : Type 0
  Takes =
      (b' : Buffer) × (put_value key1 val1 b ≡ (true, b'))
      × IsValid b'
      × ((q : ℕ) → get_value q b' ≡ (if q == key1 then some val1 else get_value q b))

  module _ (room : b.size < b.max_size) where
    open_buffer : leb b.max_size b.size ≡ false
    open_buffer = ground arith

    takes_new : set_find key1 b.entries ≡ none → Takes
    unfolding put_value get_value
    takes_new absent =
        let enters = set_insert-Enters e b.entries valid.sorted absent in
        (
          record b { size = b.size + 1; entries = (set_insert e b.entries).0 },
          rw (open_buffer, enters.added),
          record {
            sorted = enters.sorted;
            counted = omega (arith, enters.longer, valid.counted);
            bounded = omega arith;
          },
          λ q. ground (arith, enters.found q),
        )

    takes_old : (x : Entry) → set_find key1 b.entries ≡ some x → Takes
    unfolding put_value get_value
    takes_old x there =
        let left = set_erase key1 b.entries in
        let gone : set_find key1 left ≡ none =
          ground (arith, set_find-set_erase key1 key1 b.entries valid.sorted) in
        let enters =
          set_insert-Enters e left (set_erase-IsSorted key1 b.entries valid.sorted) gone in
        (
          record b { entries = (set_insert e left).0 },
          rw (
            open_buffer,
            (set_insert-present e x b.entries valid.sorted there).0,
            (set_insert-present e x b.entries valid.sorted there).1,
          ),
          record {
            sorted = enters.sorted;
            counted =
                omega
                  (arith, enters.longer, valid.counted, length-set_erase key1 x b.entries there);
            bounded = valid.bounded;
          },
          λ q. ground (arith, enters.found q, set_find-set_erase key1 q b.entries valid.sorted),
        )

  -- A put into a valid buffer with room succeeds, and the buffer stays valid: a read of the key then
  -- gives the value, and every other key reads as before, whether the key was there or not.
  pub put_value_lem :
      b.size < b.max_size
      → (b' : Buffer) × (put_value key1 val1 b ≡ (true, b'))
        × IsValid b'
        × ((q : ℕ) → get_value q b' ≡ (if q == key1 then some val1 else get_value q b))
  put_value_lem room = elim (Option-cases (set_find key1 b.entries)) [
    | inl absent ↦ takes_new room absent
    | inr (x, there) ↦ takes_old room x there
  ]
