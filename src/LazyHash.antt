-- ===== src/LazyHash.antt =====
-- src/MultiHash/LazySplitHash/LSHash.cpp: buckets of appended entries, the place of a key, and the
-- insertion with its split. `insert` and `split` call each other, on fuel: one unit for a call of
-- `insert`. `1 << bits` is exact, as it is below 2 ^ 30 buckets. `PageWrite` does nothing, the
-- counts have no bound, and the threshold is a number of tenths.
use rexio.Base.{
  ℕ, zero, suc, ◌+◌, ◌-◌, ◌*◌, ◌/◌, ◌%◌, ◌^◌, ltb, ◌==◌, if◌then◌else◌, Bool, true, false, List, [],
  ◌∷◌, ◌++◌, length, get_elem?, set, replicate,
}
use rexio.Outcome.{Outcome, ok, fail, undefined, unfinished, exit, ◌>>=◌, deref}
use rexio.Backend.Nvm.{Nvm}
use rexio.Backend.Entry.{uint64_max}
use rexio.Backend.State.{calculate_page_capacity}
pub mod Place
pub mod Entries
pub mod Fill
pub mod Read

pub record LsEntry : Type 0 where
  pub key1 : ℕ
  pub val : ℕ
  pub flag : ℕ

pub record LsBucket : Type 0 where
  pub bucket_entries : List LsEntry
  pub size : ℕ
  pub maxsize : ℕ
  pub page_num : ℕ

pub record LsHash : Type 0 where
  pub bucket_list : List LsBucket
  pub allsize : ℕ
  pub bmaxsize : ℕ
  pub if_threshold : ℕ

abbrev pub new_ls_bucket : ℕ → LsBucket
new_ls_bucket max = record { bucket_entries = []; size = 0; maxsize = max; page_num = uint64_max }

unfoldable pub ls_bucket_insert : ℕ → ℕ → LsBucket → LsBucket
ls_bucket_insert key value b = record b {
  bucket_entries = b.bucket_entries ++ record { key1 = key; val = value; flag = 0 } ∷ [];
  size = b.size + 1;
}

unfoldable pub ls_all_clear : LsBucket → LsBucket
ls_all_clear b = record b { bucket_entries = [] }

-- The table with its defaults: 4 buckets, and a threshold of 0.9.
unfoldable pub new_ls_hash : Nvm → LsHash
unfolding calculate_page_capacity
new_ls_hash nvm =
    let bucketmsize = calculate_page_capacity nvm 24 % 65536 in
    record {
      bucket_list = replicate 4 (new_ls_bucket bucketmsize);
      allsize = 0;
      bmaxsize = bucketmsize;
      if_threshold = 9;
    }

unfoldable pub bit_hash : ℕ → ℕ → ℕ
bit_hash number bits = number % 2 ^ bits

-- The loop of `GetBits`, which shifts the number at most as often as its value says.
unfoldable pub count_bits : ℕ → ℕ → ℕ
count_bits zero number = 0
count_bits (suc fuel) number =
    let rest = count_bits fuel (number / 2) in if number == 0 then 0 else suc rest

unfoldable pub get_bits : ℕ → ℕ
unfolding count_bits
get_bits number = count_bits number number

-- The place of a key under `i` bits, without its top bit when there is no such bucket.
unfoldable pub place : ℕ → ℕ → ℕ → ℕ
unfolding bit_hash get_bits
place key i n =
    let tmp = bit_hash key i in if ltb tmp n then tmp else bit_hash tmp (get_bits tmp - 1)

-- The quotient is one of integers.
unfoldable pub if_compute : LsHash → Outcome ℕ
if_compute t =
    let room = length t.bucket_list * t.bmaxsize in
    if room == 0 then fail undefined else ok (t.allsize / room)

unfoldable pub change_bucket : ℕ → (LsBucket → LsBucket) → LsHash → Outcome LsHash
change_bucket n f t = deref (get_elem? t.bucket_list n) >>= λ b.
    ok (record t { bucket_list = set t.bucket_list n (f b) })

-- The end of `Insert`.
unfoldable pub put_entry : ℕ → ℕ → ℕ → LsHash → Outcome LsHash
unfolding place change_bucket ls_bucket_insert
put_entry key value i t =
    change_bucket (place key i (length t.bucket_list)) (ls_bucket_insert key value) t

-- `Insert` as its callers see it.
abbrev pub Inserts : Type 0
Inserts = ℕ → ℕ → LsHash → Outcome LsHash

unfoldable pub reinsert : Inserts → List LsEntry → LsHash → Outcome LsHash
reinsert ins [] t = ok t
reinsert ins (e ∷ es) t = ins e.key1 e.val t >>= λ t'. reinsert ins es t'

-- `Split`, with the insertion that it calls.
unfoldable pub ls_split : Inserts → ℕ → LsHash → Outcome LsHash
unfolding change_bucket reinsert ls_all_clear
ls_split ins num t = deref (get_elem? t.bucket_list num) >>= λ b.
    change_bucket num ls_all_clear t >>= λ t₁. reinsert ins b.bucket_entries t₁ >>= λ t₂.
    change_bucket num ls_all_clear t₂ >>= λ t₃.
    if length t₃.bucket_list == 0 then ok t₃ else fail (exit 105)

-- A new bucket, and the split of the one it is split off.
unfoldable pub expand : Inserts → LsHash → Outcome LsHash
unfolding ls_split bit_hash get_bits
expand ins t =
    let last = length t.bucket_list in
    ls_split ins (bit_hash last (get_bits last - 1))
      (record t { bucket_list = t.bucket_list ++ new_ls_bucket t.bmaxsize ∷ [] })

unfoldable pub insert_on : ℕ → Inserts
unfolding get_bits if_compute expand put_entry
insert_on zero key value t = fail unfinished
insert_on (suc fuel) key value t =
    let i = get_bits (length t.bucket_list) in
    let t₁ = record t { allsize = t.allsize + 1 } in
    if_compute t₁ >>= λ q. elim (ltb t.if_threshold (10 * q)) [
      | true ↦ expand (insert_on fuel) t₁ >>= put_entry key value i
      | false ↦ put_entry key value i t₁
    ]

-- The number of entries in the buckets.
unfoldable pub stored : List LsBucket → ℕ
stored [] = 0
stored (b ∷ bs) = length b.bucket_entries + stored bs

-- A nested split has at least one entry less in the table, so this fuel is enough.
unfoldable pub ls_insert : Inserts
unfolding insert_on stored
ls_insert key value t = insert_on (suc (stored t.bucket_list)) key value t

-- `Delete` of a bucket inserts a mark; it returns -1 when that has worked, and it always has.
unfoldable pub ls_bucket_delete : ℕ → LsBucket → Bool × LsBucket
unfolding ls_bucket_insert
ls_bucket_delete key b = (false, ls_bucket_insert key uint64_max b)

unfoldable pub ls_erase : LsBucket → LsBucket
ls_erase b = record b { bucket_entries = []; size = 0 }
