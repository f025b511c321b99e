-- ===== src/Backend/Codec.antt =====
-- How entries lie in a page buffer: src/Backend/SSDWrite/writer.cpp copies the two words of each
-- entry byte by byte into `bp->bufs->write`, src/Backend/SSDRead/reader.cpp copies them back. The
-- machine is little-endian.
use rexio.Base.{
  ℕ, zero, suc, ◌+◌, ◌*◌, ◌/◌, ◌%◌, ◌^◌, ◌<◌, ◌≡◌, refl, ap, List, [], ◌∷◌, ◌++◌, length, take,
  drop, arith,
}
use mathlib.Core.Path.{ap₂}
use native.Mathlib.Nat.{pow-suc}
use rexio.Backend.Entry.{Entry, IsWords, AllWords}

-- The bytes of a word in memory, `n` of them, lowest first, and the word that bytes stand for.
unfoldable pub to_bytes : ℕ → ℕ → List ℕ
to_bytes zero x = []
to_bytes (suc n) x = (x % 256) ∷ to_bytes n (x / 256)

unfoldable pub of_bytes : List ℕ → ℕ
of_bytes [] = 0
of_bytes (b ∷ bs) = b + 256 * of_bytes bs

-- `ML[0] = entries[i].key, ML[1] = entries[i].val;` and the copy of the 16 bytes
unfoldable pub encode_entry : Entry → List ℕ
unfolding to_bytes
encode_entry e = to_bytes 8 e.key ++ to_bytes 8 e.val

unfoldable pub encode : List Entry → List ℕ
unfolding encode_entry
encode [] = []
encode (e ∷ es) = encode_entry e ++ encode es

-- The loop of the writers: the bytes behind the last entry keep what the buffer held before.
unfoldable pub fill_buffer : List Entry → List ℕ → List ℕ
unfolding encode
fill_buffer es buf = encode es ++ drop (length (encode es)) buf

unfoldable pub decode_entry : List ℕ → Entry
unfolding of_bytes
decode_entry bs = record { key = of_bytes (take 8 bs); val = of_bytes (take 8 (drop 8 bs)) }

-- The loop of the readers over `count` entries.
unfoldable pub decode : ℕ → List ℕ → List Entry
unfolding decode_entry
decode zero bs = []
decode (suc count) bs = decode_entry bs ∷ decode count (drop 16 bs)

pub of_bytes-to_bytes : (n x : ℕ) → x < 256 ^ n → of_bytes (to_bytes n x) ≡ x
unfolding to_bytes of_bytes
of_bytes-to_bytes zero x h = omega arith
of_bytes-to_bytes (suc n) x h =
    omega (arith, of_bytes-to_bytes n (x / 256) (omega (arith, pow-suc 256 n)))

pub length-to_bytes : (n x : ℕ) → length (to_bytes n x) ≡ n
unfolding to_bytes
length-to_bytes zero x = refl
length-to_bytes (suc n) x = ap suc (length-to_bytes n (x / 256))

decode_entry-encode_entry :
    (e : Entry) (rest : List ℕ) → IsWords e → decode_entry (encode_entry e ++ rest) ≡ e
unfolding decode_entry encode_entry
decode_entry-encode_entry e rest w = λ i. record {
  key = of_bytes-to_bytes 8 e.key w.key_fits i;
  val = of_bytes-to_bytes 8 e.val w.val_fits i;
}

pub decode-encode :
    (es : List Entry) (rest : List ℕ) → AllWords es → decode (length es) (encode es ++ rest) ≡ es
unfolding decode encode
decode-encode [] rest w = refl
decode-encode (e ∷ es) rest w =
    ap₂ ◌∷◌ (decode_entry-encode_entry e (encode es ++ rest) w.0) (decode-encode es rest w.1)

-- Entries of 64-bit words written to a page are read back as they were, whatever the buffer held
-- behind them.
pub decode-fill_buffer :
    (es : List Entry) (buf : List ℕ) → AllWords es → decode (length es) (fill_buffer es buf) ≡ es
unfolding fill_buffer
decode-fill_buffer es buf w = decode-encode es (drop (length (encode es)) buf) w

pub length-encode : (es : List Entry) → length (encode es) ≡ 16 * length es
unfolding encode
length-encode [] = refl
length-encode (e ∷ es) = omega (arith, length-encode es)
