-- ===== src/Tests/Device.antt =====
-- The theorems on pages, on a device that keeps a log of its writes.
use rexio.Base.{◌≡◌, refl, List, [], ◌∷◌, length, arith}
use rexio.Outcome.{ok}
use rexio.Backend.Entry.{Entry, AllWords}
use rexio.Backend.State.{calculate_page_capacity, ◌>>=◌}
use rexio.Backend.Reader.{page_read}
use rexio.Backend.Writer.{program_page}
use rexio.Backend.Pages.{reread, page_read-program_page}
use rexio.Tests.Toy.{toy, toy-Reliable, blank}

abbrev pairs : List Entry
pairs = record { key = 5; val = 258 } ∷ record { key = 6; val = 1 } ∷ []

pairs-AllWords : AllWords pairs
pairs-AllWords = (
  record { key_fits = omega arith; val_fits = omega arith },
  (record { key_fits = omega arith; val_fits = omega arith }, tt),
)

pairs-fits : length pairs ≡ calculate_page_capacity toy 16
unfolding calculate_page_capacity
pairs-fits = refl

page_read-program_page_example :
    (program_page toy pairs 4100 >>= λ _. page_read toy 4100) blank
    ≡ ok (pairs, reread toy pairs 4100 blank)
page_read-program_page_example =
    page_read-program_page toy toy-Reliable refl pairs 4100 blank refl pairs-fits pairs-AllWords
