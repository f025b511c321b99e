-- ===== src/Backend/State.antt =====
-- The global variables of the backend (src/Backend/backend_variables.h and .cpp, SSDWrite/writer.cpp,
-- IODisk/WriteDisk.cpp, the counters of the indexes), the monad of the functions that use them, and
-- the sizes of pages. The counters are unbounded here.
use rexio.Base.{
  ℕ, zero, suc, ◌+◌, ◌-◌, ◌*◌, ◌/◌, ◌%◌, ◌≡◌, ltb, ◌==◌, if◌then◌else◌, Bool, true, false, Option,
  none, some, List, [], ◌∷◌,
}
use rexio.Outcome.{Outcome, ok, fail, exit, assertion, undefined}
use rexio.Backend.Nvm.{Nvm}

pub record Counters : Type 0 where
  pub writes : ℕ
  pub reads : ℕ
  pub readcount : ℕ
  pub writecount : ℕ
  pub erasecount : ℕ
  pub eread : ℕ
  pub ewrite : ℕ
  pub eerase : ℕ
  pub lsm_reads : ℕ
  pub lsm_writes : ℕ
  pub lsm_erases : ℕ

-- `write_buf` is `bp->bufs->write`; the maps from chunk numbers are functions, with the default
-- value where `operator[]` makes a new element.
pub record Ssd (nvm : Nvm) : Type 0 where
  pub dev : nvm.Dev
  pub write_buf : List ℕ
  pub chunkusage : ℕ → ℕ
  pub gpt : ℕ → ℕ → Bool
  pub sectorpointer : ℕ
  pub data_page_pointer : ℕ
  pub chunk_log : ℕ → List ℕ
  pub chunk_data : ℕ → List ℕ
  pub channel_current_pointer : List ℕ
  pub counters : Counters

-- A function of the backend: it takes the global variables and gives them back, or ends the program.
abbrev pub Io {ℓ} : Nvm → Type ℓ → Type ℓ
Io nvm A = Ssd nvm → Outcome (A × Ssd nvm)

infixl 5 ◌>>=◌ ◌>>◌
abbrev pub ◌>>=◌ {ℓ κ} :
    {nvm : Nvm} {A : Type ℓ} {B : Type κ} → Io nvm A → (A → Io nvm B) → Io nvm B
◌>>=◌ m f s = elim (m s) [ ok (a, s') ↦ f a s' | fail e ↦ fail e ]

abbrev pub ◌>>◌ {ℓ} : {nvm : Nvm} {B : Type ℓ} → Io nvm (Unit {0}) → Io nvm B → Io nvm B
m >> k = m >>= λ _. k

module _ {nvm : Nvm} where
  abbrev pub return {ℓ} : {A : Type ℓ} → A → Io nvm A
  return a s = ok (a, s)

  abbrev pub modify : (Ssd nvm → Ssd nvm) → Io nvm (Unit {0})
  modify f s = ok (tt, f s)

  abbrev pub count : (Counters → Counters) → Io nvm (Unit {0})
  count f s = ok (tt, record s { counters = f s.counters })

  -- `assert(b)`
  abbrev pub require : Bool → Io nvm (Unit {0})
  require true s = ok (tt, s)
  require false s = fail assertion

  -- Reads a value that undefined behaviour stands behind when it is missing.
  abbrev pub demand {ℓ} : {A : Type ℓ} → Option A → Io nvm A
  demand none s = fail undefined
  demand (some a) s = ok (a, s)

  -- `n % m`, which is undefined for m = 0
  abbrev pub modulo : ℕ → ℕ → Io nvm ℕ
  modulo n zero s = fail undefined
  modulo n (suc m) s = ok (n % suc m, s)

  -- `EMessageOutput(msg, code)`
  abbrev pub exit_with {ℓ} : {A : Type ℓ} → ℕ → Io nvm A
  exit_with code s = fail (exit code)

-- `m[k] = v` on a map that is a function.
unfoldable pub write_at {ℓ} : {A : Type ℓ} → (ℕ → A) → ℕ → A → ℕ → A
write_at m k v q = if q == k then v else m q

module _ (nvm : Nvm) where
  unfoldable pub get_pagesize : ℕ
  get_pagesize = nvm.nbytes * nvm.ws_min

  unfoldable pub calculate_page_capacity : ℕ → ℕ
  unfolding get_pagesize
  calculate_page_capacity kv_size = get_pagesize / kv_size

  -- The addresses of a page: `addrs[aidx].val = a.val; addrs[aidx].l.sectr = sectr + aidx;` for `n`
  -- values of `aidx`.
  unfoldable pub addrs_from : nvm.Addr → ℕ → ℕ → List nvm.Addr
  addrs_from a sectr zero = []
  addrs_from a sectr (suc n) = nvm.with_sectr a sectr ∷ addrs_from a (sectr + 1) n

  -- `for (sectr = from; sectr < limit; sectr += ws_min)`: the values of `sectr`, on fuel.
  unfoldable pub steps_from : ℕ → ℕ → ℕ → List ℕ
  steps_from zero sectr limit = []
  steps_from (suc fuel) sectr limit =
      let rest = steps_from fuel (sectr + nvm.ws_min) limit in
      if ltb sectr limit then sectr ∷ rest else []

  -- A step is at least one sector, so as many rounds as sectors are enough.
  unfoldable pub steps : ℕ → ℕ → List ℕ
  unfolding steps_from
  steps sectr limit = steps_from (limit - sectr) sectr limit

-- A first step that ends well hands over to the rest.
pub >>=-ok {ℓ κ} :
    {nvm : Nvm} {A : Type ℓ} {B : Type κ} (m : Io nvm A) (f : A → Io nvm B) {a : A} {s s' : Ssd nvm}
    → m s ≡ ok (a, s')
    → (m >>= f) s ≡ f a s'
>>=-ok m f e = rw (◌>>=◌, e)
