-- ===== src/Backend/Steps.antt =====
-- The loops over the sectors of a chunk (SSDWrite/writer.cpp, IODisk/WriteDisk.cpp): their fuel is
-- enough, and they meet each page once, in order.
use rexio.Base.{
  ℕ, zero, suc, ◌+◌, ◌-◌, ◌*◌, ◌≤◌, ◌<◌, ◌≡◌, refl, ltb, if◌then◌else◌, none, some, get_elem?,
  arith,
}
use rexio.Backend.Nvm.{Nvm}
use rexio.Backend.State.{steps, steps_from}

module _ (nvm : Nvm) (pos : 0 < nvm.ws_min) where
  steps_from-in :
      (fuel sectr limit k : ℕ)
      → limit - sectr ≤ fuel
      → sectr + k * nvm.ws_min < limit
      → get_elem? (steps_from nvm fuel sectr limit) k ≡ some (sectr + k * nvm.ws_min)
  unfolding steps_from
  steps_from-in zero sectr limit k f h = absurd (omega arith)
  steps_from-in (suc fuel) sectr limit zero f h = ground arith
  steps_from-in (suc fuel) sectr limit (suc k) f h =
      ground (arith, steps_from-in fuel (sectr + nvm.ws_min) limit k)

  steps_from-out :
      (fuel sectr limit k : ℕ)
      → limit ≤ sectr + k * nvm.ws_min
      → get_elem? (steps_from nvm fuel sectr limit) k ≡ none
  unfolding steps_from
  steps_from-out zero sectr limit k h = refl
  steps_from-out (suc fuel) sectr limit zero h = ground arith
  steps_from-out (suc fuel) sectr limit (suc k) h =
      ground (arith, steps_from-out fuel (sectr + nvm.ws_min) limit k)

  -- With a positive step, round `k` of the loop is at sector `sectr + k * ws_min` as long as that
  -- lies below the limit, and from there on there is no round.
  pub steps_lem :
      (sectr limit k : ℕ)
      → get_elem? (steps nvm sectr limit) k
        ≡ (if ltb (sectr + k * nvm.ws_min) limit then some (sectr + k * nvm.ws_min) else none)
  unfolding steps
  steps_lem sectr limit k = ground (
    arith,
    steps_from-in (limit - sectr) sectr limit k (omega arith),
    steps_from-out (limit - sectr) sectr limit k,
  )
