-- ===== src/Backend/Nvm.antt =====
-- The part of liblightnvm that the program calls, as a parameter: it is third-party code. A command
-- returns true for 0 (success) and false for -1 (error); `Dev` is the state of the device.
use rexio.Base.{ℕ, ◌*◌, ◌<◌, ◌≡◌, Bool, true, List, length, take}

pub record Nvm : Type 1 where
  pub Dev : Type 0
  pub Addr : Type 0
  -- geometry: bytes of a sector, sectors of a chunk, sectors of the smallest write
  pub nbytes : ℕ
  pub nsectr : ℕ
  pub ws_min : ℕ
  -- `nvm_addr_dev2gen(dev, lba)`, and the assignment `addr.l.sectr = s`
  pub dev2gen : ℕ → Addr
  pub with_sectr : Addr → ℕ → Addr
  pub cmd_write : Dev → List Addr → List ℕ → Dev × Bool
  pub cmd_read : Dev → List Addr → List ℕ × Bool
  pub cmd_erase : Dev → List Addr → Dev × Bool

-- What the library documents of a device whose commands succeed: a vector read returns the bytes
-- of the last vector write at the same addresses.
pub record Reliable (nvm : Nvm) : Type 0 where
  pub ws_min_pos : 0 < nvm.ws_min
  pub nbytes_pos : 0 < nvm.nbytes
  pub read-write :
      (d : nvm.Dev) (addrs : List nvm.Addr) (buf : List ℕ)
      → (nvm.cmd_write d addrs buf).1 ≡ true
      → nvm.cmd_read (nvm.cmd_write d addrs buf).0 addrs
        ≡ (take (length addrs * nvm.nbytes) buf, true)
