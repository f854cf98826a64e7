-- ===== src/Seed.antt =====
-- src/seed.rs: the wallet's seed in its file. The file system is a state: what the file holds, and
-- whether it can be read and written at the moment. An `io::Error` carries nothing here.
pub mod Reload
use faucet_api.Common.{
  ℕ, Bool, true, false, Option, none, some, List, Result, ok, err, length, ◌==◌, if◌then◌else◌,
}

-- 32 bytes.
abbrev pub Seed : Type 0
Seed = List ℕ

pub record Disk : Type 0 where
  pub contents : Option (List ℕ)  -- `none`: there is no such file
  pub readable : Bool
  pub writable : Bool

-- `bytes.try_into().map(Self).ok()`: a slice of 32 bytes becomes a seed.
unfoldable pub try_into : List ℕ → Option Seed
try_into bytes = if length bytes == 32 then some bytes else none

-- `SavableSeed::read`
unfoldable pub read : Disk → Result (Option Seed) (Unit {0})
unfolding try_into
read disk = elim disk.contents [
  | none ↦ ok none
  | some bytes ↦ if disk.readable then ok (try_into bytes) else err tt
]

-- `SavableSeed::save`
unfoldable pub save : Seed → Disk → Result (Unit {0}) (Unit {0}) × Disk
save seed disk =
    if disk.writable then (ok tt, record disk { contents = some seed }) else (err tt, disk)

-- The second arm of `load_or_create`, with the random bytes as an argument.
unfoldable pub create : Seed → Disk → Result Seed (Unit {0}) × Disk
unfolding save
create random disk =
    let (saved, disk') = save random disk in
    (elim saved [ ok _ ↦ ok random | err e ↦ err e ], disk')

-- `SavableSeed::load_or_create`
unfoldable pub load_or_create : Seed → Disk → Result Seed (Unit {0}) × Disk
unfolding read create
load_or_create random disk = elim (read disk) [
  | ok found ↦ elim found [ some me ↦ (ok me, disk) | none ↦ create random disk ]
  | err _ ↦ create random disk
]
