-- ===== src/Seed/Reload.antt =====
-- src/seed.rs: `load_or_create` at one start and at the next.
use faucet_api.Common.{
  ◌⊎◌, ◌∙◌, err, ◌≡◌, inl, inr, true, false, some, ok, length, ◌==◌, arith, Option-cases,
  Bool-cases,
}
use faucet_api.Seed.{Seed, Disk, create, load_or_create}

-- On a readable disk, if the random bytes are 32: a seed that `load_or_create` returns has 32
-- bytes, and the next call, with whatever random bytes, returns it again and leaves the disk as it
-- is.
pub load_or_create_again :
    (random random' : Seed) (disk : Disk) {seed : Seed}
    → length random ≡ 32
    → disk.readable ≡ true
    → (load_or_create random disk).0 ≡ ok seed
    → (length seed ≡ 32)
      × (load_or_create random' (load_or_create random disk).1
          ≡ (ok seed, (load_or_create random disk).1))
unfolding load_or_create
load_or_create_again random random' disk w r h = elim (Option-cases disk.contents) [
  | inl p ↦ elim (Bool-cases disk.writable) [ inl q ↦ ground arith | inr q ↦ ground arith ]
  | inr (bytes, p) ↦ elim (Bool-cases (length bytes == 32)) [
    | inl q ↦ ground arith
    | inr q ↦ elim (Bool-cases disk.writable) [ inl t ↦ ground arith | inr t ↦ ground arith ]
  ]
]

-- The file holds a seed that can be read now.
abbrev pub HasSeed : Disk → Seed → Type 0
HasSeed disk seed = (disk.contents ≡ some seed) × (disk.readable ≡ true) × (length seed ≡ 32)

not-HasSeed :
    (disk : Disk) (bytes : Seed)
    → disk.contents ≡ some bytes
    → (length bytes == 32) ≡ false
    → (seed : Seed) → ¬ HasSeed disk seed
not-HasSeed disk bytes p f seed (q, r, w) =
    let same : bytes ≡ seed = ground arith in
    let short : (length seed == 32) ≡ false = rw (← same) f in ground arith

fresh-outcome :
    (random : Seed) (disk : Disk)
    → load_or_create random disk ≡ create random disk
    → ((disk.writable ≡ true)
        × (load_or_create random disk ≡ (ok random, record disk { contents = some random })))
      ⊎ ((disk.writable ≡ false) × (load_or_create random disk ≡ (err tt, disk)))
unfolding create
fresh-outcome random disk e = elim (Bool-cases disk.writable) [
  | inl t ↦ inl (t, e ∙ ground arith)
  | inr f ↦ inr (f, e ∙ ground arith)
]

-- The outcomes of `load_or_create`: a seed in a readable file is returned and the disk is left alone.
-- Else, also when a file is there but cannot be read just now or has another length, it is overwritten
-- with the random seed, which is returned; or, if the disk cannot be written, the call fails and
-- changes nothing.
pub load_or_create_outcome :
    (random : Seed) (disk : Disk)
    → ((seed : Seed) × HasSeed disk seed × (load_or_create random disk ≡ (ok seed, disk)))
      ⊎ (((seed : Seed) → ¬ HasSeed disk seed)
          × (((disk.writable ≡ true)
                × (load_or_create random disk
                    ≡ (ok random, record disk { contents = some random })))
              ⊎ ((disk.writable ≡ false) × (load_or_create random disk ≡ (err tt, disk)))))
unfolding load_or_create
load_or_create_outcome random disk = elim (Option-cases disk.contents) [
  | inl p ↦ inr (λ seed h. ground arith, fresh-outcome random disk (ground arith))
  | inr (bytes, p) ↦ elim (Bool-cases disk.readable) [
    | inr r ↦ inr (λ seed h. ground arith, fresh-outcome random disk (ground arith))
    | inl r ↦ elim (Bool-cases (length bytes == 32)) [
      | inl t ↦ inl (bytes, (p, r, ground arith), ground arith)
      | inr f ↦ inr (not-HasSeed disk bytes p f, fresh-outcome random disk (ground arith))
    ]
  ]
]
