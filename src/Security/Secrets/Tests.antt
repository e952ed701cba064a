-- ===== src/Security/Secrets/Tests.antt =====
-- The store with a cipher that adds nothing but a tag of zeros, and the witnesses.
use tiniclaw.Base.{
  ℕ, zero, suc, ◌<◌, ◌≡◌, refl, ap, Bool, true, false, Option, none, some, [], ◌∷◌, ◌++◌, Bytes,
  codes, arith, All, length, replicate, starts_with, ltb, Bool-cases, inl, inr, ◌&&◌,
}
use tiniclaw.Security.Secrets.{
  Aead, IsAead, SecretStore, KeyFile, Env, enc_prefix, load_from, load_or_create_key,
  chacha20_encrypt, secret_store_encrypt, secret_store_decrypt,
}
use tiniclaw.Security.Secrets.RoundTrip.{secret_round_trip}

abbrev all_bytes : Bytes → Bool
all_bytes [] = true
all_bytes (c ∷ s) = ltb c 256 && all_bytes s

-- Seals bytes only, and leaves them as they are.
abbrev seal_plain : Bool → Bytes → Option (Bytes × Bytes)
seal_plain true p = some (p, replicate 16 0)
seal_plain false p = none

abbrev plain_cipher : Aead
plain_cipher = record { seal = λ k n p. seal_plain (all_bytes p) p; unseal = λ k n c t. some c }

all_bytes-All : (p : Bytes) → all_bytes p ≡ true → All (λ b. b < 256) p
all_bytes-All [] h = tt
all_bytes-All (c ∷ p) h = elim (Bool-cases (ltb c 256)) [
  | inl e ↦ (ground arith, all_bytes-All p (rw e at h))
  | inr e ↦ absurd (ground arith)
]

seals :
    (b : Bool) (p c t : Bytes)
    → all_bytes p ≡ b
    → seal_plain b p ≡ some (c, t)
    → (c ≡ p) × (t ≡ replicate 16 0) × All (λ b. b < 256) p
seals true p c t e h = (cc, cc, all_bytes-All p e)
seals false p c t e h = absurd (cc)

zeros-All : (n : ℕ) → All (λ b. b < 256) (replicate n 0)
zeros-All zero = tt
zeros-All (suc n) = (omega arith, zeros-All n)

plain_cipher-IsAead : IsAead plain_cipher
plain_cipher-IsAead = record {
  sizes = λ k n p c t h. let r = seals (all_bytes p) p c t refl h in (ap length r.0, ap length r.1);
  bytes =
      λ k n p c t h. let r = seals (all_bytes p) p c t refl h in rw (r.0, r.1) (r.2, zeros-All 16);
  opens = λ k n p c t h.
      ap {B = Option Bytes} (λ (q : Bytes). some q) (seals (all_bytes p) p c t refl h).0;
}

abbrev store : SecretStore
store = record { key_path = codes "k"; enabled = true }

abbrev closed_store : SecretStore
closed_store = record { key_path = codes "k"; enabled = false }

abbrev no_file : KeyFile
no_file = record { content = none; writable = true }

abbrev env : Env
env = record { fresh_key = replicate 32 7; nonce = replicate 12 9; memory = true }

abbrev later : Env
later = record { fresh_key = replicate 32 8; nonce = replicate 12 1; memory = true }

abbrev sealed : Bytes
sealed = codes "hi" ++ replicate 16 0

created : (load_or_create_key env no_file).0 ≡ some (replicate 32 7)
unfolding load_or_create_key load_from
created = refl

seals_hi :
    chacha20_encrypt plain_cipher (replicate 32 7) (replicate 12 9) (codes "hi") ≡ some sealed
unfolding chacha20_encrypt
seals_hi = refl

nines-All : All (λ b. b < 256) (replicate 12 9)
nines-All = all_bytes-All (replicate 12 9) refl

secret_round_trip_example :
    let (stored, f') = secret_store_encrypt plain_cipher store env no_file (some (codes "hi")) in
    (starts_with enc_prefix stored ≡ true)
    × (secret_store_decrypt plain_cipher store later f' (some stored) ≡ (some (codes "hi"), f'))
secret_round_trip_example =
    secret_round_trip plain_cipher plain_cipher-IsAead store env later no_file b'h' (b'i' ∷ [])
      (replicate 32 7) sealed refl ((omega arith, omega arith), ((omega arith, omega arith), tt))
      refl refl nines-All refl created seals_hi
