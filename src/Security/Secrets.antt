-- ===== src/Security/Secrets.antt =====
-- The secret store of src/security/secrets.c. OpenSSL's ChaCha20-Poly1305 is the parameter `Aead`;
-- of the file system there is the key file.
pub mod RoundTrip
mod Tests
use tiniclaw.Base.{
  ℕ, ◌+◌, ◌-◌, ◌*◌, ◌/◌, ◌≡◌, ◌<◌, Bool, true, false, not, ◌&&◌, Option, none, some, List, [], ◌∷◌,
  ◌++◌, Bytes, codes, length, take, drop, clip, c_string, starts_with, ltb, ◌==◌, if◌then◌else◌,
  All,
}
use tiniclaw.Util.Hex.{hex_encode, hex_decode}

abbrev pub nonce_len : ℕ
nonce_len = 12

abbrev pub tag_len : ℕ
tag_len = 16

abbrev pub enc_prefix : Bytes
enc_prefix = codes "enc2:"

-- The calls into OpenSSL: sealing gives the ciphertext and the tag, opening gives the plaintext;
-- `none` when a call fails, as the tag check does.
pub record Aead : Type 0 where
  pub seal : Bytes → Bytes → Bytes → Option (Bytes × Bytes)
  pub unseal : Bytes → Bytes → Bytes → Bytes → Option Bytes

-- What the documentation of the cipher promises.
pub record IsAead (a : Aead) : Type 0 where
  pub sizes :
      (k n p c t : Bytes)
      → a.seal k n p ≡ some (c, t)
      → (length c ≡ length p) × (length t ≡ tag_len)
  pub bytes :
      (k n p c t : Bytes) → a.seal k n p ≡ some (c, t) → All (λ b. b < 256) c × All (λ b. b < 256) t
  pub opens : (k n p c t : Bytes) → a.seal k n p ≡ some (c, t) → a.unseal k n c t ≡ some p

pub record SecretStore : Type 0 where
  pub key_path : Bytes
  pub enabled : Bool

unfoldable pub secret_store_init : Bytes → Bool → SecretStore
secret_store_init dir enabled = record {
  key_path = clip 4096 (dir ++ codes "/.secret_key");
  enabled = enabled;
}

-- The key file: what reading it gives, `none` when it cannot be opened; and whether it can be
-- opened for writing.
pub record KeyFile : Type 0 where
  pub content : Option Bytes
  pub writable : Bool

-- What a run takes from outside: random bytes for a new key and for the nonce, and whether `malloc`
-- returns memory.
pub record Env : Type 0 where
  pub fresh_key : Bytes
  pub nonce : Bytes
  pub memory : Bool

-- `fread(key, 1, 32, f)` of a file with this content, and its check.
pub key_of : Bytes → Option Bytes
key_of c = if length (take 32 c) == 32 then some (take 32 c) else none

pub load_from : Env → KeyFile → Option Bytes → Option Bytes × KeyFile
load_from env f (some c) = (key_of c, f)
load_from env f none =
    if f.writable
    then (some env.fresh_key, record f { content = some env.fresh_key })
    else (none, f)

-- The key, or `none` for -1, and the file afterwards.
pub load_or_create_key : Env → KeyFile → Option Bytes × KeyFile
load_or_create_key env f = load_from env f f.content

-- Lengths are those of texts below 2^31, which the casts to `int` keep.
module _ (aead : Aead) where
  unfoldable pub chacha20_encrypt : Bytes → Bytes → Bytes → Option Bytes
  chacha20_encrypt key nonce plain = elim (aead.seal key nonce plain) [
    | none ↦ none
    | some (c, t) ↦ some (c ++ t)
  ]

  unfoldable pub chacha20_decrypt : Bytes → Bytes → Bytes → Option Bytes
  chacha20_decrypt key nonce cipher =
      if ltb (length cipher) tag_len
      then none
      else aead.unseal key nonce (take (length cipher - tag_len) cipher)
          (drop (length cipher - tag_len) cipher)

  -- The text for the sealed blob, or the plaintext itself when sealing fails.
  pub sealed_text : Env → Bytes → Option Bytes → Bytes
  sealed_text env plaintext none = plaintext
  sealed_text env plaintext (some ct) = enc_prefix ++ hex_encode (env.nonce ++ ct)

  pub encrypt_with : Env → Bytes → Option Bytes → Bytes
  encrypt_with env plaintext none = plaintext
  encrypt_with env plaintext (some key) =
      if not env.memory
      then plaintext
      else sealed_text env plaintext (chacha20_encrypt key env.nonce plaintext)

  pub encrypt_enabled : Env → KeyFile → Bytes → Bytes × KeyFile
  encrypt_enabled env f [] = ([], f)
  encrypt_enabled env f (c ∷ s) =
      let (key, f') = load_or_create_key env f in (encrypt_with env (c ∷ s) key, f')

  -- The text to store, and the key file afterwards. `none` is a NULL plaintext.
  unfoldable pub secret_store_encrypt : SecretStore → Env → KeyFile → Option Bytes → Bytes × KeyFile
  secret_store_encrypt st env f none = ([], f)
  secret_store_encrypt st env f (some p) =
      if not st.enabled then (p, f) else encrypt_enabled env f p

  pub opened_text : Option Bytes → Bytes
  opened_text none = []
  opened_text (some plain) = c_string plain

  pub decrypt_with : Bytes → Option Bytes → Bytes
  decrypt_with blob none = []
  decrypt_with blob (some key) =
      opened_text (chacha20_decrypt key (take nonce_len blob) (drop nonce_len blob))

  pub decrypt_blob : Env → KeyFile → Option Bytes → Bytes × KeyFile
  decrypt_blob env f none = ([], f)
  decrypt_blob env f (some blob) =
      if ltb (length blob) (nonce_len + tag_len)
      then ([], f)
      else (let (key, f') = load_or_create_key env f in (decrypt_with blob key, f'))

  -- `none` is NULL, for a NULL ciphertext. A stored text without the prefix is passed through.
  unfoldable pub secret_store_decrypt :
      SecretStore → Env → KeyFile → Option Bytes → Option Bytes × KeyFile
  secret_store_decrypt st env f none = (none, f)
  secret_store_decrypt st env f (some s) =
      if not (starts_with enc_prefix s)
      then (some s, f)
      else if not st.enabled
      then (some (drop 5 s), f)
      else (let hex = drop 5 s in
          let (p, f') = decrypt_blob env f (hex_decode hex (length hex / 2)) in (some p, f'))
