-- ===== src/Security/Secrets/RoundTrip.antt =====
-- What is stored decrypts to what was given, and when it is not encrypted at all.
use tiniclaw.Base.{
  ℕ, ◌+◌, ◌-◌, ◌/◌, ◌≤◌, ◌<◌, ◌≡◌, ◌∙◌, refl, sym, ap, Bool, true, false, not, Option, none, some,
  [], ◌∷◌, ◌++◌, Bytes, length, length-append, take, drop, take-all, take-append_left,
  drop-append_left, All-append, IsText, c_string-text, starts_with, starts_with-append, arith, ltb,
  if◌then◌else◌, Bool-cases, inl, inr,
}
use tiniclaw.Util.Hex.{hex_encode, hex_decode}
use tiniclaw.Util.Hex.RoundTrip.{IsBytes, hex_decode-hex_encode, length-hex_encode}
use tiniclaw.Security.Secrets.{
  Aead, IsAead, SecretStore, KeyFile, Env, nonce_len, tag_len, enc_prefix, key_of, load_from,
  load_or_create_key, chacha20_encrypt, chacha20_decrypt, sealed_text, encrypt_with,
  encrypt_enabled, secret_store_encrypt, opened_text, decrypt_with, decrypt_blob,
  secret_store_decrypt,
}

key_of-fresh : (k : Bytes) → length k ≡ 32 → key_of k ≡ some k
unfolding key_of
key_of-fresh k h = rw (take-all 32 k (omega arith)) (rw h)

no_key : {k : Bytes} → ◌≡◌ {A = Option Bytes} none (some k) → ⊥
no_key e = cc

split_tag :
    (aead : Aead) (key nonce c t : Bytes)
    → length t ≡ tag_len
    → chacha20_decrypt aead key nonce (c ++ t) ≡ aead.unseal key nonce c t
unfolding chacha20_decrypt
split_tag aead key nonce c t h =
    let long : ltb (length (c ++ t)) 16 ≡ false = ground (arith, length-append c t) in
    let size : length (c ++ t) - 16 ≡ length c = omega (arith, length-append c t) in
    rw (long, size) (rw (take-append_left c t, drop-append_left c t))

-- A key that has been loaded or created is loaded again, and the file stays as it is.
load_again :
    (env env' : Env) (f : KeyFile) (key : Bytes)
    → length env.fresh_key ≡ 32
    → (load_or_create_key env f).0 ≡ some key
    → load_or_create_key env' (load_or_create_key env f).1
      ≡ (some key, (load_or_create_key env f).1)
unfolding load_or_create_key load_from
load_again env env' f key size h = go f.content refl h
  where
    go :
        (o : Option Bytes)
        → f.content ≡ o
        → (load_from env f o).0 ≡ some key
        → load_from env' (load_from env f o).1 (load_from env f o).1.content
          ≡ (some key, (load_from env f o).1)
    go (some c) e h =
        ap (load_from env' f) e ∙ ap {B = Option Bytes × KeyFile} (λ (k : Option Bytes). (k, f)) h
    go none e h = elim (Bool-cases f.writable) [
      | inl w ↦ let h' = rw w at h in rw (w, load_from) (rw (key_of-fresh env.fresh_key size) (cc))
      | inr w ↦ absurd (no_key (rw w at h))
    ]

module _ (aead : Aead) (law : IsAead aead) where
  -- Splitting a blob at the tag undoes joining it.
  chacha20_round_trip :
      (key nonce plain ct : Bytes)
      → chacha20_encrypt aead key nonce plain ≡ some ct
      → (chacha20_decrypt aead key nonce ct ≡ some plain) × IsBytes ct × (tag_len ≤ length ct)
  unfolding chacha20_encrypt
  chacha20_round_trip key nonce plain ct h = go (aead.seal key nonce plain) refl h
    where
      go :
          (o : Option (Bytes × Bytes))
          → aead.seal key nonce plain ≡ o
          → elim o [ none ↦ none | some (c, t) ↦ some (c ++ t) ] ≡ some ct
          → (chacha20_decrypt aead key nonce ct ≡ some plain) × IsBytes ct × (tag_len ≤ length ct)
      go none e q = cc
      go (some (c, t)) e q =
          let joined : c ++ t ≡ ct = cc in
          let sizes = law.sizes key nonce plain c t e in
          let small = law.bytes key nonce plain c t e in
          rw (← joined) (
            split_tag aead key nonce c t sizes.1 ∙ law.opens key nonce plain c t e,
            All-append (λ b. b < 256) c t small.0 small.1,
            omega (arith, length-append c t, sizes.1),
          )

  sealed_text-decrypts :
      (env : Env) (key p ct : Bytes)
      → length env.nonce ≡ nonce_len
      → IsBytes env.nonce
      → IsText p
      → chacha20_encrypt aead key env.nonce p ≡ some ct
      → (hex_decode (hex_encode (env.nonce ++ ct)) (length (hex_encode (env.nonce ++ ct)) / 2)
          ≡ some (env.nonce ++ ct))
        × (nonce_len + tag_len ≤ length (env.nonce ++ ct))
        × (decrypt_with aead (env.nonce ++ ct) (some key) ≡ p)
  unfolding decrypt_with opened_text
  sealed_text-decrypts env key p ct size small text sealed =
      let (back, ct_small, ct_size) = chacha20_round_trip key env.nonce p ct sealed in
      let whole = All-append (λ b. b < 256) env.nonce ct small ct_small in
      let front : take 12 (env.nonce ++ ct) ≡ env.nonce =
        ap (λ (n : ℕ). take n (env.nonce ++ ct)) (sym size) ∙ take-append_left env.nonce ct in
      let behind : drop 12 (env.nonce ++ ct) ≡ ct =
        ap (λ (n : ℕ). drop n (env.nonce ++ ct)) (sym size) ∙ drop-append_left env.nonce ct in
      (
        hex_decode-hex_encode (env.nonce ++ ct) (length (hex_encode (env.nonce ++ ct)) / 2) whole
            (omega (arith, length-hex_encode (env.nonce ++ ct))),
        omega (arith, length-append env.nonce ct),
        rw (front, behind, back) (c_string-text p text),
      )

  encrypts :
      (st : SecretStore) (env : Env) (f : KeyFile) (c : ℕ) (s key ct : Bytes)
      → st.enabled ≡ true
      → env.memory ≡ true
      → (load_or_create_key env f).0 ≡ some key
      → chacha20_encrypt aead key env.nonce (c ∷ s) ≡ some ct
      → secret_store_encrypt aead st env f (some (c ∷ s))
        ≡ (enc_prefix ++ hex_encode (env.nonce ++ ct), (load_or_create_key env f).1)
  unfolding secret_store_encrypt encrypt_enabled encrypt_with sealed_text
  encrypts st env f c s key ct on mem loaded sealed =
      let f' = (load_or_create_key env f).1 in
      ap {B = Bytes × KeyFile}
        (λ (b : Bool). if not b then (c ∷ s, f) else encrypt_enabled aead env f (c ∷ s)) on
      ∙ ap {B = Bytes × KeyFile} (λ (k : Option Bytes). (encrypt_with aead env (c ∷ s) k, f'))
          loaded
      ∙ ap {B = Bytes × KeyFile}
          (λ (b : Bool). (
            if not b
                then c ∷ s
                else sealed_text aead env (c ∷ s) (chacha20_encrypt aead key env.nonce (c ∷ s)),
            f',
          ))
          mem
      ∙ ap {B = Bytes × KeyFile} (λ (o : Option Bytes). (sealed_text aead env (c ∷ s) o, f')) sealed

  blob_opens :
      (env : Env) (f : KeyFile) (blob key p : Bytes)
      → nonce_len + tag_len ≤ length blob
      → load_or_create_key env f ≡ (some key, f)
      → decrypt_with aead blob (some key) ≡ p
      → decrypt_blob aead env f (some blob) ≡ (p, f)
  unfolding decrypt_blob
  blob_opens env f blob key p long loaded plain =
      let P = Bytes × KeyFile in
      let big : ltb (length blob) (nonce_len + tag_len) ≡ false = ground arith in
      let open_with : Option Bytes × KeyFile → Bytes × KeyFile =
        λ r. (decrypt_with aead blob r.0, r.1) in
      ap {B = P} (λ (b : Bool). if b then ([], f) else open_with (load_or_create_key env f)) big
      ∙ ap {B = P} open_with loaded
      ∙ ap {B = P} (λ (q : Bytes). (q, f)) plain

  decrypts :
      (st : SecretStore) (env : Env) (f : KeyFile) (hex blob key p : Bytes)
      → st.enabled ≡ true
      → hex_decode hex (length hex / 2) ≡ some blob
      → nonce_len + tag_len ≤ length blob
      → load_or_create_key env f ≡ (some key, f)
      → decrypt_with aead blob (some key) ≡ p
      → secret_store_decrypt aead st env f (some (enc_prefix ++ hex)) ≡ (some p, f)
  unfolding secret_store_decrypt decrypt_blob starts_with
  decrypts st env f hex blob key p on decoded long loaded plain =
      let P = Option Bytes × KeyFile in
      let answer : Bytes × KeyFile → Option Bytes × KeyFile = λ r. (some r.0, r.1) in
      let opened = blob_opens env f blob key p long loaded plain in
      ap {B = P}
        (λ (b : Bool).
          if not b
          then (some hex, f)
          else answer (decrypt_blob aead env f (hex_decode hex (length hex / 2))))
        on
      ∙ ap {B = P} (λ (o : Option Bytes). answer (decrypt_blob aead env f o)) decoded
      ∙ ap {B = P} answer opened

  -- With the store enabled, a non-empty secret whose key loads or can be created, and which the
  -- cipher seals, is stored behind the prefix, and the stored text decrypts to the secret, with
  -- whatever random bytes and without another change of the key file.
  pub secret_round_trip :
      (st : SecretStore) (env env' : Env) (f : KeyFile) (c : ℕ) (s key ct : Bytes)
      → st.enabled ≡ true
      → IsText (c ∷ s)
      → length env.fresh_key ≡ 32
      → length env.nonce ≡ nonce_len
      → IsBytes env.nonce
      → env.memory ≡ true
      → (load_or_create_key env f).0 ≡ some key
      → chacha20_encrypt aead key env.nonce (c ∷ s) ≡ some ct
      → let (stored, f') = secret_store_encrypt aead st env f (some (c ∷ s)) in
        (starts_with enc_prefix stored ≡ true)
        × (secret_store_decrypt aead st env' f' (some stored) ≡ (some (c ∷ s), f'))
  secret_round_trip st env env' f c s key ct on text ksize nsize small mem loaded sealed =
      let f' = (load_or_create_key env f).1 in
      let (hex, long, plain) = sealed_text-decrypts env key (c ∷ s) ct nsize small text sealed in
      let stored = encrypts st env f c s key ct on mem loaded sealed in
      let again = load_again env env' f key ksize loaded in
      let blob = env.nonce ++ ct in
      let opened = decrypts st env' f' (hex_encode blob) blob key (c ∷ s) on hex long again plain in
      (
        ap (λ (r : Bytes × KeyFile). starts_with enc_prefix r.0) stored
            ∙ starts_with-append enc_prefix (hex_encode blob),
        ap {B = Option Bytes × KeyFile}
              (λ (r : Bytes × KeyFile). secret_store_decrypt aead st env' r.1 (some r.0)) stored
            ∙ opened
            ∙ ap {B = Option Bytes × KeyFile} (λ (r : Bytes × KeyFile). (some (c ∷ s), r.1))
                (sym stored),
      )

  -- With the store disabled a secret is stored as it is and read back as it is, unless it starts
  -- with the prefix "enc2:" itself, which reading then drops; the key file is not touched.
  pub disabled_round_trip :
      (st : SecretStore) (env env' : Env) (f : KeyFile) (p : Bytes)
      → st.enabled ≡ false
      → (secret_store_encrypt aead st env f (some p) ≡ (p, f))
        × (secret_store_decrypt aead st env' f (some p)
            ≡ (some (if starts_with enc_prefix p then drop 5 p else p), f))
  unfolding secret_store_encrypt secret_store_decrypt
  disabled_round_trip st env env' f p off = (
    ap {B = Bytes × KeyFile} (λ (b : Bool). if not b then (p, f) else encrypt_enabled aead env f p)
        off,
    elim (Bool-cases (starts_with enc_prefix p)) [
      | inl e ↦ rw e (
          ap {B = Option Bytes × KeyFile}
            (λ (b : Bool).
              if not b
              then (some (drop 5 p), f)
              else (let (q, f') =
                    decrypt_blob aead env' f (hex_decode (drop 5 p) (length (drop 5 p) / 2)) in
                  (some q, f')))
            off)
      | inr e ↦ rw e refl
    ],
  )
