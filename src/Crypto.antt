-- ===== src/Crypto.antt =====
-- crypto.go: the system key and the shared key, and the sealing of the shared key and of secrets.
-- The ciphers are Go's crypto packages and the machine id is a library's: they are the parameter
-- `Ciphers`. The file "cluster.key" is the state.
pub mod Laws
use cave.Base.{
  ℕ, ◌<◌, ◌≡◌, Bool, true, false, not, ◌&&◌, ◌||◌, Option, none, some, List, [], ◌∷◌, ◌++◌, Bytes,
  codes, length, take, drop, ltb, if◌then◌else◌, Err, Outcome, ret, fail, panic, ◌>>?◌, Exec, ◌>>=◌,
  ◌>>◌, lift, pure,
}
use cave.Types.{Codec}

pub record AesKey : Type 0 where
  pub key : Bytes
  pub nonce_size : ℕ
  pub pass : Bytes

pub record Secret : Type 0 where
  pub secret : Bytes

-- aes.NewCipher and cipher.NewGCM, as `gcm pass`: its nonce size or the error of a bad key; Seal
-- and Open under a pass and a nonce; md5 in hexadecimal digits.
pub record Ciphers : Type 0 where
  pub gcm : Bytes → Outcome ℕ
  pub seal : Bytes → Bytes → Bytes → Bytes
  pub open_sealed : Bytes → Bytes → Bytes → Outcome Bytes
  pub md5_hex : Bytes → Bytes

-- What the packages document: Open inverts Seal under the same pass and nonce.
pub record IsAead (C : Ciphers) : Type 0 where
  pub open-seal : (p n t : Bytes) → C.open_sealed p n (C.seal p n t) ≡ ret t

pub record CryptoCodecs : Type 0 where
  -- json at *AESKey: `none` is the nil pointer, which json writes as null
  pub keys : Codec (Option AesKey)
  pub secrets : Codec Secret
  -- what json.Unmarshal leaves in Secret when it fails: it may have filled it before
  pub leftover : Bytes → Bytes
  -- json at []byte, which is a base64 text
  pub blobs : Codec Bytes

pub record Crypto : Type 0 where
  pub sharedkey : Option AesKey
  pub privkey : Option AesKey
  pub id : Bytes

-- The file cluster.key, if it exists.
abbrev pub KeyFile : Type 0
KeyFile = Option Bytes

-- s[:n], which panics past the end
abbrev pub slice_to : ℕ → Bytes → Outcome Bytes
slice_to n s = if ltb (length s) n then panic else ret (take n s)

module _ (C : Ciphers) (J : CryptoCodecs) where
  -- GenerateSharedKey: `pass` and `nonce` are what the random source gives for a size.
  unfoldable pub generate_shared_key :
      (ℕ → Outcome Bytes) → (ℕ → Outcome Bytes) → Crypto → Outcome Crypto
  generate_shared_key pass nonce c = pass 32 >>? λ p. C.gcm p >>? λ size. nonce size >>? λ n.
      ret (record c { sharedkey = some (record { key = n; nonce_size = size; pass = p }) })

  -- GenerateSystemAES: the key of a machine is derived from its id alone. io.ReadFull of the nonce
  -- from a buffer of exactly that size succeeds.
  unfoldable pub generate_system_aes : Outcome Bytes → Crypto → Outcome Crypto
  generate_system_aes machine_id c = machine_id >>? λ id.
      let hash = C.md5_hex id in
      C.gcm hash >>? λ size. slice_to size hash >>? λ n.
      ret (record c { privkey = some (record { key = n; nonce_size = size; pass = hash }) })

  unfoldable pub new_crypto : Outcome Bytes → Outcome Crypto
  new_crypto machine_id = machine_id >>? λ id.
      generate_system_aes machine_id (record { sharedkey = none; privkey = none; id = id })

  -- gcm.Seal(n, privkey.Key, bkey, nil) appends to the nonce.
  unfoldable pub sealed : AesKey → Bytes → Bytes
  sealed k text = k.key ++ C.seal k.pass k.key text

  write_key : Option AesKey → AesKey → Exec KeyFile (Unit {0})
  write_key sharedkey privkey _ =
      let r = J.keys.marshal sharedkey >>? λ bkey.
      C.gcm privkey.pass >>? λ size. ret (sealed privkey bkey) in
      elim r [
        | ret txt ↦ (ret tt, some txt)
        | fail e ↦ (fail e, some [])
        | panic ↦ (panic, some [])
      ]

  -- SealSharedKey; opening the file truncates it, before anything can fail. That the file cannot be
  -- opened or written is left out.
  unfoldable pub seal_shared_key : Option AesKey → AesKey → Bool → Exec KeyFile (Unit {0})
  unfolding write_key
  seal_shared_key sharedkey privkey overwrite none = write_key sharedkey privkey none
  seal_shared_key sharedkey privkey overwrite (some f) =
      if overwrite then write_key sharedkey privkey (some f) else (ret tt, some f)

  -- f[:size], f[size:] and gcm.Open
  unfoldable pub open_prefixed : AesKey → Bytes → Outcome Bytes
  open_prefixed k f = slice_to k.nonce_size f >>? λ n. C.open_sealed k.pass n (drop k.nonce_size f)

  -- UnsealSharedKey
  unfoldable pub unseal_shared_key : Err → AesKey → KeyFile → Outcome (Option AesKey)
  unfolding open_prefixed
  unseal_shared_key missing privkey none = fail missing
  unseal_shared_key missing privkey (some f) =
      C.gcm privkey.pass >>? λ size. open_prefixed privkey f >>? J.keys.unmarshal

  -- encrytJSON, at the codec of its argument
  unfoldable pub encryt_json : {A : Type 0} → Codec A → AesKey → A → Outcome Bytes
  encryt_json codec k value = codec.marshal value >>? λ b.
      C.gcm k.pass >>? λ size. J.secrets.marshal (record { secret = sealed k b })

  -- A failed json.Unmarshal of the text is dropped: the secret is then what it has left there.
  abbrev pub secret_of : Bytes → Outcome Secret → Outcome Bytes
  secret_of text (ret s) = ret s.secret
  secret_of text (fail e) = ret (J.leftover text)
  secret_of text panic = panic

  -- decryptJSON
  unfoldable pub decrypt_json : AesKey → Bytes → Outcome Bytes
  unfolding open_prefixed
  decrypt_json k text = secret_of text (J.secrets.unmarshal text) >>? λ s.
      C.gcm k.pass >>? λ size. open_prefixed k s >>? J.blobs.unmarshal
