-- ===== src/Kv/Open.antt =====
-- kv.go newKV: the start of the engine on an opened database.
pub mod Database
use cave.Base.{Option, [], codes, Err, Outcome, ret, fail, panic, ◌>>?◌, Exec, ◌>>=◌, pure}
use cave.Bolt.{Bolt}
use cave.Crypto.{AesKey, Ciphers, CryptoCodecs, KeyFile, unseal_shared_key}
use cave.Kv.Updates.{kv_prefix}

-- What Update leaves behind, whatever its error.
abbrev pub state_of : {S : Type 0} → Outcome (Unit {0}) × S → Outcome S
state_of (ret u, s) = ret s
state_of (fail e, s) = ret s
state_of (panic, s) = panic

module _ (B : Bolt) (C : Ciphers) (K : CryptoCodecs) where
  unfoldable pub create_roots : Exec B.State (Unit {0})
  create_roots = do a ← B.create [] kv_prefix; b ← B.create [] (codes "_system"); pure tt

  -- `opened` is what dbOpen gives; the error of the transaction that creates the buckets is dropped.
  unfoldable pub new_kv :
      Outcome B.State → Err → AesKey → KeyFile → Outcome (B.State × Option AesKey)
  new_kv opened missing privkey file = opened >>? λ s.
      state_of (B.update (create_roots) s) >>? λ s'.
      unseal_shared_key C K missing privkey file >>? λ key. ret (s', key)
