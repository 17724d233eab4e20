-- ===== src/Cluster/Sync/Keys.antt =====
-- cluster.go SyncResponse and HandleSharedKey: the two ends of a join at the node that is asked, and
-- at the node that asked for the shared key.
use cave.Base.{
  ◌≡◌, refl, inr, Bool, false, Option, none, some, [], Bytes, if◌then◌else◌, Err, Outcome, ret,
  ◌>>?◌, Exec, then_do, pure,
}
use cave.Types.{Mode, dev, prod, Message, ReadsBack}
use cave.Crypto.{AesKey, Ciphers, IsAead, CryptoCodecs, KeyFile, seal_shared_key, unseal_shared_key}
use cave.Crypto.Laws.{IsKey, unseal_shared_key-seal_shared_key}

-- SyncResponse: the bytes that the asking node receives, `none` in dev mode. `exists` is whether
-- there is a database file and `file` is what opening and reading it gives; `copied` is how io.Copy
-- to the connection ends. All errors return before anything is sent whole.
unfoldable pub sync_response :
    Mode
    → Bool
    → Outcome (Unit {0})
    → Outcome Bytes
    → (Bytes → Outcome (Unit {0}))
    → Outcome (Option Bytes)
sync_response dev exists dial file copied = ret none
sync_response prod exists dial file copied =
    dial >>? λ _. (if exists then file else ret []) >>? λ b. copied b >>? λ _. ret (some b)

module _ (C : Ciphers) (K : CryptoCodecs) where
  -- HandleSharedKey, which never overwrites a key file.
  unfoldable pub handle_shared_key : Mode → AesKey → Message → Exec KeyFile (Unit {0})
  handle_shared_key dev privkey msg = pure tt
  handle_shared_key prod privkey msg =
      then_do (K.keys.unmarshal msg.payload) (λ key. seal_shared_key C K key privkey false)

  -- A node without a key file that handles the encoding of a shared key has sealed this key.
  pub unseal_shared_key-handle_shared_key :
      (aead : IsAead C) (key : Option AesKey) (privkey : AesKey) (msg : Message) (missing : Err)
      → IsKey C privkey
      → K.keys.marshal key ≡ ret msg.payload
      → ReadsBack K.keys key
      → let (r, f) = handle_shared_key prod privkey msg none in
        (r ≡ ret tt) × (unseal_shared_key C K missing privkey f ≡ ret key)
  unfolding handle_shared_key
  unseal_shared_key-handle_shared_key aead key privkey msg missing g m back =
      rw (back msg.payload m) (
        unseal_shared_key-seal_shared_key C K aead key privkey false none missing msg.payload g m
          back (inr refl))
