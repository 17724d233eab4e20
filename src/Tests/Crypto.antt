-- ===== src/Tests/Crypto.antt =====
-- The theorems on crypto.go at concrete inputs: a toy cipher that leaves the text as it is.
use cave.Base.{
  ◌↔◌, ◌<◌, ℕ, length, Option, some, ◌≡◌, refl, inr, false, none, [], ◌∷◌, Bytes, message, Outcome,
  ret, fail, panic,
}
use cave.Types.{ReadsBack}
use cave.Crypto.{
  AesKey, Secret, Ciphers, IsAead, CryptoCodecs, seal_shared_key, unseal_shared_key, sealed,
  encryt_json, decrypt_json,
}
use cave.Crypto.Laws.{IsKey, unseal_shared_key-seal_shared_key, decrypt_json-panic_iff}
use cave.Tests.Nodes.{reads_back}

abbrev pub plain : Ciphers
plain = record {
  gcm = λ p. ret 2;
  seal = λ p n t. t;
  open_sealed = λ p n t. ret t;
  md5_hex = λ b. b;
}

pub plain-IsAead : IsAead plain
plain-IsAead = record { open-seal = λ p n t. refl }

abbrev pub key : AesKey
key = record { key = 1 ∷ 2 ∷ []; nonce_size = 2; pass = 3 ∷ [] }

abbrev pub shared : Option AesKey
shared = some (record { key = 4 ∷ 5 ∷ []; nonce_size = 2; pass = 6 ∷ [] })

pub key-IsKey : IsKey plain key
key-IsKey = record { size = refl; good = refl }

abbrev read_secret : Bytes → Outcome Secret
read_secret [] = fail (message [])
read_secret (c ∷ s) = ret (record { secret = s })

abbrev pub codecs : CryptoCodecs
codecs = record {
  keys = record { marshal = λ k. ret (9 ∷ []); unmarshal = λ b. ret shared };
  secrets = record { marshal = λ s. ret (0 ∷ s.secret); unmarshal = read_secret };
  leftover = λ b. [];
  blobs = record { marshal = λ b. ret b; unmarshal = λ b. ret b };
}

unseal_shared_key-seal_shared_key_example :
    let (r, f) = seal_shared_key plain codecs shared key false none in
    (r ≡ ret tt) × (unseal_shared_key plain codecs (message []) key f ≡ ret shared)
unseal_shared_key-seal_shared_key_example =
    unseal_shared_key-seal_shared_key plain codecs plain-IsAead shared key false none (message [])
      (9 ∷ []) key-IsKey refl (reads_back codecs.keys shared (9 ∷ []) refl refl) (inr refl)

pub secrets_back : (s : Secret) → ReadsBack codecs.secrets s
secrets_back s = reads_back codecs.secrets s (0 ∷ s.secret) refl refl

encrypted : encryt_json plain codecs codecs.blobs key (8 ∷ []) ≡ ret (0 ∷ 1 ∷ 2 ∷ 8 ∷ [])
unfolding encryt_json sealed
encrypted = refl

-- A text that is no secret, which json.Unmarshal refuses and leaves nothing of.
decrypt_json-panic_iff_example :
    (decrypt_json plain codecs key [] ≡ panic) ↔ (length {A = ℕ} [] < 2)
decrypt_json-panic_iff_example =
    decrypt_json-panic_iff plain codecs key [] refl refl (λ n t e h. cc) (λ b h. cc)
