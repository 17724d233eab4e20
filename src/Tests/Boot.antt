-- ===== src/Tests/Boot.antt =====
-- The theorem on restarts at a node that comes up first in its cluster and then again.
use cave.Base.{
  ◌≡◌, refl, true, false, none, some, [], ◌∷◌, Bytes, Outcome, ret, message, path_eqb, eqb,
}
use cave.Bolt.Memory.{memory, Memory, settle, find_named}
use cave.Crypto.{
  KeyFile, new_crypto, generate_system_aes, generate_shared_key, seal_shared_key, unseal_shared_key,
  sealed, open_prefixed,
}
use cave.Kv.Open.{new_kv, create_roots}
use cave.Boot.{Random, boot}
use cave.Boot.Laws.{boot_again}
use cave.Tests.Crypto.{plain, codecs, shared}

abbrev random : Random
random = record { pass = λ n. ret (6 ∷ []); nonce = λ n. ret (4 ∷ 5 ∷ []) }

abbrev machine : Outcome Bytes
machine = ret (1 ∷ 2 ∷ 3 ∷ [])

abbrev opened : Memory
opened = (memory.update (create_roots memory plain codecs) []).1

abbrev reopened : Memory
reopened = (memory.update (create_roots memory plain codecs) opened).1

abbrev key_file : KeyFile
key_file = some (1 ∷ 2 ∷ 9 ∷ [])

comes_up :
    boot plain codecs memory true machine (ret tt) (ret tt) random (ret []) (message []) none
    ≡ ret (opened, shared, key_file)
unfolding boot new_crypto generate_system_aes generate_shared_key seal_shared_key sealed new_kv
    unseal_shared_key open_prefixed settle create_roots find_named path_eqb eqb
comes_up = refl

comes_up_again :
    boot plain codecs memory false machine
      (ret tt)
      (ret tt)
      random
      (ret opened)
      (message [])
      key_file
    ≡ ret (reopened, shared, key_file)
unfolding boot new_crypto generate_system_aes generate_shared_key seal_shared_key sealed new_kv
    unseal_shared_key open_prefixed settle create_roots find_named path_eqb eqb
comes_up_again = refl

boot_again_example : (shared ≡ shared) × (key_file ≡ key_file)
boot_again_example =
    boot_again plain codecs memory true false machine (ret tt) (ret tt) (ret tt) (ret tt) random
      random (ret []) (ret opened) (message []) none comes_up comes_up_again
