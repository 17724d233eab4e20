-- ===== src/Api.antt =====
-- api.go: the handlers of the key-value routes. Echo's context is the request and the response;
-- that writing a response fails is left out.
pub mod Laws
pub mod Query
pub mod Replicated
pub mod Routes
pub mod Server
use cave.Base.{
  ℕ, Bool, true, false, not, ◌||◌, Option, none, some, List, [], ◌∷◌, ◌++◌, Bytes, codes, eqb,
  if◌then◌else◌, Err, bucket_not_found, Outcome, ret, fail, panic, ◌>>?◌, Exec, ◌>>=◌, pure, lift,
}
use cave.Path.{slash, has_suffix, trim_path}
use cave.Types.{Time}
use cave.Bolt.{Bolt}
use cave.Crypto.{AesKey, Ciphers, CryptoCodecs, encryt_json, decrypt_json}
use cave.Kv.{Json, Node, put, get, get_keys, delete_key, delete_bucket}
use cave.Kv.Tree.{Tree, get_tree}
use cave.Kv.Updates.{kv_prefix}

-- KVPREFIX
abbrev pub kv_url : Bytes
kv_url = codes "/api/v1/kv/"

-- What a handler reads: the method, the path, the two query values, the body, the clock and the
-- UUID of the message it sends.
pub record Request : Type 0 where
  pub method : Bytes
  pub path : Bytes
  pub tree : Bytes
  pub secret : Bytes
  pub body : Outcome Bytes
  pub now : Time
  pub message_id : Bytes

-- jsonError with the text of an error or with one of its own, c.JSON of keys and of a tree, c.Blob.
pub data Body : Type 0 where
  problem : Err → Body
  note : Bytes → Body
  key_list : List Bytes → Body
  tree_map : Tree → Body
  blob : Bytes → Body

pub record Response : Type 0 where
  pub status : ℕ
  pub content : Body

abbrev pub answer : ℕ → Body → Response
answer n b = record { status = n; content = b }

abbrev pub missing : Bytes → Body
missing path = note (codes "Key " ++ (path ++ codes " does not exist"))

-- if err != nil { return c.JSON(n, jsonError{Message: err.Error()}) }
abbrev pub or_problem : {A : Type 0} → ℕ → Outcome A → (A → Outcome Response) → Outcome Response
or_problem n (ret a) f = f a
or_problem n (fail e) f = ret (answer n (problem e))
or_problem n panic f = panic

abbrev pub catch : {S A : Type 0} → (Err → ℕ) → Outcome A → (A → Exec S Response) → Exec S Response
catch n (ret a) f s = f a s
catch n (fail e) f s = (ret (answer (n e) (problem e)), s)
catch n panic f s = (panic, s)

abbrev pub catch_call :
    {S A : Type 0} → (Err → ℕ) → Exec S A → (A → Exec S Response) → Exec S Response
catch_call n m f s = let (r, s') = m s in catch n r f s'

abbrev pub delete_status : Err → ℕ
delete_status bucket_not_found = 404
delete_status _ = 500

abbrev pub keys_answer : Bytes → List Bytes → Outcome Response
keys_answer path [] = ret (answer 404 (missing path))
keys_answer path (k ∷ ks) = ret (answer 200 (key_list (k ∷ ks)))

-- A value that does not decrypt is returned as it is.
abbrev pub or_plain : Bytes → Outcome Bytes → Outcome Response
or_plain b (ret d) = ret (answer 200 (blob d))
or_plain b (fail e) = ret (answer 200 (blob b))
or_plain b panic = panic

module _ (C : Ciphers) (K : CryptoCodecs) (sharedkey : AesKey) where
  abbrev pub value_answer : Bytes → Bytes → Bytes → Outcome Response
  value_answer path secret [] = ret (answer 404 (missing path))
  value_answer path [] (x ∷ b) = ret (answer 200 (blob (x ∷ b)))
  value_answer path (q ∷ secret) (x ∷ b) = or_plain (x ∷ b) (decrypt_json C K sharedkey (x ∷ b))

  -- The body as kvPutHandler stores it.
  abbrev pub put_text : Bytes → Bytes → Outcome Bytes
  put_text [] buf = ret buf
  put_text (q ∷ secret) buf = encryt_json C K K.blobs sharedkey buf

-- treeHandler; its path is not used.
abbrev pub tree_handler : (B : Bolt) → ℕ → Node B → Outcome Response
tree_handler B depth n =
    or_problem 500 (get_tree B depth kv_prefix n) (λ t. ret (answer 200 (tree_map t)))

module _ (B : Bolt) (J : Json) (C : Ciphers) (K : CryptoCodecs) (sharedkey : AesKey) where
  unfoldable pub kv_get_handler : ℕ → Request → Node B → Outcome Response
  kv_get_handler depth r n = trim_path r.path kv_url >>? λ path.
      if not (eqb r.tree [])
      then tree_handler B depth n
      else if has_suffix slash path || eqb path []
      then or_problem 500 (get_keys B J path kv_prefix n) (keys_answer path)
      else or_problem 500 (get B J path kv_prefix n) (value_answer C K sharedkey path r.secret)

  unfoldable pub kv_put_handler : Request → Exec (Node B) Response
  kv_put_handler r = do
    path ← lift (trim_path r.path kv_url)
    catch (λ _. 400) r.body
        (λ body.
          catch (λ _. 400) (put_text C K sharedkey r.secret body)
            (λ buf.
              catch_call (λ _. 500)
                (put B J path buf kv_prefix (not (eqb r.secret [])) [] r.now r.message_id)
                (λ _. pure (answer 200 (note (codes "ok"))))))

  kv_delete_path : Request → Bytes → Exec (Node B) Response
  kv_delete_path r path =
      catch_call (λ _. 500) (delete_key B J path kv_prefix [] r.message_id)
        (λ _. pure (answer 200 (note (codes "ok"))))

  -- A path that ends in a slash goes on to DeleteKey as well.
  delete_at : Request → Bytes → Exec (Node B) Response
  unfolding kv_delete_path
  delete_at r path =
      if has_suffix slash path
      then catch_call delete_status (delete_bucket B J path kv_prefix [] r.message_id)
          (λ _. kv_delete_path r path)
      else kv_delete_path r path

  unfoldable pub kv_delete_handler : Request → Exec (Node B) Response
  unfolding delete_at
  kv_delete_handler r = do path ← lift (trim_path r.path kv_url); delete_at r path

  unfoldable pub kv_handler : ℕ → Request → Exec (Node B) Response
  kv_handler depth r =
      if eqb r.method (codes "GET")
      then (λ n. (kv_get_handler depth r n, n))
      else if eqb r.method (codes "POST")
      then kv_put_handler r
      else if eqb r.method (codes "DELETE")
      then kv_delete_handler r
      else pure (answer 405 (note (codes "Method " ++ (r.method ++ codes " is not allowed"))))
