-- ===== src/Bolt.antt =====
-- The interface of go.etcd.io/bbolt as kv.go uses it. The store is third-party code, so it is a
-- parameter: `Bolt` holds its operations and `IsBolt` its documented behaviour. A bucket handle is
-- the chain of bucket names that leads to it, innermost first; the transaction itself is `[]`.
pub mod Memory
pub mod Transactions
use cave.Base.{
  ℕ, ◌≡◌, Bool, true, false, Option, none, some, List, [], ◌∷◌, ◌&&◌, Bytes, eqb, path_eqb, length,
  leb, listed, if◌then◌else◌, Err, bucket_not_found, bucket_name_required, key_required,
  key_too_large, value_too_large, incompatible_value, Outcome, ret, fail, panic, Exec,
}

abbrev pub Handle : Type 0
Handle = List Bytes

-- What a bucket holds under one name.
pub data Slot : Type 0 where
  absent : Slot
  stored : Bytes → Slot
  bucket : Slot

pub record Bolt : Type 1 where
  pub State : Type 0
  -- Tx.Bucket and Bucket.Bucket; `none` is the nil bucket
  pub child : State → Handle → Bytes → Option Handle
  pub create : Handle → Bytes → Exec State Handle
  -- Bucket.Get; `none` is nil
  pub get : State → Handle → Bytes → Option Bytes
  pub put : Handle → Bytes → Bytes → Exec State (Unit {0})
  pub delete : Handle → Bytes → Exec State (Unit {0})
  pub delete_bucket : Handle → Bytes → Exec State (Unit {0})
  -- the keys that a Cursor's First and Next yield
  pub keys : State → Handle → List Bytes
  -- DB.Update and DB.View
  pub update : Exec State (Unit {0}) → Exec State (Unit {0})
  pub view : {A : Type 0} → (State → Outcome A) → State → Outcome A

abbrev pub max_key : ℕ
max_key = 32768

abbrev pub max_value : ℕ
max_value = 2147483646

-- The documented effect of each operation on the slot that it names: the result and the new slot.
abbrev pub create_slot : Bytes → Slot → Outcome (Unit {0}) × Slot
create_slot [] s = (fail bucket_name_required, s)
create_slot (c ∷ n) absent = (ret tt, bucket)
create_slot (c ∷ n) (stored v) = (fail incompatible_value, stored v)
create_slot (c ∷ n) bucket = (ret tt, bucket)

abbrev put_fits : Bytes → Bytes → Slot → Outcome (Unit {0}) × Slot
put_fits n v bucket = (fail incompatible_value, bucket)
put_fits n v absent = (ret tt, stored v)
put_fits n v (stored w) = (ret tt, stored v)

abbrev pub put_slot : Bytes → Bytes → Slot → Outcome (Unit {0}) × Slot
put_slot [] v s = (fail key_required, s)
put_slot (c ∷ n) v s =
    if leb (length (c ∷ n)) max_key
    then (if leb (length v) max_value then put_fits (c ∷ n) v s else (fail value_too_large, s))
    else (fail key_too_large, s)

abbrev pub delete_slot : Slot → Outcome (Unit {0}) × Slot
delete_slot absent = (ret tt, absent)
delete_slot (stored v) = (ret tt, absent)
delete_slot bucket = (fail incompatible_value, bucket)

abbrev pub delete_bucket_slot : Slot → Outcome (Unit {0})
delete_bucket_slot absent = fail bucket_not_found
delete_bucket_slot (stored v) = fail incompatible_value
delete_bucket_slot bucket = ret tt

abbrev pub as_handle : Handle → Outcome (Unit {0}) → Outcome Handle
as_handle h (ret _) = ret h
as_handle h (fail e) = fail e
as_handle h panic = panic

abbrev pub child_of : Handle → Bytes → Slot → Option Handle
child_of h n bucket = some (n ∷ h)
child_of h n absent = none
child_of h n (stored v) = none

abbrev pub value_of : Slot → Option Bytes
value_of (stored v) = some v
value_of absent = none
value_of bucket = none

abbrev pub same_place : Handle → Bytes → Handle → Bytes → Bool
same_place p n q m = path_eqb p q && eqb n m

-- Whether `q` is the bucket `p` or lies below it.
abbrev pub below : Handle → Handle → Bool
below p [] = path_eqb p []
below p (n ∷ q) = if path_eqb p (n ∷ q) then true else below p q

abbrev pub is_present : Slot → Bool
is_present absent = false
is_present (stored v) = true
is_present bucket = true

-- What a committed, rolled back or panicking transaction leaves behind.
abbrev pub Updated : {S : Type 0} → S → Outcome (Unit {0}) × S → Outcome (Unit {0}) × S → Type 0
Updated old (ret _, new) r = r ≡ (ret tt, new)
Updated old (fail e, new) r = r ≡ (fail e, old)
Updated old (panic, new) r = r ≡ (panic, old)

-- The documented behaviour, for an open database whose commits do not fail.
pub record IsBolt (B : Bolt) : Type 1 where
  pub slot : B.State → Handle → Bytes → Slot
  -- bbolt stores no empty name
  pub slot-nil : (s : B.State) (p : Handle) → slot s p [] ≡ absent
  pub listed-keys :
      (s : B.State) (p : Handle) (m : Bytes) → listed m (B.keys s p) ≡ is_present (slot s p m)
  pub child_lem : (s : B.State) (p : Handle) (n : Bytes) → B.child s p n ≡ child_of p n (slot s p n)
  pub get_lem : (s : B.State) (p : Handle) (n : Bytes) → B.get s p n ≡ value_of (slot s p n)
  pub create_lem :
      (p : Handle) (n : Bytes) (s : B.State)
      → (B.create p n s).0 ≡ as_handle (n ∷ p) (create_slot n (slot s p n)).0
  pub slot-create :
      (p : Handle) (n : Bytes) (s : B.State) (q : Handle) (m : Bytes)
      → slot (B.create p n s).1 q m
        ≡ (if same_place p n q m then (create_slot n (slot s p n)).1 else slot s q m)
  pub put_lem :
      (p : Handle) (n v : Bytes) (s : B.State) → (B.put p n v s).0 ≡ (put_slot n v (slot s p n)).0
  pub slot-put :
      (p : Handle) (n v : Bytes) (s : B.State) (q : Handle) (m : Bytes)
      → slot (B.put p n v s).1 q m
        ≡ (if same_place p n q m then (put_slot n v (slot s p n)).1 else slot s q m)
  pub delete_lem :
      (p : Handle) (n : Bytes) (s : B.State) → (B.delete p n s).0 ≡ (delete_slot (slot s p n)).0
  pub slot-delete :
      (p : Handle) (n : Bytes) (s : B.State) (q : Handle) (m : Bytes)
      → slot (B.delete p n s).1 q m
        ≡ (if same_place p n q m then (delete_slot (slot s p n)).1 else slot s q m)
  pub delete_bucket_lem :
      (p : Handle) (n : Bytes) (s : B.State)
      → (B.delete_bucket p n s).0 ≡ delete_bucket_slot (slot s p n)
  pub slot-delete_bucket :
      (p : Handle) (n : Bytes) (s : B.State) (q : Handle) (m : Bytes)
      → slot s p n ≡ bucket
      → slot (B.delete_bucket p n s).1 q m
        ≡ (if same_place p n q m then absent else if below (n ∷ p) q then absent else slot s q m)
  pub slot-delete_bucket_fails :
      (p : Handle) (n : Bytes) (s : B.State) (q : Handle) (m : Bytes) (e : Err)
      → (B.delete_bucket p n s).0 ≡ fail e
      → slot (B.delete_bucket p n s).1 q m ≡ slot s q m
  pub update_lem :
      (body : Exec B.State (Unit {0})) (s : B.State) → Updated s (body s) (B.update body s)
  pub view_lem : {A : Type 0} (body : B.State → Outcome A) (s : B.State) → B.view body s ≡ body s
