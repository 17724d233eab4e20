-- ===== src/Kv/Value.antt =====
-- kv.go Put and Get: the object that holds a value.
use cave.Base.{◌≡◌, Bool, true, false, List, [], Bytes, if◌then◌else◌, ret}
use cave.Types.{Time, KvObject, ReadsBack}
use cave.Bolt.{Bolt, IsBolt}
use cave.Kv.{Json, Node, put, get, get_object}
use cave.Kv.Put.{get_object-put_object}

-- The object that Put builds.
abbrev pub stored_object : Json → Bytes → Bool → Time → KvObject
stored_object J value secret now = record {
  last_updated = now;
  secret = secret;
  value = value;
  locks = [];
  plaintext = if J.is_json value then false else true;
}

module _ (B : Bolt) (L : IsBolt B) (J : Json) where
  -- A Put that succeeds has stored this object, if it survives its encoding.
  pub get_object-put :
      (key value prefix : Bytes) (secret : Bool) (e : List Bool) (now : Time) (id : Bytes)
      (n : Node B) {u : Unit {0}}
      → ReadsBack J.objects (stored_object J value secret now)
      → (put B J key value prefix secret e now id n).0 ≡ ret u
      → get_object B J key prefix (put B J key value prefix secret e now id n).1
        ≡ ret (stored_object J value secret now)
  unfolding put
  get_object-put key value prefix secret e now id n back h =
      get_object-put_object B L J key (stored_object J value secret now) prefix secret e id n back h

  -- Get then gives the value.
  pub get-put :
      (key value prefix : Bytes) (secret : Bool) (e : List Bool) (now : Time) (id : Bytes)
      (n : Node B) {u : Unit {0}}
      → ReadsBack J.objects (stored_object J value secret now)
      → (put B J key value prefix secret e now id n).0 ≡ ret u
      → get B J key prefix (put B J key value prefix secret e now id n).1 ≡ ret value
  unfolding get
  get-put key value prefix secret e now id n {u} back h =
      rw (get_object-put key value prefix secret e now id n {u = u} back h)
