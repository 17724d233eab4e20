-- ===== src/Kv/View.antt =====
-- The objects that a node shows under one prefix, as a function of the key, and what PutObject and
-- DeleteKey do to them.
pub mod Puts
pub mod Deletes
pub mod Refines
pub mod Agree
pub mod Feed
use cave.Base.{
  ◌≡◌, ◌≢◌, ◌↔◌, ◌⊎◌, refl, sym, ap, ◌∙◌, subst, inl, inr, Bool, true, false, Option, none, some,
  List, [], ◌∷◌, Bytes, eqb, eqb_iff, arith, Err, Outcome, ret, fail, panic, Outcome-cases,
  Option-cases, Bool-cases, if◌then◌else◌, ret-inj,
}
use cave.Path.{parse_path}
use cave.Types.{KvObject, ReadsBack}
use cave.Bolt.{Handle, Slot, absent, stored, bucket, Bolt, IsBolt, same_place, create_slot}
use cave.Bolt.Transactions.{update-ret, update-keeps}
use cave.Kv.{Json, Node, walk, put_in, delete_in, put_object, get_object, delete_key}
use cave.Kv.Walk.{extend, IsChain, IsChain-grows, same_place_sound}
use cave.Kv.PutIn.{put_in_lem, PutDone, put_in-round, put-keeps, made, get_in_stored}
use cave.Kv.Frame.{place-ne, get_in-inv, get_object-inv}
use cave.Kv.Put.{
  get_object-put_object, put_object-committed, put_object-db, put_object_fails, put_object_panics,
}
use cave.Kv.Shape.{IsTree, IsLive, IsChain-IsLive}

abbrev pub Content : Type 0
Content = Bytes → Option KvObject

abbrev pub found : Outcome KvObject → Option KvObject
found (ret o) = some o
found (fail e) = none
found panic = none

found-inv : (r : Outcome KvObject) {o : KvObject} → found r ≡ some o → r ≡ ret o
found-inv (ret w) e = cc
found-inv (fail x) e = cc
found-inv panic e = cc

option_ext :
    {A : Type 0} (a b : Option A)
    → ((x : A) → a ≡ some x → b ≡ some x)
    → ((x : A) → b ≡ some x → a ≡ some x)
    → b ≡ a
option_ext none none f g = refl
option_ext none (some y) f g = sym (g y refl)
option_ext (some x) b f g = f x refl

module _ (B : Bolt) (L : IsBolt B) (J : Json) (prefix : Bytes) where
  open L use {slot}

  abbrev pub view : Node B → Content
  view n key = found (get_object B J key prefix n)

  -- The object that a text below a chain of buckets encodes.
  pub record Holds (s : B.State) (key : Bytes) (o : KvObject) : Type 0 where
    pub text : Bytes
    pub root : slot s [] prefix ≡ bucket
    pub chain : IsChain B L s (prefix ∷ []) (parse_path key).0
    pub there : slot s (extend (prefix ∷ []) (parse_path key).0) (parse_path key).1 ≡ stored text
    pub back : J.objects.unmarshal text ≡ ret o

  pub get_object-Holds :
      (key : Bytes) (n : Node B) {o : KvObject} {x : Err}
      → J.objects.unmarshal [] ≡ fail x
      → get_object B J key prefix n ≡ ret o
      → Holds n.db key o
  get_object-Holds key n empty e =
      let (v, read, nonempty, back) = get_object-inv B L J key prefix n empty e in
      let (root, chain, there) = get_in-inv B L _ _ prefix v n.db read nonempty in
      record { text = v; root = root; chain = chain; there = there; back = back }

  pub Holds-get_object :
      (key : Bytes) (n : Node B) {o : KvObject}
      → Holds n.db key o
      → get_object B J key prefix n ≡ ret o
  Holds-get_object key n h =
      let read = get_in_stored B L _ _ prefix h.text n.db h.root h.chain h.there in
      unfold get_object in rw (L.view_lem, read, h.back)

  -- Two nodes whose stores hold the same object under a key show the same.
  pub view-same :
      (key : Bytes) (n m : Node B) {x : Err}
      → J.objects.unmarshal [] ≡ fail x
      → ((o : KvObject) → Holds n.db key o → Holds m.db key o)
      → ((o : KvObject) → Holds m.db key o → Holds n.db key o)
      → view m key ≡ view n key
  view-same key n m {x} empty f g =
      option_ext (view n key) (view m key)
        (λ o e.
          ap found
            (Holds-get_object key m (f o (get_object-Holds key n {x = x} empty (found-inv _ e)))))
        (λ o e.
          ap found
            (Holds-get_object key n (g o (get_object-Holds key m {x = x} empty (found-inv _ e)))))

  -- A key under which nothing is held shows nothing.
  pub view-none :
      (key : Bytes) (n : Node B) {x : Err}
      → J.objects.unmarshal [] ≡ fail x
      → ((o : KvObject) → Holds n.db key o → ⊥)
      → view n key ≡ none
  view-none key n empty h = elim (Outcome-cases (get_object B J key prefix n)) [
    | inl (o, e) ↦ absurd (h o (get_object-Holds key n empty e))
    | inr (inl (y, e)) ↦ ap found e
    | inr (inr e) ↦ ap found e
  ]
