-- ===== src/Kv/View/Agree.antt =====
-- Replicas of the engine: nodes that apply the same changes.
use cave.Base.{◌≡◌, ap, sym, ◌∙◌, none, some, List, [], ◌∷◌, Bytes, eqb, if◌then◌else◌, Err, fail}
use cave.Bolt.{Bolt, IsBolt}
use cave.Kv.{Json, Node}
use cave.Kv.Reach.{IsShaped}
use cave.Kv.View.{Content, view}
use cave.Kv.View.Refines.{Edit, set, unset, content, Trace, Trace-content}

-- What a map has for a key after edits depends on what it had for this key.
content-agree :
    (es : List Edit) (f g : Content) (key : Bytes)
    → f key ≡ g key
    → content es f key ≡ content es g key
unfolding content
content-agree [] f g key h = h
content-agree (set k o ∷ es) f g key h =
    ap (λ w. if eqb k key then some o else w) (content-agree es f g key h)
content-agree (unset k ∷ es) f g key h =
    ap (λ w. if eqb k key then none else w) (content-agree es f g key h)

module _ (B : Bolt) (L : IsBolt B) (J : Json) (prefix : Bytes) where
  -- Two nodes that show the same for every key, and on which the same puts and deletions then take
  -- place in the same order, each asked for at the node or heard from another one, the puts with
  -- success and of objects that survive their encoding, show the same for every key again, if their
  -- stores had their shape at the start and json.Unmarshal refuses the empty text.
  pub Trace-agree :
      {n m n' m' : Node B} {es : List Edit} {x : Err}
      → J.objects.unmarshal [] ≡ fail x
      → IsShaped B L J n
      → IsShaped B L J n'
      → ((key : Bytes) → view B L J prefix n key ≡ view B L J prefix n' key)
      → Trace B L J prefix n m es
      → Trace B L J prefix n' m' es
      → (key : Bytes) → view B L J prefix m key ≡ view B L J prefix m' key
  Trace-agree {n} {n'} {es} {x} empty h h' same t t' key =
      Trace-content B L J prefix {x = x} empty h t key
      ∙ content-agree es (view B L J prefix n) (view B L J prefix n') key (same key)
      ∙ sym (Trace-content B L J prefix {x = x} empty h' t' key)
