-- ===== src/Log/Ends.antt =====
-- log.go Fatal, Panic, Pretty and the middleware. The texts that fmt and json build are arguments.
use cave.Base.{ℕ, Option, none, some, List, [], ◌∷◌, Bytes, codes, eqb, if◌then◌else◌}
use cave.Log.{print, is_logged}

-- How a call of the logger ends: it returns with the channel, waits for room in it for ever, ends the
-- program with a status, or panics with a text.
pub data End : Type 0 where
  returns : List Bytes → End
  waits : End
  exits : ℕ → End
  panics : Bytes → End

-- `format` is fmt.Sprintf at the format of a line, `size` the capacity of the channel.
module _ (format : Bytes → Bytes → Bytes → Bytes → Bytes) (size : ℕ) (stamp : Bytes) where
  abbrev pub ends : Option (List Bytes) → (List Bytes → End) → End
  ends none f = waits
  ends (some c) f = f c

  -- Fatal and FatalF: the line is in the channel when the program ends, and is printed only if Start is
  -- fast enough.
  unfoldable pub fatal : Option Bytes → Bytes → List Bytes → End
  fatal src msg c = ends (print format size stamp (codes "FATAL") src msg c) (λ c'. exits 1)

  -- Panic and PanicF
  unfoldable pub panic_with : Option Bytes → Bytes → List Bytes → End
  panic_with src msg c = panics msg

  -- Pretty: `js` are the indented encodings of the values, the empty text where a value does not encode.
  unfoldable pub pretty : Option Bytes → List Bytes → List Bytes → End
  pretty src [] c = returns c
  pretty src (j ∷ js) c =
      if eqb j (codes "null")
      then pretty src js c
      else ends (print format size stamp (codes "PRETTY") src (10 ∷ j) c) (pretty src js)

  -- What the middleware does after the response to a request: `line` has its status, method and URI,
  -- `scheme` is in capitals.
  unfoldable pub log_request : List Bytes → Bytes → Bytes → Bytes → List Bytes → End
  log_request skip uri scheme line c =
      if is_logged skip uri
      then ends (print format size stamp scheme (some (codes "API")) line c) returns
      else returns c
