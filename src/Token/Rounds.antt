-- ===== src/Token/Rounds.antt =====
-- token.go Start: the rounds of the loop of the token store. The gauges are left out.
pub mod Cycle
use cave.Base.{
  ℕ, suc, ◌%◌, ◌==◌, Option, none, some, List, [], ◌∷◌, Bytes, if◌then◌else◌, Dict, Outcome, ret,
  fail, panic,
}
use cave.Types.{Time, Message, Codec}
use cave.Token.{Token, TokenStore, entries, erase_entry, handle_update, cleanup}

-- What an idle round reads if it cleans up: the clock, anew for each entry and twice, and the UUID of a
-- message.
pub record Idle : Type 0 where
  pub clock : Bytes → Time
  pub clock' : Bytes → Time
  pub id : Bytes

-- What the select of a round finds: a message, or nothing. A termination signal ends the loop, and
-- with it the list of its rounds.
pub data Turn : Type 0 where
  hears : Message → Turn
  idles : Idle → Turn

-- The local variable idx and the store. A round waits for 100 ms, so that idx does not overflow.
abbrev pub Loop : Type 0
Loop = ℕ × TokenStore

-- After HandleUpdate: an error is only logged; `none` is a loop that goes no further.
abbrev pub after_update : ℕ → Option (Outcome (Unit {0}) × TokenStore) → Option Loop
after_update idx none = none
after_update idx (some (ret u, t)) = some (idx, t)
after_update idx (some (fail e, t)) = some (idx, t)
after_update idx (some (panic, t)) = none

abbrev pub restart : Option TokenStore → Option Loop
restart none = none
restart (some t) = some (0, t)

abbrev pub and_round : Option Loop → (Loop → Option Loop) → Option Loop
and_round none f = none
and_round (some l) f = f l

module _ (tokens : Codec (Option (Dict Token))) (messages : Codec Message) where
  -- The body of the loop after idx++.
  unfoldable pub turn : Turn → ℕ → TokenStore → Option Loop
  turn (hears m) idx t = after_update idx (handle_update tokens messages m t)
  turn (idles i) idx t =
      if idx % 100 == 0
      then restart (cleanup tokens messages i.clock i.clock' i.id t)
      else some (idx, t)

  -- The rounds of Start.
  unfoldable pub rounds : List Turn → Loop → Option Loop
  unfolding turn
  rounds [] l = some l
  rounds (x ∷ xs) (idx, t) = and_round (turn x (suc idx) t) (rounds xs)
