-- ===== src/Conductor/Handler.antt =====
-- The message handler that `ConductorCompiler.build` of faust/transport/conductor.py compiles for
-- the channels of a partition.
use faust.Common.{
  ℕ, Bool, true, false, not, List, [], ◌∷◌, ◌++◌, Option, none, some, if◌then◌else◌, nat_beq,
  contains, nat_eq, map, length, keep,
}
use faust.Types.{Message, incref, ack}
use faust.Conductor.{Channel}

-- What `decode` comes to: an event, or one of the two exceptions.
pub data Decoded (E : Type 0) : Type 0 where
  event : E → Decoded E
  key_decode_error value_decode_error : Decoded E

-- The variables of the loop. The first event is kept with its `keyid`.
pub record Loop (E : Type 0) : Type 0 where
  pub first : Option (E × ℕ)
  pub delivered : List (ℕ × E)
  pub full : List (ℕ × E)

-- What comes of a message: the events put in queues, the channels told of an exception, and
-- whether the consumer is asked to acknowledge it.
pub record Handled (E : Type 0) : Type 0 where
  pub message : Message
  pub puts : List (ℕ × E)
  pub told : List ℕ
  pub final : Bool

module _ {E : Type 0} where
  abbrev pub keep_first : Option (E × ℕ) → E → ℕ → Option (E × ℕ)
  keep_first none e keyid = some (e, keyid)
  keep_first (some first) e keyid = some first

  -- `channels - delivered`
  abbrev pub remaining : List Channel → List (ℕ × E) → List ℕ
  remaining channels delivered =
      keep (λ i. not (contains (map (λ d. d.0) delivered) i)) (map (λ c. c.ident) channels)

  abbrev pub no_loop : Loop E
  no_loop = record { first = none; delivered = []; full = [] }

  -- The events of full queues are put too, when there is room.
  abbrev pub finish : Message → List Channel → Loop E × Bool → Handled E
  finish m channels (l, false) = record {
    message = m;
    puts = l.delivered ++ l.full;
    told = [];
    final = false;
  }
  finish m channels (l, true) =
      let told = remaining channels l.delivered in
      let a = ack m (length told) in
      record { message = a.0; puts = l.delivered; told = told; final = a.1 }

  -- `if event is None ... elif keyid == event_keyid ...`
  unfoldable pub event_for : (Channel → Decoded E) → Option (E × ℕ) → Channel → Decoded E
  event_for decode none channel = decode channel
  event_for decode (some (e, keyid)) channel =
      if nat_beq channel.keyid keyid then event e else decode channel

  abbrev pub hand_over : (ℕ → Bool) → Loop E → Channel → E → Loop E
  hand_over is_full l channel e =
      if is_full channel.ident
      then record l {
        first = keep_first l.first e channel.keyid;
        full = l.full ++ (channel.ident, e) ∷ [];
      }
      else record l {
        first = keep_first l.first e channel.keyid;
        delivered = l.delivered ++ (channel.ident, e) ∷ [];
      }

  -- The loop over the channels, and whether an exception ended it
  abbrev pub after_decode : (ℕ → Bool) → Loop E → Channel → Decoded E → Loop E × Bool
  after_decode is_full l channel (event e) = (hand_over is_full l channel e, false)
  after_decode is_full l channel key_decode_error = (l, true)
  after_decode is_full l channel value_decode_error = (l, true)

module _ {E : Type 0} (decode : Channel → Decoded E) (is_full : ℕ → Bool) where
  unfoldable pub deliver : Loop E → List Channel → Loop E × Bool
  unfolding event_for
  deliver l [] = (l, false)
  deliver l (channel ∷ channels) =
      let r = after_decode is_full l channel (event_for decode l.first channel) in
      let rest = deliver r.0 channels in if r.1 then (r.0, true) else rest

  unfoldable pub on_message : Message → List Channel → Handled E
  unfolding deliver
  on_message m [] = record { message = m; puts = []; told = []; final = false }
  on_message m (channel ∷ channels) =
      finish (incref m (length (channel ∷ channels))) (channel ∷ channels)
        (deliver no_loop (channel ∷ channels))
