-- ===== src/Producer.antt =====
-- `ProducerBuffer` of faust/transport/producer.py, with the queue of its own (no producer thread).
-- While a flush waits, other tasks put messages, and the task `_handle_pending` goes from one of
-- its `await`s to the next; a wait comes with what is done during it.
pub mod Flushing
pub mod Ebb
use faust.Common.{
  ℕ, ◌+◌, ◌≡◌, Bool, true, false, not, ◌&&◌, ◌||◌, List, [], ◌∷◌, ◌++◌, Option, none, some,
  if◌then◌else◌, length, nat_beq, ltb, leb, Result, ok, err, runtime_error, out_of_fuel,
}

-- `in_flight` is the message that `_handle_pending` has taken and not sent yet, and `sent` are those
-- it has sent.
pub record Buffer (M : Type 0) : Type 0 where
  pub pending : List M
  pub in_flight : Option M
  pub sent : List M
  pub message_sent : Bool
  pub is_running : Bool

pub data Act (M : Type 0) : Type 0 where
  puts : M → Act M
  works : Act M

abbrev pub below : ℕ → Option ℕ → Bool
below flushed none = true
below flushed (some max_messages) = ltb flushed max_messages

module _ {M : Type 0} where
  unfoldable pub put : Buffer M → M → Buffer M
  put b m = record b { pending = b.pending ++ m ∷ [] }

  abbrev pub get_pending : Buffer M → List M → Buffer M
  get_pending b [] = b
  get_pending b (m ∷ ms) = record b { pending = ms; in_flight = some m }

  abbrev pub work_on : Buffer M → Option M → Buffer M
  work_on b none = get_pending b b.pending
  work_on b (some m) = record b { sent = b.sent ++ m ∷ []; in_flight = none; message_sent = true }

  -- `_handle_pending`, from one `await` to the next: it takes a message, or has sent it.
  unfoldable pub handle_pending : Buffer M → Buffer M
  handle_pending b = work_on b b.in_flight

  unfoldable pub size : Buffer M → ℕ
  size b = length b.pending

  abbrev pub act : Buffer M → Act M → Buffer M
  unfolding put handle_pending
  act b (puts m) = put b m
  act b works = handle_pending b

  unfoldable pub act_all : Buffer M → List (Act M) → Buffer M
  act_all b [] = b
  act_all b (a ∷ acts) = act_all (act b a) acts

  -- `flush_atmost`, with what is done during each wait: a wait in which nothing is sent times out.
  -- `out_of_fuel` is no error of the program; it says that more waits were given no account of.
  unfoldable pub flush_atmost : Option ℕ → ℕ → List (List (Act M)) → Buffer M → Buffer M × Result ℕ
  unfolding size act_all
  flush_atmost max_messages flushed [] b =
      if not b.is_running && not (nat_beq (size b) 0)
      then (b, err runtime_error)
      else if not (nat_beq (size b) 0) && below flushed max_messages
      then (b, err out_of_fuel)
      else (b, ok flushed)
  flush_atmost max_messages flushed (acts ∷ waits) b =
      let b' = act_all (record b { message_sent = false }) acts in
      let rest = flush_atmost max_messages (flushed + 1) waits b' in
      if not b.is_running && not (nat_beq (size b) 0)
      then (b, err runtime_error)
      else if not (nat_beq (size b) 0) && below flushed max_messages
      then (if b'.message_sent then rest else (b', ok flushed))
      else (b, ok flushed)

  unfoldable pub flush : List (List (Act M)) → Buffer M → Buffer M × Result ℕ
  unfolding flush_atmost
  flush waits b = flush_atmost none 0 waits b

  -- `wait_until_ebb`: the number of messages that were flushed is not looked at.
  unfoldable pub wait_until_ebb : ℕ → List (List (Act M)) → Buffer M → Buffer M × Result ℕ
  unfolding flush_atmost size
  wait_until_ebb max_messages waits b =
      if ltb max_messages (size b) then flush_atmost (some max_messages) 0 waits b else (b, ok 0)
