-- ===== src/Tests/ConductorRuns.antt =====
-- The conductor with three channels.
use faust.Common.{
  ℕ, ◌+◌, ◌≡◌, refl, Bool, true, false, ◌&&◌, List, [], ◌∷◌, Option, none, some, arith, ok, nat_eq,
  nat_beq, length, any, string_eq,
}
use faust.Common.Dict.{get, put}
use faust.Types.{Tp, tp_eq, Message}
use faust.Consumer.Acks
use faust.Conductor.{
  Channel, Conductor, on_partitions_assigned, callback_for_tp, update_tp_index, partitions_of,
  tps_of_topics, add_to_index, update_callbacks,
}
use faust.Conductor.Handler.{Decoded, event, key_decode_error, on_message}
use faust.Conductor.Balance.{on_message-refcount, on_message-told_full}
use faust.Conductor.Routes.{is_routed, wants, on_partitions_assigned_lem}
use faust.Conductor.Callbacks.{or_else, on_partitions_assigned-callbacks}
use faust.Conductor.Acks.{event_ack, event_acks, event_acks_lem}
use faust.Tests.Intervals.{list_tree}
use faust.Tests.ConsumerRuns.{orders, prices, consumer, all_topics}

abbrev channel : ℕ → ℕ → Option (List Tp) → Channel
channel ident keyid own = record {
  ident = ident;
  topics = "orders" ∷ [];
  acks = true;
  active_partitions = own;
  keyid = keyid;
}

abbrev json_channel : Channel
json_channel = channel 1 10 none

abbrev text_channel : Channel
text_channel = channel 2 20 none

abbrev isolated : Channel
isolated = channel 3 10 (some (prices ∷ []))

abbrev decode : Channel → Decoded ℕ
decode c = elim (nat_beq c.keyid 10) [ true ↦ event 77 | false ↦ key_decode_error ]

abbrev first_full : ℕ → Bool
first_full ident = nat_beq ident 1

abbrev message : ℕ → Message
message refcount = record { ident = 5; tp = orders; offset = 7; acked = false; refcount = refcount }

abbrev conductor : Conductor
conductor = record {
  topics = json_channel ∷ isolated ∷ [];
  tp_index = [];
  topic_name_index = [];
  tp_to_callback = (orders, 9 ∷ []) ∷ [];
  acking_topics = [];
}

on_message-refcount_example :
    (on_message decode first_full
      (message 0)
      (json_channel ∷ isolated ∷ text_channel ∷ [])).message.refcount
    ≡ 0
      + length
          (on_message decode first_full
            (message 0)
            (json_channel ∷ isolated ∷ text_channel ∷ [])).puts
on_message-refcount_example =
    on_message-refcount decode first_full (message 0) (json_channel ∷ isolated ∷ text_channel ∷ [])
      refl (refl, (refl, (refl, tt)))

on_message-told_full_example :
    ((on_message decode first_full (message 0) (json_channel ∷ text_channel ∷ [])).puts ≡ [])
    × ((on_message decode first_full (message 0) (json_channel ∷ text_channel ∷ [])).told
        ≡ 1 ∷ 2 ∷ [])
on_message-told_full_example =
    on_message-told_full decode first_full (message 0) json_channel text_channel 77 refl refl refl
      refl

event_acks_example :
    ((event_acks list_tree consumer all_topics (message 3) 2).0 ≡ consumer)
    × (event_ack list_tree
          (event_acks list_tree consumer all_topics (message 3) 2).0
          all_topics
          (event_acks list_tree consumer all_topics (message 3) 2).1
        ≡ Acks.ack list_tree consumer all_topics (message 0))
event_acks_example = event_acks_lem list_tree consumer all_topics (message 3) 2 refl (omega arith)

on_partitions_assigned_example :
    (after : Conductor) × (on_partitions_assigned conductor (orders ∷ prices ∷ []) ≡ ok after)
    × ((tp : Tp) (j : ℕ)
        → is_routed after.tp_index tp j
          ≡ any (λ ch. nat_beq ch.ident j && wants (orders ∷ prices ∷ []) tp ch) conductor.topics)
on_partitions_assigned_example = on_partitions_assigned_lem conductor (orders ∷ prices ∷ []) refl

abbrev assigned : Conductor
assigned = record conductor {
  tp_index = (prices, 3 ∷ []) ∷ [];
  tp_to_callback = (orders, 9 ∷ []) ∷ (prices, 3 ∷ []) ∷ [];
}

on_partitions_assigned-callbacks_example :
    callback_for_tp assigned orders
    ≡ or_else (get assigned.tp_index orders) (callback_for_tp conductor orders)
unfolding on_partitions_assigned update_tp_index partitions_of tps_of_topics add_to_index
    update_callbacks get put
on_partitions_assigned-callbacks_example =
    on_partitions_assigned-callbacks conductor assigned (prices ∷ []) orders refl
