-- ===== src/Tests/ConsumerRuns.antt =====
-- The consumer on one partition.
use faust.Common.{
  ℕ, ◌≡◌, refl, Bool, true, false, [], ◌∷◌, none, some, arith, String, string_eq, nat_eq,
}
use faust.Common.Dict.{Dict, get, put}
use faust.Common.ListKeys.{list_eq}
use faust.Types.{Tp, tp_eq, Message}
use faust.Consumer.{Consumer, get_default}
use faust.Consumer.Offsets.{
  Pending, committed_behind, new_offset, first_run, maximum, last, stuff_to_add,
}
use faust.Common.Order.{sorted_by}
use faust.Consumer.Offsets.PassesOver.{new_offset-passes_over}
use faust.Consumer.Acks.{note_gap, note_gap-covers_message}
use faust.Consumer.Commit.{commit}
use faust.Consumer.Transactions.{
  in_transaction, commit_transactions, by_transactional_id, commit_transactions_lem,
}
use faust.Consumer.Commit.Monotone.{AtLeast, committed, commit-monotone}
use faust.Tests.Intervals.{list_tree, covers}

abbrev pub orders : Tp
orders = record { topic = "orders"; partition = 0 }

abbrev pub prices : Tp
prices = record { topic = "prices"; partition = 0 }

-- Offset 5 is committed, 5, 6, 8 and 10 are acknowledged, and 7 is in the gap.
abbrev pending : Pending list_tree
pending = record {
  acked = 6 ∷ 5 ∷ 8 ∷ 10 ∷ [];
  acked_index = 6 ∷ 5 ∷ 8 ∷ 10 ∷ [];
  gap = (7, 8) ∷ [];
}

abbrev pub consumer : Consumer list_tree
consumer = record {
  active_partitions = some (orders ∷ []);
  paused_partitions = [];
  buffered_partitions = [];
  flow_active = true;
  can_resume_flow = true;
  suspend_flow = false;
  acked = (orders, 6 ∷ 5 ∷ []) ∷ (prices, 3 ∷ []) ∷ [];
  acked_index = (orders, 6 ∷ 5 ∷ []) ∷ (prices, 3 ∷ []) ∷ [];
  gap = [];
  read_offset = (orders, some 6) ∷ [];
  committed_offset = (orders, some 5) ∷ (prices, some 1) ∷ [];
  unacked_messages = 1 ∷ [];
  n_acked = 2;
}

abbrev message : ℕ → Message
message ident = record { ident = ident; tp = orders; offset = 7; acked = false; refcount = 1 }

abbrev pub all_topics : String → Bool
all_topics topic = true

abbrev works : Dict Tp ℕ → Bool
works offsets = true

-- The acknowledged offsets and the gap are taken up to 8.
new_offset_run : (new_offset list_tree (some 5) pending).0 ≡ some 9
unfolding new_offset sorted_by stuff_to_add maximum committed_behind last first_run
new_offset_run = refl

abbrev left : Pending list_tree
left = record { acked = 10 ∷ []; acked_index = 10 ∷ []; gap = [] }

note_gap-covers_message_example :
    covers (get_default (note_gap list_tree consumer all_topics orders 9 (some 6)).gap orders []) 9
    ≡ true
unfolding get
note_gap-covers_message_example =
    note_gap-covers_message list_tree consumer all_topics orders 6 9 (omega arith) (omega arith)
      refl refl

commit-monotone_example : AtLeast (committed list_tree consumer prices) (
    committed list_tree
      (commit list_tree works works false false consumer (orders ∷ []) none).0
      prices)
commit-monotone_example =
    commit-monotone list_tree works works false false consumer (orders ∷ []) none prices

new_offset-passes_over_example :
    (new_offset list_tree (some 5) (record { acked = 6 ∷ []; acked_index = 6 ∷ []; gap = [] })).0
    ≡ some 7
new_offset-passes_over_example = new_offset-passes_over list_tree 5 (6 ∷ []) [] (omega arith) refl

abbrev one_group : String → ℕ
one_group topic = 4

commit_transactions_example :
    in_transaction one_group ((4 ∷ 0 ∷ [], (orders, 6) ∷ (prices, 2) ∷ []) ∷ []) (4 ∷ 0 ∷ []) prices
    ≡ some 2
unfolding get put commit_transactions by_transactional_id
commit_transactions_example =
    commit_transactions_lem one_group ((orders, 6) ∷ (prices, 2) ∷ [])
      ((4 ∷ 0 ∷ [], (orders, 6) ∷ (prices, 2) ∷ []) ∷ []) (4 ∷ 0 ∷ []) prices (refl, (refl, tt))
      refl
