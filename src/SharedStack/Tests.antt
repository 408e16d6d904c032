-- ===== src/SharedStack/Tests.antt =====
-- The theorems on the shared stack with three producers, two of them idle.
use nsysu_network_applicatio.Prelude.{◌≢◌, refl, List, [], ◌∷◌, none, ◌==◌, if◌then◌else◌}
use nsysu_network_applicatio.SharedStack.{
  Item, Memory, push, take_top, System, Move, produce, consume, step, run, start, producers_step,
  producer_step, consumer_step,
}
use nsysu_network_applicatio.SharedStack.Invariant.{pop_finds_item}
use nsysu_network_applicatio.SharedStack.Single.{IsStuck, single_producer-IsStuck}

-- one item is pushed and announced, and the consumer has waited for it
abbrev one_item : List Move
one_item = produce 1 57 ∷ produce 1 0 ∷ consume ∷ []

abbrev claimed : System
claimed = run 3 (start 3 2 100) one_item

pop_finds_item_example : claimed.memory.shared_index ≢ 0 × take_top claimed.memory ≢ none
unfolding run step producers_step producer_step push consumer_step start
pop_finds_item_example = pop_finds_item 3 2 100 one_item 5 refl

abbrev item_nine : Item
item_nine = record { pid = 100; random_num = 9 }

abbrev blank : Item
blank = record { pid = 0; random_num = 0 }

abbrev with_nine : Memory
with_nine = record { data_at = λ i. if i == 0 then item_nine else blank; shared_index = 1 }

single_producer-IsStuck_example : IsStuck 2 100 (run 1 (start 1 2 100) one_item)
single_producer-IsStuck_example = single_producer-IsStuck 2 100 one_item
