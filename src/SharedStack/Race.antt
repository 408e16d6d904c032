-- ===== src/SharedStack/Race.antt =====
-- The read behind the post in `pop`.
use nsysu_network_applicatio.Prelude.{ℕ, suc, ◌+◌, ◌-◌, ◌<◌, ◌%◌, ◌≡◌, List, [], ◌∷◌, some, arith}
use nsysu_network_applicatio.SharedStack.{
  Item, Memory, push, take_top, top_item, popping, System, consumer_step, Producer, pushing, run,
  step, consume, produce, popped, producers_step, producer_step,
}

-- What `pop` returns, where the memory it left at the post is read at once, is the item that the
-- last `push` put on the stack; and the stack is what it was before that push.
take_top-push :
    (item : Item) (max_size : ℕ) (m m' m'' : Memory)
    → m.shared_index < max_size - 1
    → push item max_size m ≡ some m'
    → take_top m' ≡ some m''
    → top_item m'' ≡ item × m''.shared_index ≡ m.shared_index
unfolding push take_top
take_top-push item max_size m m' m'' room p t = ground arith

module _ (max_size : ℕ) (s : System) (k left pid todo random : ℕ) (ps : List Producer)
    (pops : s.consumer ≡ popping left) (height : s.memory.shared_index ≡ suc k)
    (room : k < max_size - 1) (pushes : s.producers ≡ pushing pid (suc todo) ∷ ps) where
  -- The consumer, about to pop, adds the item at the top to its sum if it reads the item before a
  -- producer pushes; if the producer pushes between the post in `pop` and the read, it adds what
  -- stands one slot above the top instead, and the item at the top is lost, since the new one takes
  -- its slot. In both orders the stack is as high in the end.
  pub read_races :
      let kept = run max_size s (consume ∷ consume ∷ produce 0 random ∷ []) in
      let lost = run max_size s (consume ∷ produce 0 random ∷ consume ∷ []) in
      (kept.sum ≡ s.sum + (s.memory.data_at k).random_num)
      × (lost.sum ≡ s.sum + (s.memory.data_at (suc k)).random_num)
      × ((lost.memory.data_at k).random_num ≡ random % 10)
      × (kept.memory.shared_index ≡ lost.memory.shared_index)
  unfolding run step consumer_step popped take_top producers_step producer_step push
  read_races = rw (pops, height, pushes) (ground arith)
