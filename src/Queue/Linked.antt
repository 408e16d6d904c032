-- ===== src/Queue/Linked.antt =====
-- When a heap holds a queue: the nodes from the head to the tail, in order.
use nsysu_network_applicatio.Prelude.{
  ◌≡◌, ◌≢◌, refl, ap, ◌∙◌, Bool, true, false, ◌||◌, Option, none, some, List, [], ◌∷◌, ◌++◌, arith,
  ◌==◌,
}
use nsysu_network_applicatio.Prelude.Int.{ℤ}
use nsysu_network_applicatio.Queue.{Ptr, Node, node, Heap, write, Queue}

-- address and identifier of each node
abbrev pub Cells : Type 0
Cells = List (Ptr × ℤ)

abbrev pub values : Cells → List ℤ
values [] = []
values ((p, v) ∷ cs) = v ∷ values cs

abbrev pub addr : Cells → Ptr
addr [] = 0
addr ((p, v) ∷ cs) = p

abbrev pub last_addr : Ptr → Cells → Ptr
last_addr d [] = d
last_addr d ((p, v) ∷ cs) = last_addr p cs

abbrev pub has : Ptr → Cells → Bool
has a [] = false
has a ((p, v) ∷ cs) = a == p || has a cs

-- each node leads to the next, none is NULL, and none stands twice
abbrev pub Linked : Heap → Cells → Type 0
Linked h [] = Unit {0}
Linked h ((p, v) ∷ cs) =
    (h p ≡ some (node v (addr cs))) × (p ≢ 0) × (has p cs ≡ false) × Linked h cs

pub record IsQueue (h : Heap) (q : Queue) (cs : Cells) : Type 0 where
  pub first : q.head ≡ addr cs
  pub last : q.tail ≡ last_addr 0 cs
  pub chain : Linked h cs

-- A change at an address outside the chain leaves the chain.
pub frame :
    (h : Heap) (p : Ptr) (c : Option Node) (cs : Cells)
    → has p cs ≡ false
    → Linked h cs
    → Linked (write h p c) cs
frame h p c [] out l = tt
frame h p c ((a, v) ∷ cs) out l = ground (arith, frame h p c cs)

-- An address that holds no node is not in the chain.
pub not_has_of_none :
    (h : Heap) (p : Ptr) (cs : Cells) → h p ≡ none → Linked h cs → has p cs ≡ false
not_has_of_none h p [] e l = refl
not_has_of_none h p ((a, v) ∷ cs) e l = ground (arith, not_has_of_none h p cs)

pub last-ne-zero :
    (h : Heap) (p : Ptr) (v : ℤ) (cs : Cells) → Linked h ((p, v) ∷ cs) → last_addr p cs ≢ 0
last-ne-zero h p v [] l = l.1
last-ne-zero h p v ((a, w) ∷ cs) l = last-ne-zero h a w cs l.3

-- The identifier in the last node.
abbrev pub last_value : ℤ → Cells → ℤ
last_value d [] = d
last_value d ((p, v) ∷ cs) = last_value v cs

pub load_last :
    (h : Heap) (p : Ptr) (v : ℤ) (cs : Cells)
    → Linked h ((p, v) ∷ cs)
    → h (last_addr p cs) ≡ some (node (last_value v cs) 0)
load_last h p v [] l = l.0
load_last h p v ((a, w) ∷ cs) l = load_last h a w cs l.3

has_last : (p : Ptr) (v : ℤ) (cs : Cells) → has (last_addr p cs) ((p, v) ∷ cs) ≡ true
has_last p v [] = ground arith
has_last p v ((a, w) ∷ cs) = ground (arith, has_last a w cs)

has-snoc :
    (p fresh : Ptr) (w : ℤ) (cs : Cells) → has p (cs ++ (fresh, w) ∷ []) ≡ (has p cs || p == fresh)
has-snoc p fresh w [] = ground arith
has-snoc p fresh w ((a, v) ∷ cs) = ground (arith, has-snoc p fresh w cs)

ne_last : (p a : Ptr) (u : ℤ) (cs : Cells) → has p ((a, u) ∷ cs) ≡ false → p ≢ last_addr a cs
ne_last p a u cs out e = cc (has_last a u cs, ap (λ x. has x ((a, u) ∷ cs)) e)

write_other : (h : Heap) (p : Ptr) (c : Option Node) (a : Ptr) → a ≢ p → write h p c a ≡ h a
write_other h p c a ne = ground arith

outside-snoc :
    (p fresh : Ptr) (w : ℤ) (cs : Cells)
    → has p cs ≡ false
    → fresh ≢ p
    → has p (cs ++ (fresh, w) ∷ []) ≡ false
outside-snoc p fresh w cs out ne = ground (arith, has-snoc p fresh w cs)

head_apart : (a p : Ptr) (v : ℤ) (cs : Cells) → has a ((p, v) ∷ cs) ≡ false → a ≢ p
head_apart a p v cs out = ground arith

tail_apart : (a p : Ptr) (v : ℤ) (cs : Cells) → has a ((p, v) ∷ cs) ≡ false → has a cs ≡ false
tail_apart a p v cs out = ground arith

-- The last node led to a new one.
pub extend :
    (h : Heap) (fresh : Ptr) (w : ℤ) (p : Ptr) (v : ℤ) (cs : Cells)
    → fresh ≢ 0
    → h fresh ≡ some (node w 0)
    → has fresh ((p, v) ∷ cs) ≡ false
    → Linked h ((p, v) ∷ cs)
    → Linked
        (write h (last_addr p cs) (some (node (last_value v cs) fresh)))
        ((p, v) ∷ cs ++ (fresh, w) ∷ [])
extend h fresh w p v [] ne new out l = ground arith
extend h fresh w p v ((a, u) ∷ cs) ne new out l = (
  write_other h (last_addr a cs) (some (node (last_value u cs) fresh)) p (ne_last p a u cs l.2)
      ∙ l.0,
  l.1,
  outside-snoc p fresh w ((a, u) ∷ cs) l.2 (head_apart fresh p v ((a, u) ∷ cs) out),
  extend h fresh w a u cs ne new (tail_apart fresh p v ((a, u) ∷ cs) out) l.3,
)
