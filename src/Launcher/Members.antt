-- ===== src/Launcher/Members.antt =====
-- Which pids `terminate_children` reaches.
use mathlib.Core.List.{Memᴰ}
use nsysu_network_applicatio.Prelude.{
  ℕ, zero, suc, ◌<◌, ◌⊎◌, refl, List, [], ◌∷◌, ◌++◌, All, arith, inl, inr,
}
use nsysu_network_applicatio.Prelude.Int.{ℤ, pos}
use nsysu_network_applicatio.Launcher.{killed, killed_workers}

unfoldable pub Within : List ℕ → List ℕ → Type 0
Within ps qs = All (λ p. Memᴰ p qs) ps

pub mem-left : (p : ℕ) (ps qs : List ℕ) → Memᴰ p ps → Memᴰ p (ps ++ qs)
mem-left p [] qs m = elim m [ ]
mem-left p (q ∷ ps) qs (Memᴰ.head e) = Memᴰ.head e
mem-left p (q ∷ ps) qs (Memᴰ.tail m) = Memᴰ.tail (mem-left p ps qs m)

pub mem-right : (p : ℕ) (ps qs : List ℕ) → Memᴰ p qs → Memᴰ p (ps ++ qs)
mem-right p [] qs m = m
mem-right p (q ∷ ps) qs m = Memᴰ.tail (mem-right p ps qs m)

pub mem-cases : (p : ℕ) (ps qs : List ℕ) → Memᴰ p (ps ++ qs) → Memᴰ p ps ⊎ Memᴰ p qs
mem-cases p [] qs m = inr m
mem-cases p (q ∷ ps) qs (Memᴰ.head e) = inl (Memᴰ.head e)
mem-cases p (q ∷ ps) qs (Memᴰ.tail m) = elim (mem-cases p ps qs m) [
  | inl here ↦ inl (Memᴰ.tail here)
  | inr there ↦ inr there
]

pub Within-mono :
    (ps qs rs : List ℕ) → ((p : ℕ) → Memᴰ p qs → Memᴰ p rs) → Within ps qs → Within ps rs
unfolding Within
Within-mono [] qs rs f w = tt
Within-mono (p ∷ ps) qs rs f w = (f p w.0, Within-mono ps qs rs f w.1)

pub mem-killed : (pid : ℕ) → 0 < pid → Memᴰ pid (killed (pos pid))
unfolding killed
mem-killed zero h = absurd (omega arith)
mem-killed (suc n) h = Memᴰ.head refl

-- nothing is lost where a slot without a child is written
pub mem-slot :
    (p : ℕ) (front back : List ℤ) (v : ℤ)
    → Memᴰ p (killed_workers (front ++ pos 0 ∷ back))
    → Memᴰ p (killed_workers (front ++ v ∷ back))
unfolding killed_workers killed
mem-slot p [] back v m = mem-right p (killed v) (killed_workers back) m
mem-slot p (x ∷ front) back v m =
    elim (mem-cases p (killed x) (killed_workers (front ++ pos 0 ∷ back)) m) [
      | inl here ↦ mem-left p (killed x) (killed_workers (front ++ v ∷ back)) here
      | inr there ↦
          mem-right p (killed x) (killed_workers (front ++ v ∷ back))
            (mem-slot p front back v there)
    ]

pub mem-new :
    (p : ℕ) (front back : List ℤ) → 0 < p → Memᴰ p (killed_workers (front ++ pos p ∷ back))
unfolding killed_workers
mem-new p [] back h = mem-left p (killed (pos p)) (killed_workers back) (mem-killed p h)
mem-new p (x ∷ front) back h =
    mem-right p (killed x) (killed_workers (front ++ pos p ∷ back)) (mem-new p front back h)
