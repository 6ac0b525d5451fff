-- ===== src/ConcurrentDht/Weights.antt =====
-- Sums over the stages of the workers.
use dht_crawler.Base.{
  ℕ, zero, suc, ◌+◌, ◌≤◌, ◌≡◌, refl, List, [], ◌∷◌, ◌++◌, some, Bool, true, Bytes, bytes_key,
  get_elem?, modify, if◌then◌else◌, arith, Bytes-discrete,
}
use dht_crawler.ConcurrentDht.{
  Stage, created, looping, drawing, ended, claimed, counted, new_workers, all_ended,
}

-- The stages of some workers, weighed.
unfoldable pub weight : (Stage → ℕ) → List Stage → ℕ
weight f [] = 0
weight f (w ∷ ws) = f w + weight f ws

pub weight-modify :
    (f : Stage → ℕ) (i : ℕ) (old new : Stage) (ws : List Stage)
    → get_elem? ws i ≡ some old
    → weight f (modify i (λ _. new) ws) + f old ≡ weight f ws + f new
unfolding weight modify
weight-modify f i old new [] e = absurd (ground (arith, e))
weight-modify f zero old new (w ∷ ws) e = ground (arith, e)
weight-modify f (suc i) old new (w ∷ ws) e = omega (arith, weight-modify f i old new ws e)

pub weight-append :
    (f : Stage → ℕ) (vs ws : List Stage) → weight f (vs ++ ws) ≡ weight f vs + weight f ws
unfolding weight
weight-append f [] ws = omega arith
weight-append f (v ∷ vs) ws = omega (arith, weight-append f vs ws)

pub weight_new : (f : Stage → ℕ) (n : ℕ) → f created ≡ 0 → weight f (new_workers n) ≡ 0
unfolding weight new_workers
weight_new f zero e = refl
weight_new f (suc n) e = omega (arith, e, weight_new f n e)

pub weight_ended :
    (f : Stage → ℕ) (ws : List Stage) → f ended ≡ 0 → all_ended ws ≡ true → weight f ws ≡ 0
unfolding weight all_ended
weight_ended f [] e h = refl
weight_ended f (ended ∷ ws) e h = omega (arith, e, weight_ended f ws e h)
weight_ended f (created ∷ ws) e h = absurd (ground (arith, h))
weight_ended f (looping ∷ ws) e h = absurd (ground (arith, h))
weight_ended f (drawing ∷ ws) e h = absurd (ground (arith, h))
weight_ended f (claimed x ∷ ws) e h = absurd (ground (arith, h))
weight_ended f (counted x ∷ ws) e h = absurd (ground (arith, h))

abbrev pub is_active : Stage → ℕ
is_active created = 0
is_active ended = 0
is_active _ = 1

abbrev pub is_claimed : Stage → ℕ
is_claimed (claimed h) = 1
is_claimed _ = 0

abbrev pub is_counted : Stage → ℕ
is_counted (counted h) = 1
is_counted _ = 0

-- 1 for an equal hash.
unfoldable pub same : Bytes → Bytes → ℕ
same h k = elim (Bytes-discrete h k) [ yes _ ↦ 1 | no _ ↦ 0 ]

abbrev pub is_with : Bytes → Stage → ℕ
is_with h (claimed k) = same h k
is_with h (counted k) = same h k
is_with h _ = 0

-- How often a hash stands in a list.
unfoldable pub occurrences : Bytes → List Bytes → ℕ
occurrences h [] = 0
occurrences h (k ∷ ks) = same h k + occurrences h ks

pub at_most_two : (b : Bool) (n : ℕ) → (if b then n + 2 else n) ≤ n + 2
at_most_two b n = ground arith
