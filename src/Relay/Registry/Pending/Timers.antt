-- ===== src/Relay/Registry/Pending/Timers.antt =====
-- How many live timers a promise has.
use constellation_mcp.Prelude.{
  ℕ, ◌+◌, ◌<◌, ◌≡◌, inl, inr, ◌≢◌, false, List, [], ◌∷◌, arith, Bool-cases, Memᴰ, if◌then◌else◌,
  ◌==◌,
}
use constellation_mcp.Relay.Registry.{Timer, clear}

unfoldable pub timers_of : ℕ → List Timer → ℕ
timers_of n [] = 0
timers_of n (t ∷ ts) = (if t.promise == n then 1 else 0) + timers_of n ts

pub timers_of-clear :
    (n m : ℕ) (ts : List Timer) → timers_of m (clear n ts) ≡ (if n == m then 0 else timers_of m ts)
unfolding timers_of
timers_of-clear n m [] = ground arith
timers_of-clear n m (t ∷ ts) = ground (arith, timers_of-clear n m ts)

pub timers_of_mem : {t : Timer} (ts : List Timer) → Memᴰ t ts → 0 < timers_of t.promise ts
unfolding timers_of
timers_of_mem [] m = elim m [ ]
timers_of_mem (u ∷ ts) (Memᴰ.head e) = ground (arith, e)
timers_of_mem (u ∷ ts) (Memᴰ.tail m) = ground (arith, timers_of_mem ts m)

-- Two timers with one promise.
pub timers_of_two :
    {t u : Timer} (ts : List Timer)
    → Memᴰ t ts
    → Memᴰ u ts
    → t.promise ≡ u.promise
    → t.request_id ≢ u.request_id
    → 1 < timers_of t.promise ts
unfolding timers_of
timers_of_two [] m k e n = elim m [ ]
timers_of_two (v ∷ ts) (Memᴰ.head p) (Memᴰ.head q) e n = absurd (n (cc))
timers_of_two (v ∷ ts) (Memᴰ.head p) (Memᴰ.tail k) e n = ground (arith, timers_of_mem ts k)
timers_of_two (v ∷ ts) (Memᴰ.tail m) (Memᴰ.head q) e n = ground (arith, timers_of_mem ts m)
timers_of_two (v ∷ ts) (Memᴰ.tail m) (Memᴰ.tail k) e n = ground (arith, timers_of_two ts m k e n)

pub mem-clear :
    {t : Timer} (n : ℕ) (ts : List Timer) → t.promise ≢ n → Memᴰ t ts → Memᴰ t (clear n ts)
mem-clear n [] h m = elim m [ ]
mem-clear n (u ∷ ts) h (Memᴰ.head e) =
    let stays : (u.promise == n) ≡ false = ground (arith, h, e) in rw stays (Memᴰ.head e)
mem-clear n (u ∷ ts) h (Memᴰ.tail m) = elim (Bool-cases (u.promise == n)) [
  | inl gone ↦ rw gone (mem-clear n ts h m)
  | inr stays ↦ rw stays (Memᴰ.tail (mem-clear n ts h m))
]
