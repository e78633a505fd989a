-- ===== src/Breaker/Runs.antt =====
-- The calls of several workers on the shared keys of a circuit breaker, one after the other.
use rcs_bulk_messaging_syste.Prelude.{
  ℕ, suc, ◌+◌, ◌≡◌, refl, Bool, true, false, Option, none, some, List, [], ◌∷◌, ◌++◌, arith,
  if◌then◌else◌, count,
}
use rcs_bulk_messaging_syste.Breaker.{
  Breaker, Entry, Redis, is_live, get, incr, before_request, on_success, on_failure,
}

-- What one worker does with the breaker: it asks to be let through, or reports how its request went.
pub data Step : Type 0 where
  asks succeeds fails : Step

unfoldable pub same_step : Step → Step → Bool
same_step asks asks = true
same_step succeeds succeeds = true
same_step fails fails = true
same_step _ _ = false

pub record Event : Type 0 where
  pub step : Step
  pub now : ℕ
  -- Whether Redis answers the k-th round trip.
  pub up : ℕ → Bool

unfoldable pub is_of : Step → Event → Bool
is_of s e = same_step s e.step

unfoldable pub take_step : Breaker → Step → (ℕ → Bool) → ℕ → Redis → Redis
take_step b asks up now r = (before_request b up now r).1
take_step b succeeds up now r = on_success b up now r
take_step b fails up now r = on_failure b up now r

unfoldable pub run : Breaker → List Event → Redis → Redis
run b [] r = r
run b (e ∷ es) r = run b es (take_step b e.step e.up e.now r)

pub run-append :
    (b : Breaker) (es fs : List Event) (r : Redis) → run b (es ++ fs) r ≡ run b fs (run b es r)
unfolding run
run-append b [] fs r = refl
run-append b (e ∷ es) fs r = run-append b es fs (take_step b e.step e.up e.now r)

-- Redis answers every round trip.
unfoldable pub Answers : Event → Type 0
Answers e = (k : ℕ) → e.up k ≡ true

-- A counter, and what it becomes when a step of a kind adds one to it and renews its time.
unfoldable pub number : Option (Entry ℕ) → ℕ
number none = 0
number (some e) = e.value

unfoldable pub unexpired : ℕ → Option (Entry ℕ) → Bool
unexpired now none = true
unexpired now (some e) = is_live now e.expires

unfoldable pub next_key : ℕ → ℕ → Bool → Option (Entry ℕ) → Option (Entry ℕ)
next_key ttl now true key = (incr now ttl key).1
next_key ttl now false key = key

unfoldable pub counted : Step → ℕ → Option (Entry ℕ) → List Event → Option (Entry ℕ)
counted s ttl key [] = key
counted s ttl key (e ∷ es) = counted s ttl (next_key ttl e.now (is_of s e) key) es

-- Each step of the kind comes before the counter expires, which the one before it has renewed.
unfoldable pub InTime : Step → ℕ → Option (Entry ℕ) → List Event → Type 0
InTime s ttl key [] = Unit {0}
InTime s ttl key (e ∷ es) =
    (is_of s e ≡ true → unexpired e.now key ≡ true)
    × InTime s ttl (next_key ttl e.now (is_of s e) key) es

pub incr-number :
    (now ttl : ℕ) (key : Option (Entry ℕ))
    → unexpired now key ≡ true
    → (incr now ttl key).0 ≡ suc (number key)
unfolding incr number unexpired get
incr-number now ttl key h = ground (arith, h)

pub number-next_key :
    (ttl now : ℕ) (c : Bool) (key : Option (Entry ℕ))
    → (c ≡ true → unexpired now key ≡ true)
    → number (next_key ttl now c key) ≡ number key + (if c then 1 else 0)
unfolding number next_key incr get unexpired
number-next_key ttl now true key h = ground (arith, h refl)
number-next_key ttl now false key h = ground (arith, h)

pub number-counted :
    (s : Step) (ttl : ℕ) (es : List Event) (key : Option (Entry ℕ))
    → InTime s ttl key es
    → number (counted s ttl key es) ≡ number key + count (is_of s) es
unfolding counted InTime
number-counted s ttl [] key h = ground (arith, h)
number-counted s ttl (e ∷ es) key h = ground (
  arith,
  number-counted s ttl es (next_key ttl e.now (is_of s e) key) h.1,
  number-next_key ttl e.now (is_of s e) key h.0,
)

pub InTime-append :
    (s : Step) (ttl : ℕ) (es fs : List Event) (key : Option (Entry ℕ))
    → InTime s ttl key (es ++ fs)
    → InTime s ttl key es × InTime s ttl (counted s ttl key es) fs
unfolding InTime counted
InTime-append s ttl [] fs key h = (tt, h)
InTime-append s ttl (e ∷ es) fs key h =
    let rest = InTime-append s ttl es fs (next_key ttl e.now (is_of s e) key) h.1 in
    ((h.0, rest.0), rest.1)
