-- ===== src/Retry.antt =====
-- dashboard/control/retry.py: a call under a policy, with its deadline, its attempts and its
-- pauses, and the cached reading of a forge.
--
-- Seconds are whole numbers. What the callee does on each attempt is a function from the attempt's
-- number to an `Answer`; a thread that is still alive at the deadline is the answer `late`.
pub mod Attempts
pub mod Cache
use nomercy_github_runner.Prelude.{
  ℕ, zero, suc, ◌+◌, ◌-◌, Bool, true, false, not, ◌&&◌, Option, none, some, List, [], ◌∷◌, ◌++◌,
  length, ltb, leb, ◌==◌, if◌then◌else◌,
}

pub record Policy : Type 0 where
  pub timeout : ℕ
  pub retries : ℕ
  pub backoff : List ℕ

-- What `__post_init__` accepts.
unfoldable pub accepted : Policy → Bool
accepted p = not (leb p.timeout 0) && (length p.backoff == p.retries)

abbrev pub agent_fast : Policy
agent_fast = record { timeout = 10; retries = 2; backoff = 1 ∷ 3 ∷ [] }

abbrev pub agent_windows_x64 : Policy
agent_windows_x64 = record { timeout = 45; retries = 0; backoff = [] }

abbrev pub agent_slow : Policy
agent_slow = record { timeout = 1800; retries = 0; backoff = [] }

abbrev pub forge_registration : Policy
forge_registration = record { timeout = 20; retries = 2; backoff = 2 ∷ 6 ∷ [] }

abbrev pub forge_status : Policy
forge_status = record { timeout = 20; retries = 0; backoff = [] }

abbrev pub forge_delete : Policy
forge_delete = record { timeout = 20; retries = 0; backoff = [] }

abbrev pub forge_drain : Policy
forge_drain = record { timeout = 20; retries = 0; backoff = [] }

abbrev pub heartbeat : Policy
heartbeat = record { timeout = 5; retries = 0; backoff = [] }

-- What one attempt does: it returns, raises an Exception, raises a BaseException that is none
-- (an interrupt), or is not over at the deadline.
pub data Answer (A E : Type 0) : Type 0 where
  returned : A → Answer A E
  raised : E → Answer A E
  interrupted : E → Answer A E
  late : Answer A E

-- The exception of an attempt that failed: the callee's, or DeadlineExceeded with its attempt.
pub data Failure (E : Type 0) : Type 0 where
  error : E → Failure E
  deadline_exceeded : ℕ → Failure E

-- How a call ends: with a value, with the original exception, with GaveUp (the number of attempts
-- and the last cause), with an exception that is not caught, or with the IndexError of a policy
-- whose pauses are too few.
pub data Ended (A E : Type 0) : Type 0 where
  value : A → Ended A E
  original : Failure E → Ended A E
  gave_up : ℕ → Failure E → Ended A E
  escaped : E → Ended A E
  index_error : Ended A E

-- What the call did on the way: the attempts it made and the pauses it took.
pub record Trace : Type 0 where
  pub attempts : ℕ
  pub pauses : List ℕ

abbrev pub get_elem? : List ℕ → ℕ → Option ℕ
get_elem? [] i = none
get_elem? (x ∷ xs) zero = some x
get_elem? (x ∷ xs) (suc i) = get_elem? xs i

abbrev tried : Trace → Trace
tried t = record t { attempts = t.attempts + 1 }

abbrev paused : ℕ → Trace → Trace
paused seconds t = record t { pauses = t.pauses ++ seconds ∷ [] }

-- After the loop.
abbrev pub last_raise : {A E : Type 0} → Policy → Failure E → Ended A E
last_raise p last = if p.retries == 0 then original last else gave_up (p.retries + 1) last

-- The exception that the loop catches from `_within`, if there is one.
abbrev pub caught : {A E : Type 0} → ℕ → Answer A E → Option (Failure E)
caught attempt (returned a) = none
caught attempt (raised e) = some (error e)
caught attempt (interrupted e) = none
caught attempt late = some (deadline_exceeded attempt)

module _ {A E : Type 0} (p : Policy) (answer : ℕ → Answer A E) where
  -- The attempt after a failed one: the pause, if there is a retry left, then the rest.
  abbrev after_pause : (Trace → Ended A E × Trace) → ℕ → Trace → Ended A E × Trace
  after_pause rest attempt t =
      if leb attempt p.retries
      then elim (get_elem? p.backoff (attempt - 1)) [
        | none ↦ (index_error, t)
        | some seconds ↦ rest (paused seconds t)
      ]
      else rest t

  -- The loop over the attempts from `attempt` on, `n` of them left.
  unfoldable pub loop : ℕ → ℕ → Failure E → Trace → Ended A E × Trace
  loop zero attempt last t = (last_raise p last, t)
  loop (suc n) attempt last t = elim (answer attempt) [
    | returned a ↦ (value a, tried t)
    | interrupted e ↦ (escaped e, tried t)
    | raised e ↦ after_pause (loop n (suc attempt) (error e)) attempt (tried t)
    | late ↦ after_pause (loop n (suc attempt) (deadline_exceeded attempt)) attempt (tried t)
  ]

  -- `range(1, retries + 2)` is not empty, so the first failure that the loop starts with is never
  -- the one that it ends with.
  unfoldable pub call : Ended A E × Trace
  unfolding loop
  call = loop (p.retries + 1) 1 (deadline_exceeded 0) (record { attempts = 0; pauses = [] })

-- The target of an agent call: its platform and its kind, where they are known.
pub record Target : Type 0 where
  pub is_windows : Bool
  pub is_windows_process : Bool

unfoldable pub agent_fast_for : Option Target → Policy
agent_fast_for none = agent_fast
agent_fast_for (some t) =
    if t.is_windows
    then agent_windows_x64
    else if t.is_windows_process
    then agent_windows_x64
    else agent_fast

-- The cache of a provider's readings: when each was made and what it said, `none` for unknown.
abbrev pub Cache : Type 0 → Type 0
Cache V = List (ℕ × (ℕ × Option V))

abbrev pub cached : {V : Type 0} → ℕ → Cache V → Option (ℕ × Option V)
cached key [] = none
cached key ((k, hit) ∷ c) = let rest = cached key c in if k == key then some hit else rest

-- self._cache[key] = hit
abbrev pub put_cached : {V : Type 0} → ℕ → ℕ × Option V → Cache V → Cache V
put_cached key hit c = (key, hit) ∷ c

-- Whether a cached reading is younger than the time to live. The clock does not run backwards.
abbrev pub fresh : {V : Type 0} → ℕ → ℕ → Option (ℕ × Option V) → Bool
fresh ttl now none = false
fresh ttl now (some (at, v)) = ltb (now - at) ttl

-- How a reading ends: with an answer, `none` for unknown, or with what `except Exception` does not
-- catch, which passes through.
pub data Read (V E : Type 0) : Type 0 where
  answer : Option V → Read V E
  passed_on : E → Read V E

-- A reading that the forge was asked for. An Exception is caught and kept as unknown; anything else
-- leaves the cache as it was.
abbrev asked_forge :
    {V E : Type 0} → ℕ → ℕ → Cache V → Ended (Option V) E → Read V E × Cache V × Bool
asked_forge key now c (value v) = (answer v, put_cached key (now, v) c, true)
asked_forge key now c (escaped e) = (passed_on e, c, true)
asked_forge key now c _ = (answer none, put_cached key (now, none) c, true)

abbrev serve : {V : Type 0} → Option (ℕ × Option V) → Option V
serve none = none
serve (some (at, v)) = v

-- `records`: what is answered, the cache after it, and whether the forge was called. The clock
-- reads `now` at the start, and the forge's reading is the outcome of the call under FORGE_STATUS.
unfoldable pub records :
    {V E : Type 0} → ℕ → ℕ → ℕ → (ℕ → Answer (Option V) E) → Cache V → Read V E × Cache V × Bool
unfolding call
records ttl key now forge c =
    let hit = cached key c in
    if fresh ttl now hit
    then (answer (serve hit), c, false)
    else asked_forge key now c (call forge_status forge).0
