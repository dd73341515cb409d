-- ===== src/Retry/Cache.antt =====
-- What the cached reading of a forge answers.
use nomercy_github_runner.Prelude.{
  ℕ, ◌+◌, ◌≤◌, ◌<◌, ◌≡◌, true, false, Option, none, some, arith, ◌==◌, if◌then◌else◌,
}
use nomercy_github_runner.Retry.{
  Answer, Read, Failure, caught, call, loop, Cache, cached, fresh, records,
}

module _ {V E : Type 0} (ttl key now : ℕ) (forge : ℕ → Answer (Option V) E) (c : Cache V) where
  -- A reading that fails with an Exception when nothing fresh is cached is answered as unknown, with the forge
  -- asked once; so is every reading of the same forge until the time to live is over, with no
  -- further call and whatever the forge would say. What is cached of the other forges stays.
  pub failed_reading_is_unknown :
      (other later : ℕ) (forge' : ℕ → Answer (Option V) E) (e : Failure E)
      → fresh ttl now (cached key c) ≡ false
      → caught 1 (forge 1) ≡ some e
      → later < now + ttl
      → now ≤ later
      → let (v, c', called) = records ttl key now forge c in
        (v ≡ Read.answer none)
        × (called ≡ true)
        × (records ttl key later forge' c' ≡ (Read.answer none, c', false))
        × (cached other c' ≡ (if key == other then some (now, none) else cached other c))
  unfolding records call loop
  failed_reading_is_unknown other later forge' e stale fails soon after = ground arith
