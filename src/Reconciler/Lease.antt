-- ===== src/Reconciler/Lease.antt =====
-- The lease of dashboard/control/reconciler.py (`_acquire`, `_renew`, `_release`): the row of the
-- table `leases` under the reconciler's name. Holders and moments are numbers.
use nomercy_github_runner.Prelude.{
  ℕ, ◌+◌, ◌≡◌, refl, Bool, true, false, ◌||◌, Option, none, some, List, [], ◌∷◌, arith, ltb, ◌==◌,
  if◌then◌else◌, subst, sym,
}

pub record Lease : Type 0 where
  pub holder : ℕ
  pub expires_at : ℕ

abbrev pub lease_seconds : ℕ
lease_seconds = 120

-- INSERT OR IGNORE
abbrev inserted : ℕ → ℕ → Option Lease → Lease
inserted me until none = record { holder = me; expires_at = until }
inserted me until (some l) = l

-- The UPDATE: the row is taken if it is the caller's own or has expired.
abbrev taken : ℕ → ℕ → ℕ → Lease → Lease
taken me now until l =
    if l.holder == me || ltb l.expires_at now then record { holder = me; expires_at = until } else l

-- `_acquire`, one transaction: the row after it, and whether the caller holds it.
unfoldable pub acquire : ℕ → ℕ → ℕ → Option Lease → Option Lease × Bool
acquire me now seconds row =
    let l = taken me now (now + seconds) (inserted me (now + seconds) row) in
    (some l, l.holder == me)

abbrev held_by : ℕ → Option Lease → Bool
held_by me none = false
held_by me (some l) = l.holder == me

-- `_release`
unfoldable pub release : ℕ → Option Lease → Option Lease
release me row = if held_by me row then none else row

-- `_renew`: whether the caller's row was there to be extended.
unfoldable pub renew : ℕ → ℕ → Option Lease → Option Lease × Bool
renew me now row =
    if held_by me row
    then (some (record { holder = me; expires_at = now + lease_seconds }), true)
    else (row, false)

-- What a process does with the lease, and when.
pub data Call : Type 0 where
  acquires : ℕ → ℕ → ℕ → Call
  renews : ℕ → ℕ → Call
  releases : ℕ → ℕ → Call

abbrev pub caller : Call → ℕ
caller (acquires me now seconds) = me
caller (renews me now) = me
caller (releases me now) = me

abbrev pub moment : Call → ℕ
moment (acquires me now seconds) = now
moment (renews me now) = now
moment (releases me now) = now

unfoldable pub perform : Call → Option Lease → Option Lease × Bool
unfolding acquire renew release
perform (acquires me now seconds) row = acquire me now seconds row
perform (renews me now) row = renew me now row
perform (releases me now) row = (release me row, false)

-- The row after a sequence of calls, and whether one of them got the lease.
unfoldable pub performs : List Call → Option Lease → Option Lease × Bool
performs [] row = (row, false)
performs (c ∷ calls) row =
    let (row', got) = perform c row in
    let (row'', later) = performs calls row' in (row'', got || later)

-- Every call of the list is another process's, made before the lease is over.
abbrev pub by_others : ℕ → ℕ → List Call → Bool
by_others me until [] = true
by_others me until (c ∷ calls) =
    if caller c == me || ltb until (moment c) then false else by_others me until calls

one_other :
    (me until : ℕ) (c : Call)
    → (caller c == me) ≡ false
    → ltb until (moment c) ≡ false
    → perform c (some (record { holder = me; expires_at = until }))
      ≡ (some (record { holder = me; expires_at = until }), false)
unfolding perform
one_other me until (acquires h now seconds) e l = ground arith
one_other me until (renews h now) e l = ground arith
one_other me until (releases h now) e l = ground arith

others_fail :
    (me until : ℕ) (calls : List Call)
    → by_others me until calls ≡ true
    → performs calls (some (record { holder = me; expires_at = until }))
      ≡ (some (record { holder = me; expires_at = until }), false)
unfolding performs
others_fail me until [] h = refl
others_fail me until (c ∷ calls) h =
    ground (arith, one_other me until c, others_fail me until calls)

-- A lease that was acquired is the caller's from now on: its row is the one just written.
acquired :
    (me now seconds : ℕ) (row row' : Option Lease)
    → acquire me now seconds row ≡ (row', true)
    → row' ≡ some (record { holder = me; expires_at = now + seconds })
unfolding acquire
acquired me now seconds none row' h = ground arith
acquired me now seconds (some l) row' h = ground arith

-- Two passes cannot run at once: while a process holds the lease that it acquired, any calls of
-- other processes, in any order and up to the moment the lease expires, leave the row as it is,
-- and none of them gets the lease.
pub lease_exclusive :
    (me now seconds : ℕ) (row row' : Option Lease) (calls : List Call)
    → acquire me now seconds row ≡ (row', true)
    → by_others me (now + seconds) calls ≡ true
    → performs calls row' ≡ (row', false)
lease_exclusive me now seconds row row' calls got others =
    let e = acquired me now seconds row row' got in
    subst (λ r. performs calls r ≡ (r, false)) (sym e) (others_fail me (now + seconds) calls others)
