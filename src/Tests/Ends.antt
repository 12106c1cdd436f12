-- ===== src/Tests/Ends.antt =====
-- The theorems on how a start and a round end, at concrete ones.
use mathlib.Core.Path.{subst}
use stadhouder.Base.{
  ℕ, false, ◌<◌, ◌≡◌, ap, Option, none, some, [], ◌∷◌, arith, codes, Result, ok, contains_key,
  lookup,
}
use stadhouder.Base.Int.{ℤ, pos, IsTime}
use stadhouder.Disk.{Disk, exists, read_to_string}
use stadhouder.State.{ServiceFlag, read_service_flag}
use stadhouder.Text.{trim}
use stadhouder.Runtime.Round.Ends.{Ends}
use stadhouder.Runtime.Start.Decides.{Decides, start_decides}
use stadhouder.Tests.{naturals, plain, plain-RoundTrips, flag_text, put_int, get_int}
use stadhouder.Tests.Loops.{rosters, disk_of, no_fifos}

-- A flag of one second after the epoch.
abbrev old_flag : Disk
old_flag =
    disk_of
      ((codes "service_flag", flag_text (record { updated_ms = pos 1000; memory_pct = 3 })) ∷ [])

abbrev time_of : Result (Option (ServiceFlag ℕ)) → ℤ
time_of (ok (some flag)) = flag.updated_ms
time_of _ = pos 1000

small : (n : ℕ) → n < 1000000 → IsTime (pos n)
small n h = record { low = omega (arith, h); high = omega arith }

old_flag-IsTime :
    (flag : ServiceFlag ℕ)
    → read_service_flag plain old_flag ≡ ok (some flag)
    → IsTime flag.updated_ms
unfolding read_service_flag exists contains_key read_to_string lookup trim put_int get_int
old_flag-IsTime flag e = subst IsTime (ap time_of e) (small 1000 (omega arith))

-- Two minutes later the flag is stale.
start_decides_example :
    Decides naturals plain none rosters (pos 121000) none (λ id. false) old_flag no_fifos
start_decides_example =
    start_decides naturals plain none rosters (pos 121000) none (λ id. false) old_flag no_fifos
      plain-RoundTrips (small 121000 (omega arith)) old_flag-IsTime
