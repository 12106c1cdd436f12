-- ===== src/Tests/Starts.antt =====
-- The theorems on starts, and on the first round after one, at a directory where an earlier run has
-- left a profile.
use stadhouder.Runtime.Scan.{
  scan, scan_now, ids_on_disk, pick_up_all, pick_up, drop_gone, absent_from, install, serve,
  open_pipes,
}
use stadhouder.Runtime.{connection_id_from_filename, is_due}
use stadhouder.State.{
  connection_profile_paths, is_profile_name, load, write_service_flag, read_service_flag,
}
use stadhouder.Text.{starts_with, ends_with, strip_prefix, strip_suffix, replace}
use stadhouder.Base.{
  false, holds, insert, remove, ℕ, refl, true, Bool, none, [], ◌∷◌, Text, codes, ok, lookup,
  contains_key, ◌≡◌, ap, ◌≤◌, ◌⊎◌, arith, length,
}
use stadhouder.Pipes.Server.{create_serving_pipes, create_inbound, create_outbound}
use stadhouder.Tests.{
  put_text, get_text, profile_text, put_int, get_int, texts, naturals, plain, plain-RoundTrips,
}
use stadhouder.Runtime.Round.{collect, clamp_all, clamp_time, refresh_flag, clamp, round}
use stadhouder.Base.Int.{◌+ℤ◌, ◌-ℤ◌, wrap_i64, sub_i64, pos}
use stadhouder.Disk.{remove_file, write, read_to_string, Disk, is_denied, exists}
use stadhouder.Runtime.Drain.{drain_all, silent, drop_inactive}
use stadhouder.Runtime.Timers.{expire}
use stadhouder.Runtime.Start.{another_lives, start, Start, live, purge, deferred}
use stadhouder.Runtime.Start.Purge.{Arrived, no_ghosts}
use stadhouder.Runtime.Registry.Steps.{new_ids}
use stadhouder.Tests.Loops.{rosters, disk_of, no_fifos}
use mathlib.Core.Path.{subst}
use stadhouder.Runtime.Flag.Instances.{
  System, idle, begun, ran, Reach, begin, run, pass, here, next,
}
use stadhouder.Runtime.Flag.Instances.Alone.{one_lives}
use stadhouder.Tests.Rounds.{first_loop, arrival, answer_of, x_profile, first_time, second_time}

-- A profile that an earlier run has left.
abbrev left_behind : Disk
left_behind = disk_of (
    (codes "connection_g.json", profile_text (record x_profile { connection_id = codes "g" })) ∷ [])

abbrev restarted : Start Text ℕ (Text → Bool)
restarted = start naturals plain none rosters (ok (pos 1000)) none (λ id. true) left_behind no_fifos

restart_lives :
    start naturals plain none rosters (ok (pos 1000)) none (λ id. true) left_behind no_fifos
    ≡ live (first_loop restarted)
unfolding start read_service_flag exists contains_key another_lives write_service_flag write put_int
    is_denied insert purge connection_profile_paths is_profile_name
restart_lives = refl

-- The client that comes is greeted.
greeted :
    holds
      (new_ids
        (collect texts plain
          (pos 1000)
          (answer_of arrival (pos 1000))
          (refresh_flag naturals plain none (pos 1000) none (
            clamp (pos 1000) (record (first_loop restarted) {
              disk = arrival (first_loop restarted).disk;
            }))).1).0.new_connections)
      (codes "x")
    ≡ true
unfolding start read_service_flag exists contains_key another_lives write_service_flag write
    refresh_flag is_due sub_i64 wrap_i64 ◌-ℤ◌ clamp clamp_time clamp_all collect remove_file scan
    scan_now ids_on_disk pick_up_all pick_up drop_gone absent_from connection_id_from_filename
    connection_profile_paths is_profile_name starts_with ends_with strip_prefix strip_suffix replace
    insert lookup remove install serve open_pipes create_serving_pipes create_inbound
    create_outbound load read_to_string put_text get_text put_int get_int is_denied drain_all silent
    drop_inactive expire purge
greeted = refl

no_ghosts_example :
    Arrived (first_loop restarted).disk (arrival (first_loop restarted).disk) (codes "x")
unfolding is_denied
no_ghosts_example =
    no_ghosts texts naturals plain none rosters (pos 1000) (pos 1000) none (λ id. true) left_behind
      no_fifos (first_loop restarted) (answer_of arrival (pos 1000)) (codes "x") restart_lives
      (λ name profile. refl) greeted

-- An instance starts, and does a round a second later.
abbrev before_all : System Text ℕ (Text → Bool)
before_all = idle left_behind (pos 1000)

abbrev one_started : System Text ℕ (Text → Bool)
one_started = begun (live (first_loop restarted)) before_all

abbrev later_on : System Text ℕ (Text → Bool)
later_on = record one_started { clock = pos 2000 }

abbrev round_done : System Text ℕ (Text → Bool)
round_done =
    ran [] []
      (round texts naturals plain none rosters (answer_of (λ d. later_on.disk) (pos 2000))
        (first_loop restarted))
      later_on

one_started-Reach : Reach texts naturals plain none rosters left_behind (pos 1000) one_started
one_started-Reach =
    subst (Reach texts naturals plain none rosters left_behind (pos 1000))
      (ap (λ r. begun r before_all) restart_lives)
      (next here (begin before_all none (λ id. true) no_fifos))

round_done-Reach : Reach texts naturals plain none rosters left_behind (pos 1000) round_done
unfolding ◌+ℤ◌
round_done-Reach =
    next
      (next one_started-Reach
        (pass one_started (pos 2000) second_time (omega arith) (omega arith, tt)))
      (run later_on [] [] (first_loop restarted) (pos 1000) (answer_of (λ d. d) (pos 2000)) refl
        refl)

one_lives_example :
    (length round_done.running ≤ 1)
    × ((round_done.running ≡ [])
        ⊎ (start naturals plain none rosters
              (ok round_done.clock)
              none
              (λ id. false)
              round_done.disk
              no_fifos
            ≡ deferred (λ id. false) round_done.disk))
one_lives_example =
    one_lives texts naturals plain none rosters plain-RoundTrips none (λ id. false) no_fifos
      first_time round_done-Reach
