-- ===== src/Tests/Commands.antt =====
-- The commands and the versions at concrete inputs.
use hardline.Base.{
  Text, codes, ◌==◌, ◌≡◌, ◌⊎◌, ◌↔◌, refl, Bool, true, false, Option, none, some, if◌then◌else◌,
  List, [], ◌∷◌, ok, trim_space, trim_left, trim_right, is_space,
}
use hardline.Rollback.Persist.{marshal_journal}
use hardline.Rollback.Target.{newest_name}
use hardline.Rollback.Command.{Env, Options}
use hardline.Rollback.Newest.{spelled, journal_name, is_newest, IsListedJournal, newest_name-newest}
use hardline.Rollback.Journal.{success}
use hardline.Base.{ℤ, pos, negsuc, digits_value, atoi, cut}
use hardline.Cli.Version.{
  valid_prerelease, parse_numbers, parse_sem_ver, compare_parsed, compare_sem_ver,
}
use hardline.Cli.Version.Order.{
  negated, not_after, compare_sem_ver-negated, compare_sem_ver-transitive, compare_sem_ver-zero,
}
use hardline.Rollback.Journal.{Journal}
use hardline.Tests.Fixture.{World, journal, codec, env, active_world, records}

ten_before_two : compare_sem_ver (codes "1.2.0") (codes "1.10.0") ≡ ok (negsuc 0)
unfolding digits_value atoi cut valid_prerelease parse_numbers parse_sem_ver compare_parsed
    compare_sem_ver trim_space trim_left trim_right is_space
ten_before_two = refl

compare_sem_ver-negated_example :
    compare_sem_ver (codes "1.10.0") (codes "1.2.0") ≡ ok (negated (negsuc 0))
compare_sem_ver-negated_example =
    compare_sem_ver-negated (codes "1.2.0") (codes "1.10.0") (negsuc 0) ten_before_two

ten_equals_rc : compare_sem_ver (codes "1.10.0") (codes "v1.10.0-rc.1") ≡ ok (pos 0)
unfolding digits_value atoi cut valid_prerelease parse_numbers parse_sem_ver compare_parsed
    compare_sem_ver trim_space trim_left trim_right is_space
ten_equals_rc = refl

compare_sem_ver-transitive_example :
    (k : ℤ) × (compare_sem_ver (codes "1.2.0") (codes "v1.10.0-rc.1") ≡ ok k) × (not_after k ≡ true)
compare_sem_ver-transitive_example =
    compare_sem_ver-transitive (codes "1.2.0") (codes "1.10.0") (codes "v1.10.0-rc.1") (negsuc 0)
      (pos 0) ten_before_two ten_equals_rc refl refl

parsed_release :
    parse_sem_ver (codes "1.10.0")
    ≡ ok (record { major = pos 1; minor = pos 10; patch = pos 0; pre = [] })
unfolding digits_value atoi cut valid_prerelease parse_numbers parse_sem_ver trim_space trim_left
    trim_right is_space
parsed_release = refl

parsed_rc :
    parse_sem_ver (codes "v1.10.0-rc.1")
    ≡ ok (record { major = pos 1; minor = pos 10; patch = pos 0; pre = codes "rc.1" })
unfolding digits_value atoi cut valid_prerelease parse_numbers parse_sem_ver trim_space trim_left
    trim_right is_space
parsed_rc = refl

compare_sem_ver-zero_example :
    (compare_sem_ver (codes "1.10.0") (codes "v1.10.0-rc.1") ≡ ok (pos 0))
    ↔ ((pos 1 ≡ pos 1) × (pos 10 ≡ pos 10) × (pos 0 ≡ pos 0))
compare_sem_ver-zero_example =
    compare_sem_ver-zero (codes "1.10.0") (codes "v1.10.0-rc.1")
      (record { major = pos 1; minor = pos 10; patch = pos 0; pre = [] })
      (record { major = pos 1; minor = pos 10; patch = pos 0; pre = codes "rc.1" }) parsed_release
      parsed_rc

-- The journal of a successful run, and a runner that holds it.
abbrev finished : Journal
finished = record journal { status = success; steps = records }

abbrev finished_env : Env (Option Bool) World
finished_env = record env {
  codec = record codec {
    parse = λ t. elim (codec.parse t) [
      | none ↦ none
      | some j ↦ some (record finished { run_id = j.run_id; checksum = j.checksum })
    ];
  };
}

abbrev finished_world : World
finished_world = record active_world {
  files = λ q.
      if q == codes "/state/web1/base.json" then some (marshal_journal codec finished) else none;
}

abbrev options : Options
options = record { host_name = codes "web1"; local_journal = true; force_rollback = false }

abbrev listing : List Text
listing =
    codes "20240102T030405.000000001Z.json"
    ∷ (codes "notes.txt" ∷ (codes "20240102T030405.000000002Z.json" ∷ []))

newest_name-newest_example :
    (is_newest (spelled journal_name) (newest_name [] listing) listing ≡ true)
    × ((newest_name [] listing ≡ [])
        ⊎ IsListedJournal (spelled journal_name) (newest_name [] listing) listing)
newest_name-newest_example = newest_name-newest listing
