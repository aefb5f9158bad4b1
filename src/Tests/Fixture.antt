-- ===== src/Tests/Fixture.antt =====
-- A host that holds objects by their keys, a disk that holds files, one plugin, and a profile of two
-- steps of which the second fails.
use hardline.Base.{
  ℕ, Text, codes, String, subst, ◌==◌, ==_refl, ==_false, ◌≡◌, refl, Bool, true, false, Option,
  none, some, List, [], ◌∷◌, ◌++◌, ok, err, Map, lookup, put, if◌then◌else◌, nat_eq, Bool-cases,
  inl, inr,
}
use hardline.Base.Exec.{Exec}
use hardline.Pluginapi.Host.{Host, Fault}
use hardline.Pluginapi.Records.{
  ObjectRecord, CaptureResult, object_service, mode_deterministic, records_eq,
}
use hardline.Pluginapi.Keys.{object_key}
use hardline.Pluginapi.Registry.{
  Plugin, Step, ActionFile, lookup_plugin, find_plugin, normalize_plugin_name,
}
use hardline.Rollback.Journal.{Journal, StepRecord, new_step_record, set_after}
use hardline.Rollback.Persist.{Codec, Disk, new_journal}
use hardline.Rollback.Atomic.{DiskLaws}
use hardline.Rollback.Preflight.{AllReadOnly, ReadsOnly}
use hardline.Rollback.Command.{Env}
use hardline.Apply.Step.{Run}

pub record World : Type 0 where
  pub objects : Map ObjectRecord
  pub files : Text → Option Text

abbrev pub unit_object : Bool → ObjectRecord
unit_object active = record {
  kind = object_service;
  file = none;
  file_meta = none;
  service = some (record {
    unit = codes "nginx";
    enabled = true;
    active = active;
    enabled_state = codes "enabled";
    active_state = if active then codes "active" else codes "inactive";
    known = true;
  });
  pkg = none;
  runtime_policy = none;
  message = [];
}

abbrev pub capture_of : ObjectRecord → CaptureResult
capture_of o = record {
  rollback_mode = mode_deterministic;
  objects = o ∷ [];
  notes = [];
  reload = none;
}

abbrev stored : ObjectRecord → World → World
stored o w = record w { objects = put (object_key o) o w.objects }

abbrev current : World → ObjectRecord
current w = elim (lookup (object_key (unit_object true)) w.objects) [
  | none ↦ unit_object false
  | some o ↦ o
]

abbrev apply_unit : Option Bool → Exec World Fault (Unit {0})
apply_unit none w = (err (codes "broken"), w)
apply_unit (some active) w = (ok tt, stored (unit_object active) w)

abbrev moved : Option ObjectRecord → ObjectRecord → List Text
moved none a = codes "gone" ∷ []
moved (some o) a = if records_eq (o ∷ []) (a ∷ []) then [] else codes "moved" ∷ []

abbrev pub units : Plugin (Option Bool) World
units = record {
  name = codes "service";
  validate = λ s m. none;
  apply = λ m c s. apply_unit s.config;
  capture = λ m s w. (ok (capture_of (current w)), w);
  rollback = λ o w. (ok tt, stored o w);
  detect_conflict = λ o w. (moved (lookup (object_key o) w.objects) o, w);
}

abbrev pub plugins : List (Plugin (Option Bool) World)
plugins = units ∷ []

-- A registry of one plugin finds only that.
only_units :
    (t : Text) (p : Plugin (Option Bool) World) → lookup_plugin plugins t ≡ some p → units ≡ p
unfolding lookup_plugin find_plugin
only_units t p h = elim (Bool-cases (codes "service" == normalize_plugin_name t)) [
  | inl e ↦ cc (rw e at h)
  | inr e ↦ absurd (cc (rw e at h))
]

pub plugins-AllReadOnly : AllReadOnly plugins
plugins-AllReadOnly t p h = subst ReadsOnly (only_units t p h) (λ o w. refl)

abbrev pub disk : Disk World
disk = record {
  mkdir_all = λ d w. (ok tt, w);
  write_file = λ p t w. (ok tt, record w { files = λ q. if q == p then some t else w.files q });
  rename = λ p q w. (
    ok tt,
    record w { files = λ r. if r == q then w.files p else if r == p then none else w.files r },
  );
  remove = λ p w. (ok tt, record w { files = λ q. if q == p then none else w.files q });
  read_file = λ p w. (elim (w.files p) [ none ↦ err (codes "missing") | some t ↦ ok t ], w);
  is_not_exist = λ f. true;
}

pub disk-DiskLaws : DiskLaws disk
disk-DiskLaws = record {
  content = λ w q. w.files q;
  mkdir_all_keeps = λ d q w. refl;
  write_file_keeps = λ p t q w ne. rw (==_false q p ne) refl;
  write_file_ok = λ p t w h. rw (==_refl p) refl;
  rename_ok = λ p q w h. rw (==_refl q) refl;
  rename_err = λ p q r w e h. absurd (cc);
  read_file_ok = λ p t w h. rw h refl;
}

abbrev pub journal : Journal
unfolding new_journal
journal = new_journal (codes "r1") (codes "2024") (codes "web1") (codes "base") (codes "base")

-- The text before the first byte `c`, and the text behind it.
abbrev before_byte : ℕ → Text → Text
before_byte c [] = []
before_byte c (d ∷ s) = if nat_eq d c then [] else d ∷ before_byte c s

abbrev after_byte : ℕ → Text → Text
after_byte c [] = []
after_byte c (d ∷ s) = if nat_eq d c then s else after_byte c s

-- A codec for the journals that differ from `journal` in the run id and the checksum.
abbrev pub codec : Codec
codec = record {
  encode = λ j. j.run_id ++ (0 ∷ j.checksum);
  parse = λ t.
      some
        (record journal { run_id = before_byte 0 t; checksum = before_byte 10 (after_byte 0 t) });
  digest = λ t. 49 ∷ t;
}

abbrev pub host : Host World
host = record {
  run_root = λ cmd w. (ok tt, w);
  run_root_with_output = λ cmd w. (ok (codes "hardline-lock-taken"), w);
  run_root_with_timeout = λ cmd limit w. (ok [], w);
  stat_age = λ p w. (err (codes "missing"), w);
  read_root_file = λ p w. (err (codes "missing"), w);
  write_root_file = λ p t mode w. (ok tt, w);
}

abbrev pub sudo : Exec World Fault (Unit {0})
sudo w = (ok tt, w)

abbrev pub env : Env (Option Bool) World
env = record {
  connect = sudo;
  ensure_sudo = sudo;
  host = host;
  disk = disk;
  state_root = ok (codes "/state");
  codec = codec;
  plugins = plugins;
}

abbrev pub step : String → Option Bool → Step (Option Bool)
step id config = record { id = codes id; plugin = codes "service"; config = config }

-- A profile that succeeds, and one whose second step fails.
abbrev pub good_files : List (ActionFile (Option Bool))
good_files = record { path = codes "a.json"; steps = step "start" (some true) ∷ [] } ∷ []

abbrev pub bad_files : List (ActionFile (Option Bool))
bad_files =
    record { path = codes "a.json"; steps = step "start" (some true) ∷ (step "broken" none ∷ []) }
    ∷ []

abbrev pub world : World
world = record {
  objects = put (object_key (unit_object false)) (unit_object false) [];
  files = λ q. none;
}

abbrev pub active_world : World
active_world = stored (unit_object true) world

abbrev pub run : Run World
run = record { journal = journal; changes = []; world = world }

-- The record of the step `start`.
abbrev pub records : List StepRecord
records =
    set_after (new_step_record (codes "start") (codes "service") (capture_of (unit_object false)))
      (capture_of (unit_object true))
    ∷ []

abbrev pub poll : World → Option Fault × World
poll w = (none, w)
