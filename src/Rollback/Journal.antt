-- ===== src/Rollback/Journal.antt =====
-- internals/rollback/journal.go: the journal's records, and which of its steps rollback reverts
-- (internals/rollback/rollback.go, from `stepActuallyChanged` to `rollbackStepApplies`).
use hardline.Base.{
  ℕ, Text, ◌==◌, codes, Bool, true, false, not, ◌&&◌, ◌||◌, Option, none, some, List, [], ◌∷◌,
  is_nil, if◌then◌else◌, any,
}
use hardline.Pluginapi.Records.{
  ObjectRecord, ObjectKind, CaptureResult, RollbackMode, ServiceReload, object_service,
  object_runtime_policy, records_eq,
}

pub record StepRecord : Type 0 where
  pub id : Text
  pub type : Text
  pub rollback_mode : RollbackMode
  pub before : List ObjectRecord
  pub after : List ObjectRecord
  pub notes : List Text
  pub reload : Option ServiceReload

-- The status is a text in the source; `other_status` is any text but the five that it writes.
pub data Status : Type 0 where
  in_progress interrupted failed success rolling_back : Status
  other_status : Text → Status

pub record Journal : Type 0 where
  pub version : ℕ
  pub run_id : Text
  pub created_at : Text
  pub host : Text
  pub profile_id : Text
  pub profile_path : Text
  pub status : Status
  pub steps : List StepRecord
  pub checksum : Text

-- NewStepRecordFromCapture. The clones share nothing with the capture, as values never do.
unfoldable pub new_step_record : Text → Text → CaptureResult → StepRecord
new_step_record id type capture = record {
  id = id;
  type = type;
  rollback_mode = capture.rollback_mode;
  before = capture.objects;
  after = [];
  notes = capture.notes;
  reload = capture.reload;
}

-- (*StepRecord).SetAfterFromCapture
unfoldable pub set_after : StepRecord → CaptureResult → StepRecord
set_after s capture = record s { after = capture.objects }

unfoldable pub step_actually_changed : StepRecord → Bool
step_actually_changed s =
    if is_nil s.before && is_nil s.after then false else not (records_eq s.before s.after)

unfoldable pub is_service_reload_action : Text → Bool
is_service_reload_action action =
    action == codes "restarted"
    || (action == codes "restart"
        || (action == codes "reloaded"
            || (action == codes "reload" || action == codes "reload-or-restart")))

-- The first step of that id decides.
unfoldable pub step_changed_by_id : List StepRecord → Text → Bool
unfolding step_actually_changed
step_changed_by_id [] id = false
step_changed_by_id (s ∷ rest) id =
    if s.id == id then step_actually_changed s else step_changed_by_id rest id

unfoldable pub reload_triggered : Option ServiceReload → List StepRecord → Bool
unfolding is_service_reload_action step_changed_by_id
reload_triggered none steps = false
reload_triggered (some r) steps =
    if not (is_service_reload_action r.action)
    then false
    else if r.restart_policy == codes "on_change"
    then any (step_changed_by_id steps) r.restart_deps
    else true

unfoldable pub service_reload_triggered : StepRecord → List StepRecord → Bool
unfolding reload_triggered
service_reload_triggered s steps = reload_triggered s.reload steps

unfoldable pub rollback_step_applies : StepRecord → List StepRecord → Bool
unfolding step_actually_changed service_reload_triggered
rollback_step_applies s steps = step_actually_changed s || service_reload_triggered s steps

abbrev pub is_runtime_policy : ObjectKind → Bool
is_runtime_policy object_runtime_policy = true
is_runtime_policy _ = false

abbrev pub is_service : ObjectKind → Bool
is_service object_service = true
is_service _ = false

unfoldable pub step_has_service_objects : StepRecord → Bool
step_has_service_objects s = any (λ o. is_service o.kind) s.before
