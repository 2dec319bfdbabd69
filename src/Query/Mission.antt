-- ===== src/Query/Mission.antt =====
-- `selectCurrentMissionAuthority` of telemetry-dashboard/query-api/src/current-authority.ts: the
-- observation of a task's execution that is the latest, and the binding that it makes.
pub mod Order
pub mod Kept
pub mod Latest
use Prim.Native.String.{◌∷◌ as text_cons}
use Prim.Native.Char.{code}
use smpp_telemetry_platform.Base.{
  ℕ, String, Bool, true, false, not, ◌&&◌, ◌||◌, Option, none, some, List, [], ◌∷◌, ltb, ◌==◌,
  str_eq, if◌then◌else◌,
}
use smpp_telemetry_platform.Base.Text.{one_of, text_le}
use smpp_telemetry_platform.Base.Result.{Result, ok, err, ◌>>=◌, ◌>>◌, require, some_or}
use smpp_telemetry_platform.Json.{str}
use smpp_telemetry_platform.Query.Urn.{UriCodec, ◌⋯◌}
use smpp_telemetry_platform.Query.Scope.{authority_identity}

-- `MissionAuthorityObservation`
pub record Observation : Type 0 where
  pub task_id : String
  pub external_execution_id : String
  pub observed_at : String
  pub record_id : String
  pub relation_status : String
  pub device_mission_id : Option String

pub record Binding : Type 0 where
  pub task_id : String
  pub external_execution_id : String
  pub device_mission_id : String
  pub authority_record_id : String
  pub observed_at : String

-- `CurrentMissionAuthority`
pub record Current : Type 0 where
  pub latest_state : Option Observation
  pub current_binding : Option Binding

abbrev pub statuses : List String
statuses = "exact" ∷ "unresolved" ∷ "conflict" ∷ []

-- `value.includes("T")`
unfoldable pub has_t : String → Bool
has_t String.[] = false
has_t (String.◌∷◌ c s) = if code c == b'T' then true else has_t s

-- `value.replace(" ", "T")`: the first space only
unfoldable pub replace_space : String → String
replace_space String.[] = ""
replace_space (String.◌∷◌ c s) =
    if code c == b' ' then text_cons "T" s else text_cons c (replace_space s)

unfoldable pub same_mission : Option String → Option String → Bool
same_mission none none = true
same_mission (some a) (some b) = str_eq a b
same_mission _ _ = false

-- `sameObservation`
unfoldable pub same_observation : Observation → Observation → Bool
unfolding same_mission
same_observation left right =
    str_eq left.task_id right.task_id
    && str_eq left.external_execution_id right.external_execution_id
    && str_eq left.observed_at right.observed_at
    && str_eq left.record_id right.record_id
    && str_eq left.relation_status right.relation_status
    && same_mission left.device_mission_id right.device_mission_id

-- `byRecord.get(id)`; the map is the list of its values, in the order of its keys
unfoldable pub find_record : List Observation → String → Option Observation
find_record [] id = none
find_record (p ∷ ps) id = if str_eq p.record_id id then some p else find_record ps id

-- `byRecord.set(id, observation)`; a key that is there keeps its place
unfoldable pub put_record : List Observation → Observation → List Observation
put_record [] o = o ∷ []
put_record (p ∷ ps) o = if str_eq p.record_id o.record_id then o ∷ ps else p ∷ put_record ps o

abbrev pub agrees : Option Observation → Observation → Bool
agrees none o = true
agrees (some prior) o = same_observation prior o

abbrev pub nothing_current : Current
nothing_current = record { latest_state = none; current_binding = none }

abbrev pub last : List Observation → Option Observation
last [] = none
last (o ∷ []) = some o
last (o ∷ p ∷ ps) = last (p ∷ ps)

-- a mission's identifier that is neither null nor empty
abbrev pub named_mission : Option String → Option String
named_mission none = none
named_mission (some mission) = if str_eq mission "" then none else some mission

abbrev pub bound : String → String → Observation → Option String → Current
bound task execution o none = record { latest_state = some o; current_binding = none }
bound task execution o (some mission) = record {
  latest_state = some o;
  current_binding = some (record {
    task_id = task;
    external_execution_id = execution;
    device_mission_id = mission;
    authority_record_id = o.record_id;
    observed_at = o.observed_at;
  });
}

-- what the latest observation makes current
unfoldable pub current_of : String → String → Option Observation → Current
current_of task execution none = nothing_current
current_of task execution (some o) =
    if str_eq o.relation_status "exact"
    then bound task execution o (named_mission o.device_mission_id)
    else record { latest_state = some o; current_binding = none }

-- `date_parse` is `Date.parse`, its times numbered in their order; `none` is its NaN
module _ (uri : UriCodec) (date_parse : String → Option ℕ) where
  unfoldable pub observation_time : String → Result ℕ
  unfolding has_t replace_space
  observation_time value =
      some_or "MISSION_AUTHORITY_TIME_INVALID"
        (date_parse (if has_t value then value else replace_space value ⋯ "Z"))

  -- the time of an observation that has passed `observationTime`
  abbrev pub time_or_zero : Result ℕ → ℕ
  time_or_zero (ok time) = time
  time_or_zero (err _) = 0

  unfoldable pub moment : Observation → ℕ
  unfolding observation_time
  moment o = time_or_zero (observation_time o.observed_at)

  -- `compareAuthority(left, right) <= 0`
  unfoldable pub authority_le : Observation → Observation → Bool
  unfolding moment text_le
  authority_le left right =
      ltb (moment left) (moment right)
      || moment left == moment right && text_le left.record_id right.record_id

  unfoldable pub insert : Observation → List Observation → List Observation
  unfolding authority_le
  insert o [] = o ∷ []
  insert o (p ∷ ps) = if authority_le o p then o ∷ p ∷ ps else p ∷ insert o ps

  -- `[...].sort(compareAuthority)`
  unfoldable pub sort : List Observation → List Observation
  unfolding insert
  sort [] = []
  sort (o ∷ os) = insert o (sort os)

  -- the body of the loop
  unfoldable pub add : String → String → List Observation → Observation → Result (List Observation)
  unfolding observation_time same_observation find_record put_record
  add task execution seen o = do
    require (str_eq o.task_id task && str_eq o.external_execution_id execution)
        "MISSION_AUTHORITY_SCOPE_MISMATCH"
    id ← authority_identity uri "MISSION_AUTHORITY_RECORD_ID_INVALID" (str o.record_id)
    time ← observation_time o.observed_at
    require (one_of statuses o.relation_status) "MISSION_AUTHORITY_STATUS_INVALID"
    require (agrees (find_record seen o.record_id) o) "MISSION_AUTHORITY_REPLAY_CONFLICT"
    ok (put_record seen o)

  unfoldable pub collect :
      String → String → List Observation → List Observation → Result (List Observation)
  unfolding add
  collect task execution seen [] = ok seen
  collect task execution seen (o ∷ os) = do
    later ← add task execution seen o
    collect task execution later os

  unfoldable pub select_current_mission_authority : List Observation → Result Current
  unfolding collect sort current_of
  select_current_mission_authority [] = ok nothing_current
  select_current_mission_authority (o ∷ os) = do
    task ← authority_identity uri "MISSION_AUTHORITY_TASK_ID_INVALID" (str o.task_id)
    execution ←
        authority_identity uri "MISSION_AUTHORITY_EXECUTION_ID_INVALID"
          (str o.external_execution_id)
    records ← collect task execution [] (o ∷ os)
    ok (current_of task execution (last (sort records)))
