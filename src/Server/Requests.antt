-- ===== src/Server/Requests.antt =====
-- The requests of internal/core/domain/api.go and their checks. The text of an APIError is left out
-- where it only goes to the caller.
use super_duper_bassoon.Common.{
  ℕ, String, Bool, true, false, Option, none, some, if◌then◌else◌, str_eq, not, ◌||◌,
}
use super_duper_bassoon.Common.Fault.{Result, ok, err, validation_error, invalid_request}
use super_duper_bassoon.Common.Int.{ℤ, pos, ltb_ℤ, leb_ℤ}
use super_duper_bassoon.Client.Value.{Fields}
use super_duper_bassoon.Client.Activity.{ActivityType, activity-IsValid}
use super_duper_bassoon.Server.Workflow.{TriggerSpec}

-- GetHTTPStatus, by the code of the error
unfoldable pub get_http_status : String → ℕ
get_http_status code =
    if str_eq code "NOT_FOUND"
    then 404
    else if str_eq code "BAD_REQUEST"
        || str_eq code "INVALID_FILTER"
        || str_eq code "VALIDATION_ERROR"
    then 400
    else if str_eq code "CONFLICT"
    then 409
    else if str_eq code "FORBIDDEN"
    then 403
    else 500

pub record QueryFilter : Type 0 where
  pub limit : ℤ
  pub offset : ℤ
  pub sort_by : String
  pub sort_order : String

unfoldable pub validate_query : QueryFilter → Result (Unit {0})
validate_query q =
    if ltb_ℤ q.limit (pos 0) || ltb_ℤ (pos 1000) q.limit
    then err invalid_request
    else if ltb_ℤ q.offset (pos 0)
    then err invalid_request
    else ok tt

unfoldable pub get_limit : QueryFilter → ℤ
get_limit q = if leb_ℤ q.limit (pos 0) then pos 10 else q.limit

unfoldable pub get_offset : QueryFilter → ℤ
get_offset q = if ltb_ℤ q.offset (pos 0) then pos 0 else q.offset

pub record CreateWorkflowRequest (F : Type 0) : Type 0 where
  pub name : String
  pub description : String
  pub workflow_type : String
  pub activity : ActivityType
  pub params : Fields F
  pub target_filter : String
  pub trigger : TriggerSpec F
  pub success_threshold : F
  pub loop_threshold_ms : ℤ
  pub timeout_ms : ℤ
  pub enabled : Option Bool

unfoldable pub validate_create : {F : Type 0} → CreateWorkflowRequest F → Result (Unit {0})
validate_create r =
    if str_eq r.name ""
    then err validation_error
    else if str_eq r.workflow_type ""
    then err validation_error
    else if not (activity-IsValid r.activity)
    then err validation_error
    else ok tt

-- `none` for a nil pointer or a nil map.
pub record EditWorkflowRequest (F : Type 0) : Type 0 where
  pub name : Option String
  pub description : Option String
  pub params : Option (Fields F)
  pub target_filter : Option String
  pub success_threshold : Option F
  pub loop_threshold_ms : Option ℤ
  pub timeout_ms : Option ℤ
  pub enabled : Option Bool

abbrev pub is_some {ℓ} : {A : Type ℓ} → Option A → Bool
is_some none = false
is_some (some a) = true

unfoldable pub has_changes : {F : Type 0} → EditWorkflowRequest F → Bool
has_changes r =
    is_some r.name
    || is_some r.description
    || is_some r.params
    || is_some r.target_filter
    || is_some r.success_threshold
    || is_some r.loop_threshold_ms
    || is_some r.timeout_ms
    || is_some r.enabled

unfoldable pub validate_edit : {F : Type 0} → EditWorkflowRequest F → Result (Unit {0})
validate_edit r = if not (has_changes r) then err validation_error else ok tt

pub record UnbanRequest : Type 0 where
  pub workflow_type : String
  pub admin_id : String
  pub reason : String

unfoldable pub validate_unban : UnbanRequest → Result (Unit {0})
validate_unban r =
    if str_eq r.admin_id ""
    then err validation_error
    else if str_eq r.reason ""
    then err validation_error
    else ok tt
