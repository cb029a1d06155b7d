-- ===== src/Handlers/Jobs/Encoding.antt =====
-- The types of internal/handlers/job_submission.go and their JSON forms; `omitempty` leaves a field
-- out when it is empty.
use siger_api_gateway.Common.{String, List, [], ◌∷◌, ◌==◌, ℤ, Time, if◌then◌else◌}
use siger_api_gateway.Http.{
  Json, null, str, int, time, arr, obj, Items, nil, cons, Fields, end, field,
}

pub record JobRequest : Type 0 where
  pub type : String
  pub name : String
  pub description : String
  pub gpu_type : String
  pub gpu_count : ℤ
  pub priority : ℤ
  pub params : Json
  pub tags : List String

pub record JobResponse : Type 0 where
  pub job_id : String
  pub status : String
  pub timestamp : Time
  pub message : String

-- `JobMessage` repeats the fields of the request.
pub record JobMessage : Type 0 where
  pub job_id : String
  pub user_id : String
  pub request : JobRequest
  pub timestamp : Time

pub record CancelMessage : Type 0 where
  pub job_id : String
  pub timestamp : Time

abbrev pub omit_empty : String → String → Fields → Fields
omit_empty name v rest = if v == "" then rest else field name (str v) rest

abbrev texts : List String → Items
texts [] = nil
texts (s ∷ ss) = cons (str s) (texts ss)

abbrev omit_empty_list : String → List String → Fields → Fields
omit_empty_list name [] rest = rest
omit_empty_list name (s ∷ ss) rest = field name (arr (texts (s ∷ ss))) rest

unfoldable pub job_response_json : JobResponse → Json
job_response_json p = obj (
    field "job_id" (str p.job_id) (
      field "status" (str p.status)
        (field "timestamp" (time p.timestamp) (omit_empty "message" p.message end))))

unfoldable pub job_message_json : JobMessage → Json
job_message_json m =
    let q = m.request in
    let last = omit_empty_list "tags" q.tags (field "timestamp" (time m.timestamp) end) in
    let hardware = field "gpu_type" (str q.gpu_type) (
      field "gpu_count" (int q.gpu_count)
        (field "priority" (int q.priority) (field "params" q.params last))) in
    let named =
      field "type" (str q.type)
        (field "name" (str q.name) (omit_empty "description" q.description hardware)) in
    obj (field "job_id" (str m.job_id) (omit_empty "user_id" m.user_id named))

unfoldable pub cancel_message_json : CancelMessage → Json
cancel_message_json m =
    obj (field "job_id" (str m.job_id) (field "timestamp" (time m.timestamp) end))

items : List JobResponse → Items
unfolding job_response_json
items [] = nil
items (p ∷ ps) = cons (job_response_json p) (items ps)

-- A nil slice, to which nothing was appended, is encoded as `null`.
unfoldable pub responses_json : List JobResponse → Json
unfolding items
responses_json [] = null
responses_json (p ∷ ps) = arr (items (p ∷ ps))
