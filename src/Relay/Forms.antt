-- ===== src/Relay/Forms.antt =====
-- The texts that forwarder/app/services/relay.py makes of a work order, and the target states that it
-- reads off a result. `upper` is Python's on ASCII texts; other letters, which Python may turn into
-- ASCII ones, stay as they are.
use jd_relay.Common.{
  ℕ, ◌-◌, ◌&&◌, List, [], ◌∷◌, ◌++◌, Option, none, some, Text, codes, text_eq, join, if◌then◌else◌,
  leb,
}
use jd_relay.Common.Dict.{Dict, lookup}
use jd_relay.WorkOrder.{WorkOrderState, success, failed}

abbrev pub WorkOrderDict : Type 0
WorkOrderDict = Dict Text

-- d.get(key, default)
abbrev pub or_default : Text → Option Text → Text
or_default d none = d
or_default d (some v) = v

unfoldable pub get_or : Text → WorkOrderDict → Text → Text
get_or key work_order default = or_default default (lookup key work_order)

unfoldable pub upper_char : ℕ → ℕ
upper_char c = if leb b'a' c && leb c b'z' then c - 32 else c

unfoldable pub upper : Text → Text
unfolding upper_char
upper [] = []
upper (c ∷ s) = upper_char c ∷ upper s

pub record ApprovalRequest : Type 0 where
  pub originator_user_id : Text
  pub process_code : Text
  pub title : Text
  pub form_values : List (Text × Text)
  pub approvers : List Text

unfoldable pub approval_form : WorkOrderDict → List (Text × Text)
unfolding get_or
approval_form work_order =
    (codes "工单编号", get_or (codes "order_no") work_order [])
    ∷ (codes "ISSUE", get_or (codes "issue") work_order [])
    ∷ (codes "项目", get_or (codes "project") work_order [])
    ∷ (codes "分支", get_or (codes "branch") work_order [])
    ∷ (codes "构建命令", get_or (codes "build_cmd") work_order [])
    ∷ []

-- An f-string prints a missing value as None.
unfoldable pub approval_title : WorkOrderDict → Text
unfolding get_or
approval_title work_order =
    codes "[JD-Relay] "
    ++ (get_or (codes "issue") work_order (codes "None")
        ++ (codes " — " ++ get_or (codes "project") work_order (codes "None")))

-- The state that a build status asks for.
abbrev pub build_target : Text → Option WorkOrderState
build_target status =
    if text_eq (upper status) (codes "SUCCESS")
    then some success
    else if text_eq (upper status) (codes "FAILED")
    then some failed
    else none

unfoldable pub review_form : WorkOrderDict → List Text → List (Text × Text)
unfolding get_or join
review_form work_order changed_files =
    (codes "工单编号", get_or (codes "order_no") work_order [])
    ∷ (codes "变更文件", join (codes ", ") changed_files)
    ∷ (codes "风险说明", codes "special.md 文件变更，需要二次审核")
    ∷ []
