-- ===== src/Protocol/Builder.antt =====
-- domains/protocol/builder.go: the lines that the SDK sends, as the values that json.Marshal writes; it
-- sorts the keys of a map.
pub mod RoundTrip
use claude_agent_sdk_go.Base.{String, Option, none, some}
use claude_agent_sdk_go.Json.{Value, Fields, null, str, obj, end, field}
use claude_agent_sdk_go.Protocol.Requests.{SetPermModeRequestBody, SetModelRequestBody}

abbrev str_or_null : Option String → Value
str_or_null none = null
str_or_null (some s) = str s

-- BuildUserMessage
unfoldable pub build_user_message : String → String → Option String → Value
build_user_message session_id content parent_tool_use_id = obj (
    field "message" (obj (field "content" (str content) (field "role" (str "user") end))) (
      field "parent_tool_use_id" (str_or_null parent_tool_use_id)
        (field "session_id" (str session_id) (field "type" (str "user") end))))

-- BuildControlRequest
unfoldable pub build_control_request : String → Value → Value
build_control_request request_id body = obj (
    field "request" body
      (field "request_id" (str request_id) (field "type" (str "control_request") end)))

-- BuildControlResponse
unfoldable pub build_control_response : String → Value → Value
build_control_response request_id body = obj (
    field "response"
      (obj (
        field "request_id" (str request_id)
          (field "response" body (field "subtype" (str "success") end))))
      (field "type" (str "control_response") end))

-- BuildControlErrorResponse
unfoldable pub build_control_error_response : String → String → Value
build_control_error_response request_id err_msg = obj (
    field "response"
      (obj (
        field "error" (str err_msg)
          (field "request_id" (str request_id) (field "subtype" (str "error") end))))
      (field "type" (str "control_response") end))

-- BuildInterruptRequest
unfoldable pub build_interrupt_request : String → Value
unfolding build_control_request
build_interrupt_request request_id =
    build_control_request request_id (obj (field "subtype" (str "interrupt") end))

-- BuildSetPermissionModeRequest
unfoldable pub build_set_permission_mode_request : String → String → Value
unfolding build_control_request
build_set_permission_mode_request request_id mode =
    build_control_request request_id
      (obj (field "subtype" (str "set_permission_mode") (field "mode" (str mode) end)))

-- BuildSetModelRequest
unfoldable pub build_set_model_request : String → String → Value
unfolding build_control_request
build_set_model_request request_id model =
    build_control_request request_id
      (obj (field "subtype" (str "set_model") (field "model" (str model) end)))
