-- ===== src/Gateway/Repository/Digest.antt =====
-- gateway/repository.py: the content of a request that its digest covers.
use Prim.Native.String.{String}
use aegis_agent_platform.Prelude.{Option, none, some, List, [], ◌∷◌, map}
use aegis_agent_platform.Domain.Events.{
  Name, Payload, JsonValue, JsonItems, JsonFields, null, bool, int, text, name, decimal, array,
  object, nil, cons, end, field,
}
use aegis_agent_platform.Domain.Model.{
  MessageRole, system, user, assistant, tool, ContentPart, text_part, image_part, tool_call_part,
  tool_result_part, ModelMessage, ModelIdentity, JsonSchema, ToolDefinition, ModelRequest,
}
use aegis_agent_platform.Gateway.Repository.{Host}

abbrev items : List JsonValue → JsonItems
items [] = nil
items (v ∷ vs) = cons v (items vs)

abbrev fields : Payload → JsonFields
fields [] = end
fields ((k, v) ∷ d) = field k v (fields d)

-- `MessageRole.value`
abbrev message_role_value : MessageRole → String
message_role_value system = "system"
message_role_value user = "user"
message_role_value assistant = "assistant"
message_role_value tool = "tool"

-- `_content_part_payload`; `thaw_json` keeps every value.
abbrev content_part_payload : ContentPart → JsonValue
content_part_payload (text_part t) = object (fields (("kind", text "text") ∷ ("text", name t) ∷ []))
content_part_payload (image_part media_type uri) =
    object
      (fields (("kind", text "image") ∷ ("media_type", name media_type) ∷ ("uri", name uri) ∷ []))
content_part_payload (tool_call_part p) = object (
    fields (
      ("kind", text "tool_call")
      ∷ ("call_id", name p.call_id)
      ∷ ("tool_name", name p.tool_name)
      ∷ ("arguments", object (fields p.arguments))
      ∷ []))
content_part_payload (tool_result_part call_id content is_error) = object (
    fields (
      ("kind", text "tool_result")
      ∷ ("call_id", name call_id)
      ∷ ("content", content)
      ∷ ("is_error", bool is_error)
      ∷ []))

abbrev null_or : Option Name → JsonValue
null_or none = null
null_or (some n) = name n

-- `_message_payload`
abbrev message_payload : ModelMessage → JsonValue
message_payload m = object (
    fields (
      ("role", text (message_role_value m.role))
      ∷ ("name", null_or m.name)
      ∷ ("content", array (items (map content_part_payload m.content)))
      ∷ []))

-- `_model_identity_payload`
abbrev model_identity_payload : Option ModelIdentity → JsonValue
model_identity_payload none = null
model_identity_payload (some i) =
    object (fields (("provider", name i.provider) ∷ ("model", name i.model) ∷ []))

abbrev tool_payload : ToolDefinition → JsonValue
tool_payload t = object (
    fields (
      ("name", name t.name)
      ∷ ("description", name t.description)
      ∷ ("strict", bool t.input_schema.strict)
      ∷ ("schema", object (fields t.input_schema.schema))
      ∷ []))

abbrev schema_payload : Option JsonSchema → JsonValue
schema_payload none = null
schema_payload (some s) = object (
    fields (
      ("name", name s.name)
      ∷ ("strict", bool s.strict)
      ∷ ("schema", object (fields s.schema))
      ∷ []))

abbrev pub content_payload : ModelRequest → JsonValue
content_payload r = object (
    fields (
      ("messages", array (items (map message_payload r.messages)))
      ∷ ("requested_model", model_identity_payload r.requested_model)
      ∷ ("max_output_tokens", int r.max_output_tokens)
      ∷ ("prompt_token_estimate", int r.prompt_token_estimate)
      ∷ ("temperature", decimal r.temperature)
      ∷ ("tools", array (items (map tool_payload r.tools)))
      ∷ ("response_schema", schema_payload r.response_schema)
      ∷ []))

unfoldable pub request_content_digest : Host → ModelRequest → Name
request_content_digest host request = host.sha256_json (content_payload request)
