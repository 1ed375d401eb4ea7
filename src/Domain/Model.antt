-- ===== src/Domain/Model.antt =====
-- domain/model.py: the provider-neutral model contracts. A constructor's checks (`__post_init__`)
-- are a Boolean, true where it raises nothing; checks that a number is not negative hold by type.
use aegis_agent_platform.Prelude.{
  ℕ, ◌+◌, ◌*◌, String, Bool, true, false, Option, none, some, List, [], ◌∷◌, map, any_by, contains,
  not, ◌&&◌, ltb, leb,
}
use aegis_agent_platform.Domain.Events.{Name, Uuid, Instant, Amount, JsonValue, Payload}

pub data MessageRole : Type 0 where
  system user assistant tool : MessageRole

pub data FinishReason : Type 0 where
  stop length tool_calls refusal content_filter cancelled unknown : FinishReason

pub data SafetyOutcome : Type 0 where
  allowed refused filtered : SafetyOutcome

pub data ModelErrorClass : Type 0 where
  authentication authorization invalid_request capability schema safety : ModelErrorClass
  rate_limit timeout cancelled transient provider_unavailable : ModelErrorClass
  malformed_response provider_bug : ModelErrorClass

pub record ToolCallProposal : Type 0 where
  pub call_id : Name
  pub tool_name : Name
  pub arguments : Payload

pub data ContentPart : Type 0 where
  text_part : Name → ContentPart
  -- the media type and the uri
  image_part : Name → Name → ContentPart
  tool_call_part : ToolCallProposal → ContentPart
  -- the call's id, the content, `is_error`
  tool_result_part : Name → JsonValue → Bool → ContentPart

pub record ModelMessage : Type 0 where
  pub role : MessageRole
  pub content : List ContentPart
  pub name : Option Name

abbrev is_text : ContentPart → Bool
is_text (text_part _) = true
is_text _ = false

abbrev is_tool_result : ContentPart → Bool
is_tool_result (tool_result_part _ _ _) = true
is_tool_result _ = false

abbrev pub is_empty {ℓ} : {A : Type ℓ} → List A → Bool
is_empty [] = true
is_empty (_ ∷ _) = false

-- The role's rule in `ModelMessage.__post_init__`.
abbrev role_allows : MessageRole → List ContentPart → Bool
role_allows system parts = not (any_by (λ p. not (is_text p)) parts)
role_allows tool parts = not (any_by (λ p. not (is_tool_result p)) parts)
role_allows _ parts = true

abbrev name_is_given : Option Name → Bool
name_is_given none = true
name_is_given (some n) = ltb 0 n

-- `ModelMessage.__post_init__`
unfoldable pub message_is_valid : ModelMessage → Bool
message_is_valid m =
    not (is_empty m.content) && name_is_given m.name && role_allows m.role m.content

pub record JsonSchema : Type 0 where
  pub name : Name
  pub schema : Payload
  pub strict : Bool

pub record ToolDefinition : Type 0 where
  pub name : Name
  pub description : Name
  pub input_schema : JsonSchema

pub record ModelCapabilities : Type 0 where
  pub max_context_tokens : ℕ
  pub max_output_tokens : ℕ
  pub supports_tools : Bool
  pub supports_vision : Bool
  pub supports_structured_output : Bool
  pub supports_reasoning_tokens : Bool
  pub supports_cache_tokens : Bool

-- `ModelCapabilities.__post_init__`
unfoldable pub capabilities_are_valid : ModelCapabilities → Bool
capabilities_are_valid c =
    leb 1 c.max_context_tokens
    && leb 1 c.max_output_tokens
    && leb c.max_output_tokens c.max_context_tokens

pub record ModelIdentity : Type 0 where
  pub provider : Name
  pub model : Name

pub record TokenUsage : Type 0 where
  pub input_tokens : ℕ
  pub output_tokens : ℕ
  pub cache_read_tokens : ℕ
  pub cache_write_tokens : ℕ
  pub reasoning_tokens : ℕ

unfoldable pub billable_tokens : TokenUsage → ℕ
billable_tokens u =
    u.input_tokens + u.output_tokens + u.cache_read_tokens + u.cache_write_tokens
    + u.reasoning_tokens

-- Prices in a fraction of a dollar per million tokens.
pub record PricingVersion : Type 0 where
  pub version : Name
  pub effective_at : Instant
  pub input_per_million_usd : Amount
  pub output_per_million_usd : Amount
  pub cache_read_per_million_usd : Amount
  pub cache_write_per_million_usd : Amount
  pub reasoning_per_million_usd : Amount

-- `PricingVersion.cost`. Amounts are in a millionth of the prices' fraction, so that the division
-- by a million is exact.
unfoldable pub cost : PricingVersion → TokenUsage → Amount
cost p u =
    u.input_tokens * p.input_per_million_usd
    + u.output_tokens * p.output_per_million_usd
    + u.cache_read_tokens * p.cache_read_per_million_usd
    + u.cache_write_tokens * p.cache_write_per_million_usd
    + u.reasoning_tokens * p.reasoning_per_million_usd

pub record SafetyResult : Type 0 where
  pub outcome : SafetyOutcome
  pub reason_code : Option Name

pub record ModelRequest : Type 0 where
  pub request_id : Uuid
  pub tenant_id : Name
  pub run_id : Uuid
  pub messages : List ModelMessage
  pub max_output_tokens : ℕ
  pub prompt_token_estimate : ℕ
  pub requested_model : Option ModelIdentity
  pub tools : List ToolDefinition
  pub response_schema : Option JsonSchema
  -- in hundredths
  pub temperature : ℕ
  -- in microseconds
  pub timeout : ℕ
  pub idempotency_key : Name

-- `len(tool_names) == len(set(tool_names))`
abbrev pub unique : List Name → Bool
unique [] = true
unique (n ∷ ns) = not (contains n ns) && unique ns

-- `ModelRequest.__post_init__`
unfoldable pub request_is_valid : ModelRequest → Bool
request_is_valid r =
    ltb 0 r.tenant_id
    && not (is_empty r.messages)
    && ltb 0 r.idempotency_key
    && leb 1 r.max_output_tokens
    && leb 1 r.prompt_token_estimate
    && ltb 0 r.timeout
    && leb r.timeout 600000000
    && leb r.temperature 200
    && unique (map (λ t. t.name) r.tools)

pub record ModelResponse : Type 0 where
  pub request_id : Uuid
  pub model : ModelIdentity
  pub content : List ContentPart
  pub finish_reason : FinishReason
  pub safety : SafetyResult
  pub usage : TokenUsage
  pub latency_ms : ℕ
  pub provider_request_id : Option Name
  pub structured_output : Option Payload

pub record ModelGatewayError : Type 0 where
  pub error_class : ModelErrorClass
  pub code : String
  pub retryable : Bool
  -- in microseconds
  pub retry_after : Option ℕ
  pub billing_ambiguous : Bool

-- `ModelErrorClass.value`
unfoldable pub error_class_value : ModelErrorClass → String
error_class_value authentication = "authentication"
error_class_value authorization = "authorization"
error_class_value invalid_request = "invalid_request"
error_class_value capability = "capability"
error_class_value schema = "schema"
error_class_value safety = "safety"
error_class_value rate_limit = "rate_limit"
error_class_value timeout = "timeout"
error_class_value ModelErrorClass.cancelled = "cancelled"
error_class_value transient = "transient"
error_class_value provider_unavailable = "provider_unavailable"
error_class_value malformed_response = "malformed_response"
error_class_value provider_bug = "provider_bug"

-- `FinishReason.value`
unfoldable pub finish_reason_value : FinishReason → String
finish_reason_value stop = "stop"
finish_reason_value FinishReason.length = "length"
finish_reason_value tool_calls = "tool_calls"
finish_reason_value refusal = "refusal"
finish_reason_value content_filter = "content_filter"
finish_reason_value FinishReason.cancelled = "cancelled"
finish_reason_value unknown = "unknown"

-- `SafetyOutcome.value`
unfoldable pub safety_outcome_value : SafetyOutcome → String
safety_outcome_value allowed = "allowed"
safety_outcome_value refused = "refused"
safety_outcome_value filtered = "filtered"
