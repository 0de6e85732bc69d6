-- ===== src/Service/Effects.antt =====
-- What the operations of agent-service-live.ts run on: an object's storage, a clock, a source of
-- identifiers and a language model. Each is asked in turn, so that the n-th question to it is a
-- parameter, and the state counts the questions.
use chemistry.Prelude.{ℕ, suc, String, Bool, Option, none, some, List}
use chemistry.Protocol.{AgentRpcError}
use chemistry.Transcript.{Message, PersistedSession}
use chemistry.Transcript.Legacy.{LegacyStoredSession}
use chemistry.Conversation.{PromptEngine}

-- A part of a response of the Effect AI library, with the data that is read here.
pub data ResponsePart : Type 0 where
  text text_delta : String → ResponsePart
  tool_call : (id name : String) (params : Option String) → ResponsePart
  tool_result : (id name : String) (result : Option String) (is_failure : Bool) → ResponsePart
  other : (type : String) → ResponsePart

pub data ToolChoice : Type 0 where
  no_tools automatic : ToolChoice
  required : (tool : String) → ToolChoice

pub record ModelRequest : Type 0 where
  pub prompt : List Message
  pub toolkit : Bool
  pub tool_choice : ToolChoice

-- What a call fails with: the message of an `Error`, or the text of another value.
pub data Cause : Type 0 where
  from_error from_value : String → Cause

-- The parts that came, the text of a whole response, and a failure behind them.
pub record ModelResponse : Type 0 where
  pub parts : List ResponsePart
  pub text : String
  pub failure : Option Cause

-- What `Schema.Json` makes of a payload: its text, or the message of an error.
pub data Json : Type 0 where
  json malformed : String → Json

-- What the storage holds under a session's key, as the two schemas read it.
pub data StoredRecord : Type 0 where
  current : PersistedSession → StoredRecord
  legacy : LegacyStoredSession → StoredRecord
  undecodable : String → StoredRecord

pub record Services : Type 0 where
  pub engine : PromptEngine
  pub next_id : ℕ → String
  pub current_time_millis : ℕ → ℕ
  pub infer : ℕ → ModelRequest → ModelResponse
  pub storage_fault : ℕ → Option String
  pub encode_fault : PersistedSession → Option String
  pub decode_json : Option String → Json
  pub from_response_parts : List ResponsePart → List Message

pub record ServiceState : Type 0 where
  pub stored : String → Option StoredRecord
  pub storage_calls : ℕ
  pub ids : ℕ
  pub readings : ℕ
  pub inferences : ℕ

pub data Attempt {ℓ} (A : Type ℓ) : Type ℓ where
  returned : A → Attempt A
  raised : AgentRpcError → Attempt A

-- An effect keeps what it stored before it fails.
abbrev pub Agent {ℓ} : Type ℓ → Type ℓ
Agent A = ServiceState → Attempt A × ServiceState

abbrev pub succeed {ℓ} : {A : Type ℓ} → A → Agent A
succeed value state = (returned value, state)

abbrev pub fail {ℓ} : {A : Type ℓ} → AgentRpcError → Agent A
fail error state = (raised error, state)

unfoldable pub followed_by {ℓ κ} :
    {A : Type ℓ} {B : Type κ} → Attempt A × ServiceState → (A → Agent B) → Attempt B × ServiceState
followed_by (returned value, state) next = next value state
followed_by (raised error, state) next = (raised error, state)

infixl 5 ◌>>=◌
abbrev pub ◌>>=◌ {ℓ κ} : {A : Type ℓ} {B : Type κ} → Agent A → (A → Agent B) → Agent B
(first >>= next) state = followed_by (first state) next

infixl 5 ◌>>◌
abbrev pub ◌>>◌ {κ} : {B : Type κ} → Agent (Unit {0}) → Agent B → Agent B
first >> second = first >>= λ _. second

-- An effect that may fail with a message.
unfoldable pub fail_with : Option String → (String → AgentRpcError) → Agent (Unit {0})
fail_with none error state = (returned tt, state)
fail_with (some message) error state = (raised (error message), state)

-- `ids.next()`
abbrev pub draw_id : Services → ServiceState → String × ServiceState
draw_id env state = (env.next_id state.ids, record state { ids = suc state.ids })

-- `Clock.currentTimeMillis`
abbrev pub read_clock : Services → ServiceState → ℕ × ServiceState
read_clock env state =
    (env.current_time_millis state.readings, record state { readings = suc state.readings })

-- `generateText` or the whole of `streamText`.
abbrev pub ask_model : Services → ModelRequest → ServiceState → ModelResponse × ServiceState
ask_model env request state =
    (env.infer state.inferences request, record state { inferences = suc state.inferences })
