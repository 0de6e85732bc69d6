-- ===== src/Service/Rounds/Silence.antt =====
-- The effects of packages/agent-runtime/src/agent-service-live.ts that do not ask the model.
use chemistry.Prelude.{ℕ, String, Option, none, some, List, [], ◌∷◌, ◌≡◌, refl, ◌∙◌}
use chemistry.Protocol.{AgentRpcError}
use chemistry.Transcript.{Message, StoredSession}
use chemistry.Service.Effects.{
  ResponsePart, Services, ServiceState, Attempt, returned, raised, Agent, followed_by, fail_with,
  read_clock,
}
use chemistry.Service.Store.{storage_call, save}
use chemistry.Service.Response.{
  Draft, persist_segment, persist_segments, transcript_segments_from_response, persist_response,
}
use chemistry.Service.Rounds.{save_empty, complete_empty}

-- An effect that asked the model nothing, in any outcome.
abbrev pub IsSilent {ℓ} : {A : Type ℓ} → ServiceState → Attempt A × ServiceState → Type 0
IsSilent before ran = ran.1.inferences ≡ before.inferences

pub fail_with-IsSilent :
    (fault : Option String) (error : String → AgentRpcError) (state : ServiceState)
    → IsSilent state (fail_with fault error state)
unfolding fail_with
fail_with-IsSilent none error state = refl
fail_with-IsSilent (some message) error state = refl

pub followed_by-IsSilent {ℓ κ} :
    {A : Type ℓ} {B : Type κ} (before : ServiceState) (ran : Attempt A × ServiceState)
    (next : A → Agent B)
    → IsSilent before ran
    → ((value : A) (state : ServiceState) → IsSilent state (next value state))
    → IsSilent before (followed_by ran next)
unfolding followed_by
followed_by-IsSilent before (returned value, state) next h k = k value state ∙ h
followed_by-IsSilent before (raised error, state) next h k = h

pub save-IsSilent :
    (env : Services) (session : StoredSession) (state : ServiceState)
    → IsSilent state (save env session state)
unfolding save storage_call
save-IsSilent env session state =
    followed_by-IsSilent state _ _ (fail_with-IsSilent _ _ state)
      (λ value last. followed_by-IsSilent last _ _ (fail_with-IsSilent _ _ _) (λ other later. refl))

persist_segment_silent :
    (env : Services) (draft : Draft) (id : Option String) (segment : Message) (time : ℕ)
    (state : ServiceState)
    → (persist_segment env draft id segment time state).1.inferences ≡ state.inferences
unfolding persist_segment
persist_segment_silent env draft none segment time state = refl
persist_segment_silent env draft (some id) (Message.assistant content) time state = refl
persist_segment_silent env draft (some id) (Message.tool content) time state = refl
persist_segment_silent env draft (some id) (Message.user content) time state = refl
persist_segment_silent env draft (some id) (Message.system content) time state = refl

pub persist_segments_silent :
    (env : Services) (draft : Draft) (segments : List Message) (state : ServiceState)
    → (persist_segments env draft segments state).1.inferences ≡ state.inferences
unfolding persist_segments
persist_segments_silent env draft [] state = refl
persist_segments_silent env draft (segment ∷ rest) state =
    let read = read_clock env state in
    let next = persist_segment env draft draft.available_assistant_id segment read.0 read.1 in
    persist_segments_silent env next.0 rest next.1
    ∙ persist_segment_silent env draft draft.available_assistant_id segment read.0 read.1

pub persist_response-IsSilent :
    (env : Services) (active : StoredSession) (parts : List ResponsePart) (id : Option String)
    (state : ServiceState)
    → IsSilent state (persist_response env active parts id state)
unfolding persist_response
persist_response-IsSilent env active parts id state =
    let draft : Draft = record {
      messages = active.messages;
      assistant = none;
      available_assistant_id = id;
    } in
    let segments = transcript_segments_from_response env parts in
    followed_by-IsSilent state _ _
      (save-IsSilent env _ _ ∙ persist_segments_silent env draft segments state)
      (λ value later. refl)

pub complete_empty-IsSilent :
    (env : Services) (session : StoredSession) (id : Option String) (state : ServiceState)
    → IsSilent state (complete_empty env session id state)
unfolding complete_empty save_empty
complete_empty-IsSilent env session none state =
    followed_by-IsSilent state _ _ (save-IsSilent env _ _) (λ value later. refl)
complete_empty-IsSilent env session (some id) state =
    followed_by-IsSilent state _ _ (save-IsSilent env _ _) (λ value later. refl)
