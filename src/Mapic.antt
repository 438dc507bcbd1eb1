-- ===== src/Mapic.antt =====
-- mapic/mistapiconnector_app.go and mapic/utils.go: the Mist API connector keeps the streams of
-- this node and makes Mist push them to their multistream targets. The Livepeer API and the state
-- that Mist reports are parameters. A time is a number of nanoseconds, zero for the zero time.
pub mod Names
pub mod Push
pub mod Streams
pub mod Handlers
pub mod Reconcile
use dms_api.Prelude.{ℕ, String, Bool, List}
use dms_api.Prelude.Dict.{Dict}
use dms_api.Result.{Result}

-- `api.MultistreamTarget`
pub record Target : Type 0 where
  pub id : String
  pub name : String
  pub url : String
  pub disabled : Bool

-- `api.MultistreamTargetRef`
pub record TargetRef : Type 0 where
  pub target_id : String
  pub profile : String
  pub video_only : Bool

-- `api.Profile`
pub record Rendition : Type 0 where
  pub name : String
  pub width : ℕ
  pub height : ℕ

-- `api.Stream`
pub record Stream : Type 0 where
  pub id : String
  pub parent_id : String
  pub playback_id : String
  pub user_id : String
  pub deleted : Bool
  pub suspended : Bool
  pub profiles : List Rendition
  pub targets : List TargetRef

-- `lastEvent`, which is empty until the first event
pub data PushEvent : Type 0 where
  quiet : PushEvent
  connected : PushEvent
  failed : PushEvent
  disconnected : PushEvent

-- `pushStatus`
pub record PushStatus : Type 0 where
  pub target : Target
  pub profile : String
  pub last_event : PushEvent
  pub last_event_at : ℕ
  pub error_count : ℕ

-- `streamInfo`. Its channel `done` is closed when the entry leaves the map: the waits on an entry
-- end with it.
pub record StreamInfo : Type 0 where
  pub id : String
  pub is_lazy : Bool
  pub stream : Stream
  pub started_at : ℕ
  pub stopped : Bool
  pub pushes : Dict PushStatus

-- The map `streamInfo` of the connector, by playback id.
abbrev pub StreamInfos : Type 0
StreamInfos = Dict StreamInfo

-- The Livepeer API.
pub record Api : Type 0 where
  pub stream_by_playback_id : String → Result Stream
  pub multistream_target : String → Result Target

-- `MistPushAuto`, `MistPush` and `MistState` of clients/mist_client.go. An active stream is known
-- by its source.
pub record PushAuto : Type 0 where
  pub stream : String
  pub target : String
  pub stream_params : List String

pub record MistPush : Type 0 where
  pub push_id : ℕ
  pub stream : String
  pub original_url : String

pub record MistState : Type 0 where
  pub active_streams : Dict String
  pub push_auto_list : List PushAuto
  pub push_list : List MistPush
