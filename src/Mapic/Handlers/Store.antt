-- ===== src/Mapic/Handlers/Store.antt =====
-- mapic/mistapiconnector_app.go: the handlers that change one push status of the map, and those
-- that only send commands to Mist.
use dms_api.Prelude.{
  ℕ, String, concat, Bool, ◌||◌, Option, none, some, List, [], ◌∷◌, ◌++◌, if◌then◌else◌,
}
use dms_api.Prelude.Dict.{get, put}
use dms_api.Result.{Result, ok, err}
use dms_api.Mapic.{Api, StreamInfo, StreamInfos, PushStatus, MistState}
use dms_api.Mapic.Names.{mist_stream_name_to_playback_id, is_ingest_source}
use dms_api.Mapic.Push.{Outcome, wait_over, end_push, disconnect, is_wait_increased}
use dms_api.Mapic.Streams.{get_stream_info, refresh_stream_info}
use dms_api.Mapic.Handlers.{
  Action, wait_push, nuke_action, stop_action, invalidate_action, Handled, emit_webhook,
}

-- A change of a status of an entry, with the webhook it sends.
unfoldable pub change_push :
    String
    → String
    → StreamInfo
    → (Bool → PushStatus → Outcome)
    → StreamInfos
    → Option PushStatus
    → Handled
unfolding put emit_webhook
change_push playback_id url si f infos none = (infos, [])
change_push playback_id url si f infos (some p) =
    let o = f si.stopped p in
    (put playback_id (record si { pushes = put url o.0 si.pushes }) infos, emit_webhook si.stream o)

unfoldable pub change_entry :
    String → String → (Bool → PushStatus → Outcome) → StreamInfos → Option StreamInfo → Handled
unfolding get change_push
change_entry playback_id url f infos none = (infos, [])
change_entry playback_id url f infos (some si) =
    change_push playback_id url si f infos (get url si.pushes)

-- A change of the status at a push URL of the stream at a playback id.
unfoldable pub at_push : (Bool → PushStatus → Outcome) → String → String → StreamInfos → Handled
unfolding get change_entry
at_push f playback_id url infos = change_entry playback_id url f infos (get playback_id infos)

-- A handler that looks the stream up first.
unfoldable pub found_then : Result StreamInfo × StreamInfos → (StreamInfos → Handled) → Handled
found_then (err e, infos) k = (infos, [])
found_then (ok si, infos) k = k infos

-- `handlePushEnd`
unfoldable pub handle_push_end : Api → ℕ → String → String → StreamInfos → Handled
unfolding found_then at_push mist_stream_name_to_playback_id get_stream_info end_push
handle_push_end api now name destination infos =
    let playback_id = mist_stream_name_to_playback_id name in
    found_then (get_stream_info api playback_id infos)
      (λ m. at_push (end_push now) (mist_stream_name_to_playback_id playback_id) destination m)

start_wait : String → String → Option StreamInfo → List Action
unfolding get is_wait_increased
start_wait playback_id url none = []
start_wait playback_id url (some si) = elim (get url si.pushes) [
  | none ↦ []
  | some p ↦ wait_push playback_id url (is_wait_increased p) ∷ []
]

-- `handlePushOutStart`: it answers the URL it is given, and begins a wait.
unfoldable pub handle_push_out_start : Api → String → String → StreamInfos → String × Handled
unfolding found_then start_wait get mist_stream_name_to_playback_id get_stream_info
handle_push_out_start api name url infos =
    let playback_id = mist_stream_name_to_playback_id name in
    let key = mist_stream_name_to_playback_id playback_id in
    (
      url,
      found_then (get_stream_info api playback_id infos) (λ m. (m, start_wait key url (get key m))),
    )

finish_dropped : ℕ → Bool → PushStatus → Option StreamInfo → List Action
unfolding emit_webhook wait_over
finish_dropped now increased p none = []
finish_dropped now increased p (some si) =
    emit_webhook si.stream (wait_over now increased si.stopped p)

-- The end of a wait that `handlePushOutStart` began, on the status it began with: that is the one
-- of the map, or it is given because a refresh has taken it out of the entry in the meantime.
unfoldable pub finish_wait : ℕ → String → String → Bool → Option PushStatus → StreamInfos → Handled
unfolding at_push wait_over finish_dropped get
finish_wait now playback_id url increased none infos =
    at_push (wait_over now increased) playback_id url infos
finish_wait now playback_id url increased (some p) infos =
    (infos, finish_dropped now increased p (get playback_id infos))

-- `emitMultistreamDisconnectedEvent` of a push of the map
unfoldable pub emit_disconnected : ℕ → String → String → StreamInfos → Handled
unfolding at_push disconnect
emit_disconnected now playback_id url infos =
    at_push (λ stopped. disconnect now) playback_id url infos

-- `nukeAllStreamNames`: the names of a recorded stream and of one that is not are the same.
unfoldable pub nuke_all_stream_names : String → String → List Action
nuke_all_stream_names base_stream_name playback_id =
    let name = concat base_stream_name (concat "+" playback_id) in
    nuke_action name ∷ nuke_action name ∷ []

-- `reconcileSingleStream`
unfoldable pub reconcile_single_stream : String → StreamInfo → List Action
unfolding nuke_all_stream_names
reconcile_single_stream base_stream_name si =
    if si.stream.deleted || si.stream.suspended
    then nuke_all_stream_names base_stream_name si.stream.playback_id
    else []

nuke_if_needed : String → Result StreamInfo → List Action
unfolding reconcile_single_stream
nuke_if_needed base_stream_name (err e) = []
nuke_if_needed base_stream_name (ok si) = reconcile_single_stream base_stream_name si

-- `reconcileStreams`, over the names of the active streams
unfoldable pub reconcile_streams : Api → String → MistState → List String → StreamInfos → Handled
unfolding nuke_if_needed get_stream_info is_ingest_source
reconcile_streams api base state [] infos = (infos, [])
reconcile_streams api base state (name ∷ names) infos =
    let found = get_stream_info api name infos in
    let rest = reconcile_streams api base state names found.1 in
    let skipped = reconcile_streams api base state names infos in
    if is_ingest_source state name then (rest.0, nuke_if_needed base found.0 ++ rest.1) else skipped

unfoldable pub refresh_known : Api → String → String → StreamInfos → Option StreamInfo → Handled
unfolding refresh_stream_info nuke_if_needed
refresh_known api base playback_id infos none = (infos, [])
refresh_known api base playback_id infos (some si) =
    let r = refresh_stream_info api playback_id infos in (r.1, nuke_if_needed base r.0)

-- `RefreshStreamIfNeeded`
unfoldable pub refresh_stream_if_needed : Api → String → String → StreamInfos → Handled
unfolding refresh_known get
refresh_stream_if_needed api base playback_id infos =
    refresh_known api base playback_id infos (get playback_id infos)

-- `StopSessions`, with Mist's answer to `GetState`
unfoldable pub stop_all_sessions : Result MistState → String → List Action
unfolding is_ingest_source
stop_all_sessions (err e) playback_id = []
stop_all_sessions (ok state) playback_id =
    let name = concat "video+" playback_id in
    if is_ingest_source state name then stop_action name ∷ [] else []

-- `InvalidateAllSessions`
unfoldable pub invalidate_all_sessions : String → List Action
invalidate_all_sessions playback_id = invalidate_action (concat "video+" playback_id) ∷ []

-- `handleLiveTrackList`: the refresh that it begins.
unfoldable pub handle_live_track_list : Api → String → StreamInfos → StreamInfos
unfolding refresh_stream_info mist_stream_name_to_playback_id
handle_live_track_list api name infos =
    (refresh_stream_info api (mist_stream_name_to_playback_id name) infos).1
