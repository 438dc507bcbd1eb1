-- ===== src/Mapic/Reconcile/Expected.antt =====
-- `reconcileMultistream` and `refreshStreamInfo` of mapic/mistapiconnector_app.go together: the
-- targets of the API become the pushes of Mist.
use dms_api.Prelude.{
  ◌≡◌, refl, ap, ◌∙◌, String, Bool, true, false, ◌&&◌, ◌||◌, not, Option, none, some, [], map,
  arith, eq_refl, inl, inr, Bool-cases,
}
use dms_api.Prelude.Dict.{get, IsDistinct, AllEntries}
use dms_api.Result.{ok}
use dms_api.Mapic.{Api, Stream, StreamInfo, StreamInfos, PushStatus, MistState}
use dms_api.Mapic.Names.{
  has_prefix, has_lower_prefix, wildcard_playback_id, is_ingest_stream, is_ingest_source,
}
use dms_api.Mapic.Streams.{refresh_stream_info}
use dms_api.Mapic.Streams.Laws.{api_push, entry, synced, old_pushes, refresh_stream_info-pushes}
use dms_api.Mapic.Reconcile.Keys.{Key, find, listed}
use dms_api.Mapic.Reconcile.{is_multistream, auto_key, cached_map, is_expected, is_enabled, plan}
use dms_api.Mapic.Reconcile.Laws.{after_plan, expected, plan-expected, second_pass-expected}
use dms_api.Mapic.Reconcile.Lookup.{IsNamed, over, pick_info, find-cached_map}

-- Whether the API asks for a push: its URL is that of a target which is not disabled.
abbrev pub asks : Option PushStatus → Bool
asks none = false
asks (some n) = not n.target.disabled

asks-synced : (n old : Option PushStatus) → asks (synced n old) ≡ asks n
asks-synced none old = refl
asks-synced (some n) none = refl
asks-synced (some n) (some p) = refl

or_false : (w l m : Bool) → m ≡ true → (w || (l && not m)) ≡ w
or_false w l m h = ground arith

-- Whether Mist has a source of the stream that is not another node.
abbrev pub has_source : Option String → Bool
has_source none = false
has_source (some source) = not (has_prefix source "push://INTERNAL_ONLY:dtsc://")

is_ingest_source-has_source :
    (state : MistState) (name : String)
    → is_ingest_source state name ≡ has_source (get name state.active_streams)
unfolding is_ingest_source
is_ingest_source-has_source state name = refl

-- Whether a key is one of a multistream: of a live or a recorded stream, and over RTMP or SRT.
abbrev pub is_rebroadcast : String → String → Bool
is_rebroadcast name url =
    (has_prefix name "video+" || has_prefix name "videorec+")
    && (has_lower_prefix url "rtmp:"
        || has_lower_prefix url "rtmps:"
        || has_lower_prefix url "srt:")

is_multistream-is_rebroadcast :
    (name url : String) → is_multistream (name, url) ≡ is_rebroadcast name url
unfolding is_multistream
is_multistream-is_rebroadcast name url = refl

-- Whether a push of a stream of the map is wanted: the node ingests the stream, as an entry that is
-- not lazy tells or an ingest source at Mist does, and a target that is not disabled has the URL.
abbrev pub asks_now : MistState → String → String → Option StreamInfo → Bool
asks_now state name url none = false
asks_now state name url (some si) =
    (not si.is_lazy || has_source (get name state.active_streams)) && asks (get url si.pushes)

asks-over : (pb name : String) (n : Option PushStatus) → is_enabled (over pb name n none) ≡ asks n
unfolding is_enabled
asks-over pb name none = refl
asks-over pb name (some n) = refl

is_enabled-pick :
    (base : String) (state : MistState) (name pb url : String) (o : Option StreamInfo)
    → is_enabled (pick_info base state name pb url o none) ≡ asks_now state name url o
unfolding is_enabled is_ingest_stream is_ingest_source
is_enabled-pick base state name pb url none = refl
is_enabled-pick base state name pb url (some si) =
    elim (Bool-cases (not si.is_lazy || has_source (get name state.active_streams))) [
      | inl e ↦ rw e (asks-over pb name (get url si.pushes))
      | inr e ↦ rw e refl
    ]

is_expected-wanted :
    (base : String) (state : MistState) (infos : StreamInfos) (name pb url : String)
    → IsDistinct infos
    → AllEntries (IsNamed base name pb) infos
    → is_expected (expected base state infos) (name, url) ≡ asks_now state name url (get pb infos)
unfolding is_expected find
is_expected-wanted base state infos name pb url d h =
    ap is_enabled (find-cached_map base state name pb url infos [] d h)
    ∙ is_enabled-pick base state name pb url (get pb infos)

-- Once Mist has carried out a pass, it has an AUTO_PUSH of a stream of the map to a URL if and only
-- if the node ingests the stream and one of its pushes has that URL and is not disabled, or else it
-- had the entry before and its key is none of a multistream. The map must have no playback id and
-- no push URL twice, and the stream's name at Mist must be that of its entry alone.
pub plan-wanted :
    (base : String) (state : MistState) (infos : StreamInfos) (name pb url : String)
    → IsDistinct infos
    → AllEntries (IsNamed base name pb) infos
    → after_plan (plan (cached_map base state infos []) state) state.push_auto_list (name, url) ≡ (
        asks_now state name url (get pb infos)
        || (listed (name, url) (map auto_key state.push_auto_list)
            && not (is_rebroadcast name url)))
plan-wanted base state infos name pb url d h =
    plan-expected base state infos (name, url)
    ∙ rw (is_multistream-is_rebroadcast name url) refl
    ∙ ap
        (λ b.
          b
          || (listed (name, url) (map auto_key state.push_auto_list)
              && not (is_rebroadcast name url)))
        (is_expected-wanted base state infos name pb url d h)

-- A second pass over a Mist that has carried out the first, where the expected pushes are the same,
-- removes no AUTO_PUSH entry, and it adds a push of a stream of the map if and only if the node
-- ingests the stream, one of its pushes has that URL and is not disabled, and the key is none of a
-- multistream. The map must have no playback id and no push URL twice, and the stream's name at
-- Mist must be that of its entry alone.
pub second_pass-settles :
    (base : String) (state later : MistState) (infos : StreamInfos) (name pb url : String)
    → cached_map base later infos [] ≡ cached_map base state infos []
    → ((k : Key)
        → listed k (map auto_key later.push_auto_list)
          ≡ after_plan (plan (cached_map base state infos []) state) state.push_auto_list k)
    → IsDistinct infos
    → AllEntries (IsNamed base name pb) infos
    → ((plan (cached_map base later infos []) later).removed ≡ [])
      × (listed (name, url) (plan (cached_map base later infos []) later).added
          ≡ (asks_now later name url (get pb infos) && not (is_rebroadcast name url)))
second_pass-settles base state later infos name pb url same o d h =
    let r = second_pass-expected base state later infos same o in
    (
      r.0,
      r.1 (name, url)
          ∙ rw (is_multistream-is_rebroadcast name url) refl
          ∙ ap (λ b. b && not (is_rebroadcast name url))
              (is_expected-wanted base later infos name pb url d h),
    )

asks_now-entry :
    (state : MistState) (name url : String) (si : StreamInfo)
    → (not si.is_lazy || has_source (get name state.active_streams)) ≡ true
    → asks_now state name url (some si) ≡ asks (get url si.pushes)
asks_now-entry state name url si i = ground (arith, i)

-- After a refresh of an ingest stream and a pass that Mist has carried out, Mist has an AUTO_PUSH
-- of the stream to a multistream URL if and only if the API lists targets with that URL and the
-- last of them is not disabled, whatever Mist had before. The map must have no playback id and no
-- push URL twice, and the stream's name at Mist must be that of its entry alone.
pub refreshed-plan :
    (api : Api) (pb base : String) (s : Stream) (state : MistState) (infos : StreamInfos)
    (url : String)
    → let later = (refresh_stream_info api pb infos).1 in
      let name = wildcard_playback_id base s in
      api.stream_by_playback_id pb ≡ ok s
      → IsDistinct later
      → AllEntries (IsNamed base name pb) later
      → (not (entry api pb infos s).is_lazy || has_source (get name state.active_streams)) ≡ true
      → is_rebroadcast name url ≡ true
      → after_plan (plan (cached_map base state later []) state) state.push_auto_list (name, url)
        ≡ asks (api_push api s url s.targets)
refreshed-plan api pb base s state infos url a d h i t =
    let later = (refresh_stream_info api pb infos).1 in
    let name = wildcard_playback_id base s in
    let r = refresh_stream_info-pushes api pb infos s a in
    let g : get pb later ≡ some (entry api pb infos s) = r.1 pb ∙ rw (eq_refl pb) refl in
    plan-wanted base state later name pb url d h
    ∙ or_false (asks_now state name url (get pb later))
        (listed (name, url) (map auto_key state.push_auto_list)) (is_rebroadcast name url) t
    ∙ ap (asks_now state name url) g
    ∙ asks_now-entry state name url (entry api pb infos s) i
    ∙ ap asks (r.2 url)
    ∙ asks-synced (api_push api s url s.targets) (get url (old_pushes (get pb infos)))
