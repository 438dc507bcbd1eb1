-- ===== src/Scenarios/Connector.antt =====
-- The Mist API connector at concrete inputs.
use dms_api.Prelude.{
  ◌≤◌, ◌≡◌, refl, String, true, false, ◌&&◌, ◌||◌, not, some, [], ◌∷◌, map, arith, str_eq,
  if◌then◌else◌, length, ◌==◌, leb,
}
use dms_api.Prelude.Dict.{get, put, IsDistinct, AllEntries, delete}
use dms_api.Prelude.Text.{split, occurs}
use dms_api.Result.{ok}
use dms_api.Mapic.{Api, Stream, StreamInfos, PushStatus, Target, PushAuto, MistState}
use dms_api.Mapic.Names.{
  has_prefix, has_lower_prefix, wildcard_playback_id, mist_stream_name_to_playback_id,
}
use dms_api.Mapic.Push.{ended, run, new_push}
use dms_api.Mapic.Push.Laws.{run-alerts, alerts}
use dms_api.Mapic.Streams.{refresh_stream_info}
use dms_api.Mapic.Streams.Laws.{refresh_stream_info-pushes, api_push, entry, synced, old_pushes}
use dms_api.Mapic.Handlers.{KeyAnswer, found, not_exists, Config, handle_push_rewrite, ingest_info}
use dms_api.Mapic.Handlers.Ingest.{rewrite-registers}
use dms_api.Mapic.Reconcile.Keys.{Key, listed}
use dms_api.Mapic.Reconcile.{auto_key, plan, cached_map}
use dms_api.Mapic.Reconcile.Laws.{after_plan}
use dms_api.Mapic.Reconcile.Lookup.{IsNamed}
use dms_api.Mapic.Reconcile.Expected.{
  asks, asks_now, has_source, is_rebroadcast, plan-wanted, second_pass-settles, refreshed-plan,
}

abbrev twitch : Target
twitch = record { id = "t1"; name = "twitch"; url = "rtmp://live/key"; disabled = false }

abbrev push : PushStatus
push = new_push twitch "source"

run-alerts_example :
    (run (ended 1 false ∷ ended 2 false ∷ ended 3 false ∷ ended 4 false ∷ []) push).error_count ≤ 3
    × alerts (ended 1 false ∷ ended 2 false ∷ ended 3 false ∷ ended 4 false ∷ []) push 0 ≡ (
        if leb 2
          (run
            (ended 1 false ∷ ended 2 false ∷ ended 3 false ∷ ended 4 false ∷ [])
            push).error_count
        then 1
        else 0)
run-alerts_example =
    run-alerts twitch "source" (ended 1 false ∷ ended 2 false ∷ ended 3 false ∷ ended 4 false ∷ [])

abbrev live : Stream
live = record {
  id = "s1";
  parent_id = "";
  playback_id = "abcd";
  user_id = "u1";
  deleted = false;
  suspended = false;
  profiles = [];
  targets = record { target_id = "t1"; profile = "source"; video_only = false } ∷ [];
}

abbrev api : Api
api = record { stream_by_playback_id = λ pb. ok live; multistream_target = λ id. ok twitch }

abbrev infos : StreamInfos
infos = ("abcd", ingest_info live 1) ∷ []

refresh_stream_info-pushes_example :
    (refresh_stream_info api "abcd" infos).0 ≡ ok (entry api "abcd" infos live)
    × ((q : String)
        → get q (refresh_stream_info api "abcd" infos).1
          ≡ (if str_eq "abcd" q then some (entry api "abcd" infos live) else get q infos))
    × ((u : String)
        → get u (entry api "abcd" infos live).pushes
          ≡ synced (api_push api live u live.targets) (get u (old_pushes (get "abcd" infos))))
refresh_stream_info-pushes_example = refresh_stream_info-pushes api "abcd" infos live refl

abbrev config : Config
config = record { base_stream_name = "video"; balancer_host = "" }

abbrev by_key : String → KeyAnswer
by_key key = if str_eq key "k3y" then found live else not_exists

plain_scheme : (str_eq "srt" "rtmp" && not (length (split 47 "/k3y") == 3)) ≡ false
plain_scheme = refl

video_plain : occurs 43 "video" ≡ false
unfolding occurs
video_plain = refl

id_plain : occurs 43 "abcd" ≡ false
unfolding occurs
id_plain = refl

rewrite-registers_example :
    let name = wildcard_playback_id "video" live in
    let r = handle_push_rewrite by_key config "srt" "/k3y" "k3y" 7 [] in
    (r.0 ≡ ok name) × (get (mist_stream_name_to_playback_id name) r.1 ≡ some (ingest_info live 7))
rewrite-registers_example =
    rewrite-registers by_key config live "srt" "/k3y" "k3y" 7 [] plain_scheme refl refl refl refl
      video_plain id_plain

abbrev stale : PushAuto
stale = record {
  stream = "video+abcd";
  target = "rtmp://old";
  stream_params = "video+abcd" ∷ "rtmp://old" ∷ [];
}

abbrev mist : MistState
mist = record { active_streams = []; push_auto_list = stale ∷ []; push_list = [] }

infos-IsDistinct : IsDistinct infos
unfolding get
infos-IsDistinct = (refl, tt)

infos-IsNamed : AllEntries (IsNamed "video" "video+abcd" "abcd") infos
unfolding wildcard_playback_id
infos-IsNamed = ((tt, refl), tt)

plan-wanted_example :
    after_plan
      (plan (cached_map "video" mist infos []) mist)
      mist.push_auto_list
      ("video+abcd", "rtmp://old")
    ≡ (asks_now mist "video+abcd" "rtmp://old" (get "abcd" infos)
        || (listed ("video+abcd", "rtmp://old") (map auto_key mist.push_auto_list)
            && not (is_rebroadcast "video+abcd" "rtmp://old")))
plan-wanted_example =
    plan-wanted "video" mist infos "video+abcd" "abcd" "rtmp://old" infos-IsDistinct infos-IsNamed

abbrev url : String
url = "rtmp://live/key?video=maxbps&audio=maxbps"

abbrev later : StreamInfos
later = (refresh_stream_info api "abcd" infos).1

later-IsDistinct : IsDistinct later
unfolding refresh_stream_info put delete
later-IsDistinct = (refl, tt)

later-IsNamed : AllEntries (IsNamed "video" (wildcard_playback_id "video" live) "abcd") later
unfolding refresh_stream_info put delete wildcard_playback_id
later-IsNamed = (((refl, tt), refl), tt)

pushed_here :
    (not (entry api "abcd" infos live).is_lazy
      || has_source (get (wildcard_playback_id "video" live) mist.active_streams))
    ≡ true
unfolding refresh_stream_info
pushed_here = refl

url_accepted : is_rebroadcast (wildcard_playback_id "video" live) url ≡ true
unfolding wildcard_playback_id has_prefix has_lower_prefix
url_accepted = refl

refreshed-plan_example :
    after_plan
      (plan (cached_map "video" mist later []) mist)
      mist.push_auto_list
      (wildcard_playback_id "video" live, url)
    ≡ asks (api_push api live url live.targets)
refreshed-plan_example =
    refreshed-plan api "abcd" "video" live mist infos url refl later-IsDistinct later-IsNamed
      pushed_here url_accepted

abbrev pushing : StreamInfos
pushing = ("abcd", record (ingest_info live 1) { pushes = ("rtmp://new", push) ∷ [] }) ∷ []

abbrev fresh : PushAuto
fresh = record {
  stream = "video+abcd";
  target = "rtmp://new";
  stream_params = "video+abcd" ∷ "rtmp://new" ∷ [];
}

abbrev carried_out : MistState
carried_out = record mist { push_auto_list = fresh ∷ [] }

same_expected : cached_map "video" carried_out pushing [] ≡ cached_map "video" mist pushing []
unfolding cached_map
same_expected = refl

obeyed :
    (k : Key)
    → listed k (map auto_key carried_out.push_auto_list)
      ≡ after_plan (plan (cached_map "video" mist pushing []) mist) mist.push_auto_list k
unfolding plan cached_map listed
obeyed k = ground arith

pushing-IsDistinct : IsDistinct pushing
unfolding get
pushing-IsDistinct = (refl, tt)

pushing-IsNamed : AllEntries (IsNamed "video" "video+abcd" "abcd") pushing
unfolding wildcard_playback_id get
pushing-IsNamed = (((refl, tt), refl), tt)

second_pass-settles_example :
    ((plan (cached_map "video" carried_out pushing []) carried_out).removed ≡ [])
    × (listed
          ("video+abcd", "rtmp://new")
          (plan (cached_map "video" carried_out pushing []) carried_out).added
        ≡ (asks_now carried_out "video+abcd" "rtmp://new" (get "abcd" pushing)
            && not (is_rebroadcast "video+abcd" "rtmp://new")))
second_pass-settles_example =
    second_pass-settles "video" mist carried_out pushing "video+abcd" "abcd" "rtmp://new"
      same_expected obeyed pushing-IsDistinct pushing-IsNamed
