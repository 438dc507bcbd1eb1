-- ===== src/Mapic/Handlers/Ingest.antt =====
-- `handlePushRewrite` of mapic/mistapiconnector_app.go: the name that a stream gets at Mist leads
-- back to its entry.
use dms_api.Prelude.{
  ℕ, ◌≡◌, refl, ap, ◌∙◌, String, concat, true, false, ◌&&◌, ◌||◌, not, some, arith, str_eq, eq_refl,
  length, ◌==◌,
}
use Prim.Native.String.append
use dms_api.Prelude.Dict.{get, get-put}
use dms_api.Prelude.Text.{split, occurs, split-concat, split-no_sep, occurs-concat}
use dms_api.Result.{ok}
use dms_api.Mapic.{Stream, StreamInfos}
use dms_api.Mapic.Names.{mist_stream_name_to_playback_id, wildcard_playback_id, second}
use dms_api.Mapic.Streams.{remove_info}
use dms_api.Mapic.Handlers.{
  KeyAnswer, found, Config, handle_push_rewrite, ingest_info, response_name,
}

plus_occurs : (t : String) → occurs 43 (String.◌∷◌ "+" t) ≡ true
unfolding occurs
plus_occurs t = refl

-- The playback id of the name that `wildcardPlaybackID` gives, where no `+` stands in either part.
playback_id-wildcard :
    (base : String) (s : Stream)
    → occurs 43 base ≡ false
    → occurs 43 s.playback_id ≡ false
    → mist_stream_name_to_playback_id (wildcard_playback_id base s) ≡ s.playback_id
unfolding mist_stream_name_to_playback_id wildcard_playback_id
playback_id-wildcard base s b p =
    let plus : concat "+" s.playback_id ≡ String.◌∷◌ "+" s.playback_id =
      append.cons "+" String.[] s.playback_id ∙ ap (String.◌∷◌ "+") (append.nil s.playback_id) in
    let o : occurs 43 (concat base (String.◌∷◌ "+" s.playback_id)) ≡ true =
      ground
        (arith, occurs-concat 43 base (String.◌∷◌ "+" s.playback_id), plus_occurs s.playback_id) in
    rw plus (
      rw (o, split-concat 43 "+" base s.playback_id refl b, split-no_sep 43 s.playback_id p)
        (unfold second in refl))

module _ (by_key : String → KeyAnswer) (c : Config) (s : Stream) (scheme path key : String)
    (now : ℕ) where
  -- A push whose key is that of a stream that is neither deleted nor suspended is answered with the
  -- name of the stream at Mist, and in the map that it leaves, this name leads to a new entry of
  -- the stream, which is no lazy one and has no pushes yet. The URL must not be an RTMP one with a
  -- wrong path, and the base name and the playback id must be neither empty nor have a `+` in them.
  pub rewrite-registers :
      (infos : StreamInfos)
      → (str_eq scheme "rtmp" && not (length (split 47 path) == 3)) ≡ false
      → by_key key ≡ found s
      → (s.deleted || s.suspended) ≡ false
      → str_eq s.playback_id "" ≡ false
      → str_eq c.base_stream_name "" ≡ false
      → occurs 43 c.base_stream_name ≡ false
      → occurs 43 s.playback_id ≡ false
      → let name = wildcard_playback_id c.base_stream_name s in
        let r = handle_push_rewrite by_key c scheme path key now infos in
        (r.0 ≡ ok name)
        × (get (mist_stream_name_to_playback_id name) r.1 ≡ some (ingest_info s now))
  unfolding handle_push_rewrite
  rewrite-registers infos u k d p b f g =
      rw (u, k)
        (
          rw (d, p, response_name, b) refl,
          rw (p, playback_id-wildcard c.base_stream_name s f g)
              (get-put s.playback_id s.playback_id (ingest_info s now)
                  (remove_info s.playback_id infos)
                ∙ rw (eq_refl s.playback_id) refl),
        )
