-- ===== src/Geolocation/Members.antt =====
-- cluster/cluster.go: `FilterMembers`; handlers/geolocation/geolocation.go: `clusterMember`,
-- `resolveNodeURL` and `sendPlaybackRequestAsync`. The members come from an HTTP endpoint, which is
-- a parameter, as are the parser and printer of URLs and the joining of paths.
use dms_api.Prelude.{
  ℕ, suc, ◌%◌, String, concat, Bool, true, false, ◌&&◌, ◌||◌, Option, none, some, List, [], ◌∷◌,
  str_eq, if◌then◌else◌, length, get_elem?,
}
use dms_api.Prelude.Dict
use dms_api.Prelude.Dict.{Dict}
use dms_api.Errors.{plain}
use dms_api.Result.{Result, ok, err, ◌>>=◌}

pub record Member : Type 0 where
  pub name : String
  pub tags : Dict String
  pub status : String

unfoldable pub has_tag : Member → String → String → Bool
has_tag m k v = elim (Dict.get k m.tags) [ none ↦ false | some val ↦ str_eq val v ]

-- The loop over a filter; it stops at the first tag that does not match.
unfoldable pub matches : Dict String → Member → Bool
unfolding has_tag
matches [] m = true
matches ((k, v) ∷ filter) m = has_tag m k v && matches filter m

unfoldable pub is_wanted : Dict String → String → String → Member → Bool
is_wanted filter status name m =
    (str_eq status "" || str_eq status m.status)
    && (str_eq name "" || str_eq name m.name)
    && matches filter m

-- `FilterMembers`
unfoldable pub filter_members : Dict String → String → String → List Member → List Member
filter_members filter status name [] = []
filter_members filter status name (m ∷ all) =
    let rest = filter_members filter status name all in
    if is_wanted filter status name m then m ∷ rest else rest

-- `membersFiltered`, with the answer of the endpoint.
unfoldable pub members_filtered :
    Result (List Member) → Dict String → String → String → Result (List Member)
members_filtered (err e) filter status name = err e
members_filtered (ok members) filter status name = ok (filter_members filter status name members)

unfoldable pub first_with_status : String → List Member → Result Member
first_with_status status [] = err (plain "could not find serf member")
first_with_status status (m ∷ members) =
    if str_eq m.status status
    then ok m
    else err (plain "found serf member but not with the wanted status")

-- `clusterMember`
unfoldable pub cluster_member : Result (List Member) → Dict String → String → String → Result Member
unfolding members_filtered first_with_status
cluster_member members filter status name = do
  found ← members_filtered members filter "" name
  first_with_status status found

pub record Url : Type 0 where
  pub scheme : String
  pub host : String
  pub path : String
  pub raw_query : String

-- `url.Parse`, `URL.String` and `filepath.Join`
pub record UrlTools : Type 0 where
  pub parse : String → Result Url
  pub print : Url → String
  pub join_path : String → String → String

unfoldable pub with_tag : UrlTools → String → Url → Option String → Result String
with_tag tools stream_url u none = ok stream_url
with_tag tools stream_url u (some addr) = elim (tools.parse addr) [
  | err e ↦ err (plain "node has unparsable tag!!")
  | ok u2 ↦
      ok
        (tools.print (record u2 { path = tools.join_path u2.path u.path; raw_query = u.raw_query }))
]

-- `resolveNodeURL`
unfoldable pub resolve_node_url : UrlTools → Result (List Member) → String → Result String
unfolding cluster_member with_tag
resolve_node_url tools members stream_url = do
  u ← tools.parse stream_url
  member ← cluster_member members [] "alive" u.host
  with_tag tools stream_url u (Dict.get u.scheme member.tags)

unfoldable pub https_tag : Option Member → String
https_tag none = ""
https_tag (some m) = elim (Dict.get "https" m.tags) [ none ↦ "" | some addr ↦ addr ]

-- `sendPlaybackRequestAsync`: the URL that is asked for, if there is a member in the region.
unfoldable pub playback_request :
    Result (List Member) → ℕ → String → String → String → Option String
unfolding https_tag
playback_request members random base playback_id region =
    elim (members_filtered members (("region", region) ∷ []) "" "") [
      | err e ↦ none
      | ok [] ↦ none
      | ok (m ∷ ms) ↦ some (
          concat (https_tag (get_elem? (m ∷ ms) (random % suc (length ms))))
            (concat "/hls/" (concat base (concat "+" (concat playback_id "/index.m3u8")))))
    ]
