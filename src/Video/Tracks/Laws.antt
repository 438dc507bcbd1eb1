-- ===== src/Video/Tracks/Laws.antt =====
-- video/profiles.go, `GetTrack` and `SetTrack`: what is set is what is got.
use dms_api.Prelude.{
  ◌≡◌, refl, sym, ap, ◌∙◌, String, Bool, true, false, ◌&&◌, Option, none, some, List, [], ◌∷◌,
  arith, str_eq, eq_iff, if◌then◌else◌, inl, inr, Bool-cases,
}
use mathlib.Core.Option
use dms_api.Video.Tracks.{
  InputTrack, InputVideo, TrackResult, TrackError, found, track_error, no_tracks,
  invalid_track_type, is_track_type, find_track, get_track, replace_track, with_tracks, set_track,
}

-- The tracks after a replacement; the old ones where there is none of the type.
or_old : List InputTrack → Option (List InputTrack) → List InputTrack
or_old ts (some us) = us
or_old ts none = ts

unfoldable pub is_there : TrackResult → Bool
is_there (found t) = true
is_there (track_error e) = false

unfoldable pub error_of : TrackResult → Option TrackError
error_of (found t) = none
error_of (track_error e) = some e

find_track-replace_track :
    (ty ty' : String) (t : InputTrack) (ts : List InputTrack)
    → t.type_name ≡ ty
    → find_track ty' (or_old ts (replace_track ty t ts))
      ≡ (if str_eq ty ty' && is_there (find_track ty ts) then found t else find_track ty' ts)
unfolding find_track replace_track or_old is_there
find_track-replace_track ty ty' t [] h = ground arith
find_track-replace_track ty ty' t (x ∷ ts) h = elim (Bool-cases (str_eq x.type_name ty)) [
  | inl e ↦ rw e (
      ground (
        arith,
        eq_iff x.type_name ty,
        eq_iff ty ty',
        eq_iff x.type_name ty',
        ap (λ n. str_eq n ty') h,
      ))
  | inr e ↦ rw e (behind (replace_track ty t ts) (find_track-replace_track ty ty' t ts h) e)
]
  where
    behind :
        (r : Option (List InputTrack))
        → find_track ty' (or_old ts r)
          ≡ (if str_eq ty ty' && is_there (find_track ty ts) then found t else find_track ty' ts)
        → str_eq x.type_name ty ≡ false
        → find_track ty' (or_old (x ∷ ts) (Option.map (λ rest. x ∷ rest) r)) ≡ (
            if str_eq ty ty' && is_there (find_track ty ts)
            then found t
            else (if str_eq x.type_name ty' then found x else find_track ty' ts))
    behind (some us) p e =
        ground (arith, p, eq_iff x.type_name ty, eq_iff ty ty', eq_iff x.type_name ty')
    behind none p e =
        ground (arith, p, eq_iff x.type_name ty, eq_iff ty ty', eq_iff x.type_name ty')

missing : String → Option (List InputTrack) → Option TrackError
missing ty (some us) = none
missing ty none = some (no_tracks ty)

error_of-find_track :
    (ty : String) (t : InputTrack) (ts : List InputTrack)
    → missing ty (replace_track ty t ts) ≡ error_of (find_track ty ts)
unfolding find_track replace_track missing error_of
error_of-find_track ty t [] = refl
error_of-find_track ty t (x ∷ ts) = elim (Bool-cases (str_eq x.type_name ty)) [
  | inl e ↦ rw e refl
  | inr e ↦ rw e (behind (replace_track ty t ts) ∙ error_of-find_track ty t ts)
]
  where
    behind :
        (r : Option (List InputTrack)) → missing ty (Option.map (λ rest. x ∷ rest) r) ≡ missing ty r
    behind (some us) = refl
    behind none = refl

tracks-with_tracks :
    (i : InputVideo) (ty : String) (r : Option (List InputTrack))
    → with_tracks i ty r ≡ (record i { tracks = or_old i.tracks r }, missing ty r)
unfolding with_tracks or_old missing
tracks-with_tracks i ty (some us) = refl
tracks-with_tracks i ty none = refl

get_track-known :
    (i : InputVideo) (ty : String)
    → is_track_type ty ≡ true
    → get_track i ty ≡ find_track ty i.tracks
unfolding get_track
get_track-known i ty h = rw (h, get_track) refl

get_track-unknown :
    (i : InputVideo) (ty : String)
    → is_track_type ty ≡ false
    → get_track i ty ≡ track_error invalid_track_type
unfolding get_track
get_track-unknown i ty h = rw (h, get_track) refl

distinct_types :
    (ty ty' : String) → is_track_type ty ≡ true → is_track_type ty' ≡ false → str_eq ty ty' ≡ false
distinct_types ty ty' h k = elim (Bool-cases (str_eq ty ty')) [
  | inl e ↦ absurd (let f : true ≡ false = sym h ∙ ap is_track_type ((eq_iff ty ty').0 e) ∙ k in cc)
  | inr e ↦ e
]

get-replaced :
    (i : InputVideo) (ty ty' : String) (t : InputTrack)
    → t.type_name ≡ ty
    → is_track_type ty ≡ true
    → get_track (record i { tracks = or_old i.tracks (replace_track ty t i.tracks) }) ty'
      ≡ (if str_eq ty ty' && is_there (find_track ty i.tracks) then found t else get_track i ty')
get-replaced i ty ty' t h e = elim (Bool-cases (is_track_type ty')) [
  | inl e' ↦
      get_track-known (record i { tracks = or_old i.tracks (replace_track ty t i.tracks) }) ty' e'
      ∙ find_track-replace_track ty ty' t i.tracks h
      ∙ rw (get_track-known i ty' e') refl
  | inr e' ↦
      get_track-unknown (record i { tracks = or_old i.tracks (replace_track ty t i.tracks) }) ty' e'
      ∙ rw (get_track-unknown i ty' e') (rw (distinct_types ty ty' e e') refl)
]

-- After `SetTrack` the track of its type is the new one if the video had one; the tracks of all
-- other types are as before. `SetTrack` fails exactly as `GetTrack` does, and then changes nothing.
pub get_track-set_track :
    (i : InputVideo) (ty ty' : String) (t : InputTrack)
    → t.type_name ≡ ty
    → (get_track (set_track i ty t).0 ty'
        ≡ (if str_eq ty ty' && is_there (get_track i ty) then found t else get_track i ty'))
      × ((set_track i ty t).1 ≡ error_of (get_track i ty))
unfolding set_track
get_track-set_track i ty ty' t h = elim (Bool-cases (is_track_type ty)) [
  | inl e ↦
      rw (e, set_track)
        (rw (tracks-with_tracks i ty (replace_track ty t i.tracks)) (
          rw (get_track-known i ty e)
            (get-replaced i ty ty' t h e, error_of-find_track ty t i.tracks)))
  | inr e ↦
      rw (e, set_track)
        (rw (get_track-unknown i ty e) (unfold is_there error_of in (ground arith, refl)))
]
