-- ===== src/Callback/Client/Laws.antt =====
-- What the callback client stores and posts.
use dms_api.Prelude.{
  ◌≡◌, ◌≢◌, refl, String, Bool, true, false, Option, none, List, [], ◌∷◌, ◌++◌, arith, str_eq,
  eq_iff, if◌then◌else◌,
}
use dms_api.Prelude.Dict
use dms_api.Prelude.Dict.{
  Dict, IsDistinct, AllEntries, get-put, get-delete, put-IsDistinct, delete-IsDistinct,
  put-AllEntries, delete-AllEntries, delete-put-AllEntries,
}
use dms_api.Errors.{Error}
use dms_api.Callback.Status.{Message, is_terminal}
use dms_api.Callback.Client.{Client, replaces, update_transcode_status, send_transcode_status}
use dms_api.Prelude.{if_both}

-- An entry of the map: its key is the request's, and the message is not the last one.
abbrev pub IsActive : String → Message → Type 0
IsActive k m = (m.request_id ≡ k) × (is_terminal m ≡ false)

-- The map of latest messages has one entry per key, and only active ones.
pub record IsClean (latest : Dict Message) : Type 0 where
  pub distinct : IsDistinct latest
  pub active : AllEntries IsActive latest

update-IsClean :
    (tsm : Message) (latest : Dict Message)
    → IsClean latest
    → IsClean (update_transcode_status tsm latest)
unfolding update_transcode_status
update-IsClean tsm latest h =
    if_both IsClean (is_terminal tsm) (Dict.delete tsm.request_id latest') latest'
      (λ e. record {
        distinct = delete-IsDistinct tsm.request_id latest' distinct';
        active =
            if_both (λ m. AllEntries IsActive (Dict.delete tsm.request_id m)) b written latest
              (λ _. delete-put-AllEntries IsActive tsm.request_id tsm latest h.active)
              (λ _. delete-AllEntries IsActive tsm.request_id latest h.active);
      })
      (λ e. record {
        distinct = distinct';
        active =
            if_both (AllEntries IsActive) b written latest
              (λ _. put-AllEntries IsActive tsm.request_id tsm latest (refl, e) h.active)
              (λ _. h.active);
      })
  where
    b : Bool
    b = replaces (Dict.get tsm.request_id latest) tsm

    written : Dict Message
    written = Dict.put tsm.request_id tsm latest

    latest' : Dict Message
    latest' = if b then written else latest

    distinct' : IsDistinct latest'
    distinct' =
        if_both IsDistinct b written latest
          (λ _. put-IsDistinct tsm.request_id tsm latest h.distinct) (λ _. h.distinct)

get-update :
    (tsm : Message) (latest : Dict Message)
    → is_terminal tsm ≡ true
    → (k : String)
    → Dict.get k (update_transcode_status tsm latest)
      ≡ (if str_eq tsm.request_id k then none else Dict.get k latest)
unfolding update_transcode_status
get-update tsm latest h k = ground (
  arith,
  get-delete tsm.request_id k latest,
  get-delete tsm.request_id k (Dict.put tsm.request_id tsm latest),
  get-put tsm.request_id k tsm latest,
)

module _ (post : List Message → Message → Option Error) where
  -- Sending a message keeps the map clean: one entry per request, under its own id, and no entry
  -- for a request whose last message was sent.
  pub send-IsClean :
      (tsm : Message) (c : Client)
      → IsClean c.latest
      → IsClean (send_transcode_status post tsm c).0.latest
  unfolding send_transcode_status
  send-IsClean tsm c h =
      if_both {A = Client × Option Error} (λ p. IsClean p.0.latest) (str_eq tsm.url "") _ _ (λ _. h)
        (λ _.
          if_both {A = Client × Option Error} (λ p. IsClean p.0.latest) _ _ _
            (λ _. update-IsClean tsm c.latest h) (λ _. update-IsClean tsm c.latest h))

  -- A terminal message with an address is posted at once, its delivery's error is the result, the
  -- request has no entry afterwards, and the entries of other requests stay. With no address
  -- nothing happens.
  pub send_terminal :
      (tsm : Message) (c : Client)
      → is_terminal tsm ≡ true
      → (tsm.url ≢ ""
          → ((send_transcode_status post tsm c).1 ≡ post c.posted tsm)
            × ((send_transcode_status post tsm c).0.posted ≡ c.posted ++ tsm ∷ [])
            × ((k : String)
                → Dict.get k (send_transcode_status post tsm c).0.latest
                  ≡ (if str_eq tsm.request_id k then none else Dict.get k c.latest)))
        × (tsm.url ≡ "" → send_transcode_status post tsm c ≡ (c, none))
  unfolding send_transcode_status
  send_terminal tsm c h = (
    λ n. (
      ground (arith, eq_iff tsm.url ""),
      ground (arith, eq_iff tsm.url ""),
      λ k. ground (arith, eq_iff tsm.url "", get-update tsm c.latest h k),
    ),
    λ e. ground (arith, eq_iff tsm.url ""),
  )
