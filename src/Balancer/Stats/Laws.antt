-- ===== src/Balancer/Stats/Laws.antt =====
-- balancer/catabalancer/catalyst_balancer.go: the stream lists of a node, there and back, and the
-- node that a viewer is sent to.
use dms_api.Prelude.{
  ◌≡◌, refl, sym, ap, ◌∙◌, String, concat, true, false, List, [], ◌∷◌, str_eq, eq_iff, eq_refl, inl,
  inr, Bool-cases, All,
}
use Prim.Native.Char.{Char}
use Prim.Native.String.append
use dms_api.Prelude.Text.{cut, join, occurs, split-join, cut-concat, occurs-join}
use dms_api.Balancer.Stats.{
  NodeUpdateEvent, set_streams, get_streams, get_ingest_streams, split_ids,
}

-- No id is empty, and none has a separator in it.
abbrev pub IsWritable : List String → Type 0
IsWritable ids = All (λ s. (occurs b'|' s ≡ false) × (str_eq s "" ≡ false)) ids

not_empty : (c : Char) (s t : String) → t ≡ String.◌∷◌ c s → str_eq t "" ≡ false
not_empty c s t p = elim (Bool-cases (str_eq t "")) [
  | inl e ↦ absurd (let q : String.◌∷◌ c s ≡ String.[] = sym p ∙ (eq_iff t "").0 e in cc)
  | inr e ↦ e
]

concat-not_empty : (x y : String) → str_eq x "" ≡ false → str_eq (concat x y) "" ≡ false
concat-not_empty String.[] y h = absurd (let q : true ≡ false = sym (eq_refl "") ∙ h in cc)
concat-not_empty (String.◌∷◌ c x) y h =
    not_empty c (concat x y) (concat (String.◌∷◌ c x) y) (append.cons c x y)

join-not_empty :
    (x : String) (xs : List String) → str_eq x "" ≡ false → str_eq (join "|" (x ∷ xs)) "" ≡ false
unfolding join
join-not_empty x [] h = h
join-not_empty x (y ∷ xs) h = concat-not_empty x (concat "|" (join "|" (y ∷ xs))) h

separators : (ids : List String) → IsWritable ids → All (λ s. occurs b'|' s ≡ false) ids
separators [] h = tt
separators (x ∷ xs) h = (h.0.0, separators xs h.1)

split_ids-join : (ids : List String) → IsWritable ids → split_ids (join "|" ids) ≡ ids
unfolding split_ids
split_ids-join [] h = unfold join in refl
split_ids-join (x ∷ xs) h =
    rw (join-not_empty x xs (h.0.1)) (split-join b'|' "|" x xs refl (separators (x ∷ xs) h))

-- The two lists of streams that are written into an event are read out of it again, where no id is
-- empty or has a separator in it.
pub get_streams-set_streams :
    (ids ingest_ids : List String) (n : NodeUpdateEvent)
    → IsWritable ids
    → IsWritable ingest_ids
    → All (λ s. occurs b'~' s ≡ false) ids
    → (get_streams (set_streams ids ingest_ids n) ≡ ids)
      × (get_ingest_streams (set_streams ids ingest_ids n) ≡ ingest_ids)
unfolding get_streams get_ingest_streams set_streams occurs
get_streams-set_streams ids ingest_ids n h k t =
    let e =
      ap (λ y. cut b'~' (concat (join "|" ids) y))
        (append.cons "~" String.[] (join "|" ingest_ids)
          ∙ ap (String.◌∷◌ "~") (append.nil (join "|" ingest_ids)))
      ∙ cut-concat b'~' "~" (join "|" ids) (join "|" ingest_ids) refl
          (occurs-join b'~' "|" ids refl t) in
    (
      ap (λ (c : String × String). split_ids c.0) e ∙ split_ids-join ids h,
      ap (λ (c : String × String). split_ids c.1) e ∙ split_ids-join ingest_ids k,
    )
