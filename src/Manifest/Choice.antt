-- ===== src/Manifest/Choice.antt =====
-- clients/manifest.go: which of the two manifests is used, and where the segments of a recording
-- are.
use dms_api.Prelude.{
  if◌then◌else◌, ℕ, ◌≤◌, ◌≡◌, refl, sym, ap, ◌∙◌, String, Bool, true, false, ◌||◌, not, Option,
  none, some, List, [], ◌∷◌, arith, str_eq, ltb, inl, inr, ◌⊎◌, ◌↔◌, Bool-cases,
}
use mathlib.Core.Path.{subst}
use dms_api.Errors.{Error, is_object_not_found, is_unretriable}
use dms_api.Result.{Result, ok, err}
use dms_api.Manifest.Backup.{
  IsBackup, get_storage_backup_url-IsBackup, IsBackup-get_storage_backup_url,
}
use dms_api.Manifest.{
  Download, Located, Segment, Storage, choose, at_url, relocate, relocate_segment, in_text,
  get_storage_backup_url, found_at, get_file_with_backup,
}

-- A manifest is at least as large as one that is there, and a failure beside it is a plain absence.
abbrev pub IsLargest : ℕ → Option (Result Download) → Type 0
IsLargest n (some (ok g)) = g.size ≤ n
IsLargest n (some (err f)) = is_object_not_found f ≡ true
IsLargest n o = Unit

abbrev pub IsAtLeast : Result Download → ℕ → Type 0
IsAtLeast (ok d) n = d.size ≤ n
IsAtLeast (err e) n = is_object_not_found e ≡ true

module _ (source backup : String) where
  abbrev pub IsChosen : Result Download → Option (Result Download) → Located → Type 0
  IsChosen p q (ok (url, d)) =
      ((url ≡ source) × (p ≡ ok d) ⊎ (url ≡ backup) × (q ≡ some (ok d)))
      × IsAtLeast p d.size
      × IsLargest d.size q
  IsChosen p q (err e) =
      (p ≡ err e) × (is_object_not_found e ≡ false ⊎ ((g : Download) → q ≡ some (ok g) → ⊥))
      ⊎ (q ≡ some (err e)) × is_object_not_found e ≡ false

  -- A success gives the download of the URL it names: the largest of the two where both are there,
  -- and otherwise the other one is absent, and did not fail for another reason. An error is that of
  -- the primary, where it is no absence or there is no backup either, or it is that of the backup,
  -- where that is no absence.
  pub choose-IsChosen :
      (p : Result Download) (q : Option (Result Download)) → IsChosen p q (choose source backup p q)
  unfolding choose at_url
  choose-IsChosen (err e) none = inl (refl, inr (λ g h. cc))
  choose-IsChosen (ok d) none = (inl (refl, refl), omega arith, tt)
  choose-IsChosen (err e) (some (err f)) = elim (Bool-cases (is_object_not_found e)) [
    | inl h ↦ elim (Bool-cases (is_object_not_found f)) [
      | inl k ↦ rw (h, k) (inl (refl, inr (λ g r. let no : ⊥ = cc in no)))
      | inr k ↦ rw (h, k) (inr (refl, k))
    ]
    | inr h ↦ rw h (inl (refl, inl h))
  ]
  choose-IsChosen (err e) (some (ok g)) = elim (Bool-cases (is_object_not_found e)) [
    | inl h ↦ rw h (inr (refl, refl), h, omega arith)
    | inr h ↦ rw h (inl (refl, inl h))
  ]
  choose-IsChosen (ok d) (some (err f)) = elim (Bool-cases (is_object_not_found f)) [
    | inl h ↦ rw h (inl (refl, refl), omega arith, h)
    | inr h ↦ rw h (inr (refl, h))
  ]
  choose-IsChosen (ok d) (some (ok g)) = elim (Bool-cases (ltb d.size g.size)) [
    | inl h ↦ rw h (inr (refl, refl), ground (arith, h), omega arith)
    | inr h ↦ rw h (inl (refl, refl), omega arith, ground (arith, h))
  ]

Result-cases {ℓ} :
    {A : Type ℓ} (x : Result A) → ((a : A) × (x ≡ ok a)) ⊎ ((e : Error) × (x ≡ err e))
Result-cases (ok a) = inl (a, refl)
Result-cases (err e) = inr (e, refl)

ok_inj {ℓ} : {A : Type ℓ} (x y : A) → ok x ≡ ok y → x ≡ y
ok_inj x y h = cc

Option-cases {ℓ} : {A : Type ℓ} (x : Option A) → (x ≡ none) ⊎ ((a : A) × (x ≡ some a))
Option-cases none = inl refl
Option-cases (some a) = inr (a, refl)

no_ok {ℓ} : {A : Type ℓ} (f : Error) (x : A) → err f ≡ ok x → ⊥
no_ok f x h = cc

two_fail :
    (e f : Error) (v : String)
    → (if not (is_unretriable e) then err e else if not (is_unretriable f) then err f else err e)
      ≡ ok v
    → ⊥
two_fail e f v h = ground (arith, h)

-- Where the segments of a recording are.
module _ (s : Storage) (primary : String) where
  abbrev backup_of : String → String
  backup_of u = get_storage_backup_url s.fallbacks u

  -- A file is at its own URL, or it is not there and at its backup URL.
  abbrev IsFound : String → String → Type 0
  IsFound u v =
      ((s.get_file u ≡ none) × (v ≡ u))
      ⊎ (((e : Error) × (s.get_file u ≡ some e))
          × IsBackup s.fallbacks u v
          × (str_eq v "" ≡ false)
          × (s.get_file v ≡ none))

  -- A segment is where its file is found, with its duration, and has moved if that is not its URL.
  abbrev IsAt : Segment → Segment → Bool → Type 0
  IsAt seg new moved =
      (u : String) × (s.segment_url primary seg.uri ≡ ok u)
      × IsFound u new.uri
      × (new.duration ≡ seg.duration)
      × (moved ≡ not (str_eq new.uri u))

  abbrev pub AllAt : List Segment → List Segment → Bool → Type 0
  AllAt [] [] moved = moved ≡ false
  AllAt (x ∷ xs) (y ∷ ys) moved =
      (a : Bool) × (b : Bool) × IsAt x y a × AllAt xs ys b × (moved ≡ (a || b))
  AllAt xs ys moved = ⊥

  get_file_with_backup-IsFound : (u v : String) → get_file_with_backup s u ≡ ok v → IsFound u v
  unfolding get_file_with_backup found_at
  get_file_with_backup-IsFound u v h = elim (Option-cases (s.get_file u)) [
    | inl p ↦ inl (p, sym (ok_inj u v (rw (get_file_with_backup, p) at h)))
    | inr (e, p) ↦ elim (Bool-cases (str_eq (backup_of u) "")) [
      | inl q ↦ elim (Option-cases (s.get_file (backup_of u))) [
        | inl r ↦ let no : ⊥ = no_ok e v (rw (get_file_with_backup, p, r, q) at h) in elim no [ ]
        | inr (f, r) ↦
            let no : ⊥ = no_ok e v (rw (get_file_with_backup, p, r, q) at h) in elim no [ ]
      ]
      | inr q ↦ elim (Option-cases (s.get_file (backup_of u))) [
        | inl r ↦
            let w : backup_of u ≡ v =
              ok_inj (backup_of u) v (rw (get_file_with_backup, p, r, q) at h) in
            inr (
              (e, p),
              subst (IsBackup s.fallbacks u) w (get_storage_backup_url-IsBackup s.fallbacks u),
              ap (λ x. str_eq x "") (sym w) ∙ q,
              ap s.get_file (sym w) ∙ r,
            )
        | inr (f, r) ↦
            let no : ⊥ = two_fail e f v (rw (get_file_with_backup, p, r, q) at h) in elim no [ ]
      ]
    ]
  ]

  IsFound-get_file_with_backup : (u v : String) → IsFound u v → get_file_with_backup s u ≡ ok v
  unfolding get_file_with_backup found_at
  IsFound-get_file_with_backup u v (inl (p, q)) = rw (get_file_with_backup, p, q) refl
  IsFound-get_file_with_backup u v (inr (e, b, q, r)) =
      let w = IsBackup-get_storage_backup_url s.fallbacks u v b in
      rw (get_file_with_backup, e.1, w, r, q) refl

  segment-IsAt :
      (seg : Segment) (r : Segment × Bool)
      → relocate_segment s primary seg ≡ ok r
      → IsAt seg r.0 r.1
  unfolding relocate_segment in_text
  segment-IsAt seg r h = elim (Result-cases (s.segment_url primary seg.uri)) [
    | inl (u, p) ↦ elim (Result-cases (get_file_with_backup s u)) [
      | inl (v, q) ↦
          let e : r ≡ (record seg { uri = v }, not (str_eq v u)) =
            ok_inj r _ (sym (rw (relocate_segment, p, q) at h)) in
          (
            u,
            p,
            subst (IsFound u) (ap (λ (t : Segment × Bool). t.0.uri) (sym e))
                (get_file_with_backup-IsFound u v q),
            ap (λ (t : Segment × Bool). t.0.duration) e,
            ap (λ (t : Segment × Bool). t.1) e
                ∙ ap (λ (t : Segment × Bool). not (str_eq t.0.uri u)) (sym e),
          )
      | inr (f, q) ↦ let no : ⊥ = no_ok _ r (rw (relocate_segment, p, q) at h) in elim no [ ]
    ]
    | inr (f, p) ↦ let no : ⊥ = no_ok _ r (rw (relocate_segment, p) at h) in elim no [ ]
  ]

  relocated :
      (seg new : Segment) (moved : Bool)
      → IsAt seg new moved
      → relocate_segment s primary seg ≡ ok (new, moved)
  unfolding relocate_segment in_text
  relocated seg new moved (u, p, f, d, m) =
      rw (relocate_segment, p, IsFound-get_file_with_backup u new.uri f, m)
        (ap (λ n. ok (record { uri = new.uri; duration = n }, not (str_eq new.uri u))) (sym d))

  all_relocated :
      (segs new : List Segment) (moved : Bool)
      → AllAt segs new moved
      → relocate s primary segs ≡ ok (new, moved)
  unfolding relocate
  all_relocated [] [] moved h = rw h refl
  all_relocated [] (y ∷ ys) moved h = elim h [ ]
  all_relocated (x ∷ xs) [] moved h = elim h [ ]
  all_relocated (x ∷ xs) (y ∷ ys) moved (a, b, at_y, at_ys, m) =
      rw (relocated x y a at_y, all_relocated xs ys b at_ys, m) refl

  relocate-AllAt :
      (segs new : List Segment) (moved : Bool)
      → relocate s primary segs ≡ ok (new, moved)
      → AllAt segs new moved
  unfolding relocate
  relocate-AllAt [] new moved h =
      let e = ok_inj ([], false) (new, moved) h in
      subst (λ (t : List Segment × Bool). AllAt [] t.0 t.1) e refl
  relocate-AllAt (x ∷ xs) new moved h = elim (Result-cases (relocate_segment s primary x)) [
    | inl (r, p) ↦ elim (Result-cases (relocate s primary xs)) [
      | inl (rest, q) ↦
          let e : (r.0 ∷ rest.0, r.1 || rest.1) ≡ (new, moved) =
            ok_inj _ (new, moved) (rw (relocate, p, q) at h) in
          subst (λ (t : List Segment × Bool). AllAt (x ∷ xs) t.0 t.1) e
            (r.1, rest.1, segment-IsAt x r p, relocate-AllAt xs rest.0 rest.1 q, refl)
      | inr (f, q) ↦ let no : ⊥ = no_ok _ (new, moved) (rw (relocate, p, q) at h) in elim no [ ]
    ]
    | inr (f, p) ↦ let no : ⊥ = no_ok _ (new, moved) (rw (relocate, p) at h) in elim no [ ]
  ]

  -- The loop over the segments of a recording succeeds with a list if and only if each of its
  -- segments stands where storage has the segment, one by one and with the duration of the segment:
  -- at its primary URL if the file is there, else at the backup URL of that, which has the backup in
  -- place of the first prefix that has one, where there is such a URL and the file is there. It
  -- reports that a segment has moved if and only if one does not stand at its primary URL.
  pub relocate_iff :
      (segs new : List Segment) (moved : Bool)
      → (relocate s primary segs ≡ ok (new, moved)) ↔ AllAt segs new moved
  relocate_iff segs new moved = (relocate-AllAt segs new moved, all_relocated segs new moved)
