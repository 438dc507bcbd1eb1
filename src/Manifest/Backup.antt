-- ===== src/Manifest/Backup.antt =====
-- config/storage_backup_url.go: which URL is the backup of another one.
use dms_api.Prelude.{
  ◌+◌, ◌≡◌, refl, sym, ap, ◌∙◌, String, concat, true, false, List, [], ◌∷◌, inl, inr, ◌⊎◌,
  Bool-cases,
}
use Prim.Native.String.{slice, len}
use text.Mathlib.Text.{starts_with}
use text.Mathlib.TextEquality.{starts_with_iff}
use text.Mathlib.TextPositions.{starts_with-append, slice-append_middle, len-append}
use text.Mathlib.TextLemmas.{append-nil}
use dms_api.Manifest.{after_prefix, get_storage_backup_url}

-- The backup of a URL: the first primary that is a prefix of it gives way to its backup, and without
-- such a primary it is empty.
abbrev pub IsBackup : List (String × String) → String → String → Type 0
IsBackup [] u b = b ≡ ""
IsBackup ((primary, backup) ∷ rest) u b =
    ((t : String) × (u ≡ concat primary t) × (b ≡ concat backup t))
    ⊎ (((t : String) → u ≡ concat primary t → ⊥) × IsBackup rest u b)

after_prefix-append : (p t : String) → after_prefix (concat p t) p ≡ t
unfolding after_prefix
after_prefix-append p t = rw (len-append p t) (
    ap (λ u. slice (concat p u) (len p) (len p + len t)) (sym (append-nil t))
    ∙ slice-append_middle p t "")

pub get_storage_backup_url-IsBackup :
    (fs : List (String × String)) (u : String) → IsBackup fs u (get_storage_backup_url fs u)
unfolding get_storage_backup_url
get_storage_backup_url-IsBackup [] u = refl
get_storage_backup_url-IsBackup ((p, q) ∷ rest) u = elim (Bool-cases (starts_with u p)) [
  | inl e ↦
      let w = (starts_with_iff u p).0 e in
      rw e (
        inl (
          w.0,
          sym w.1,
          ap (concat q) (ap (λ x. after_prefix x p) (sym w.1) ∙ after_prefix-append p w.0),
        ))
  | inr e ↦ rw e (
      inr (
        (λ t h. true_false (sym (starts_with-append p t) ∙ ap (λ x. starts_with x p) (sym h) ∙ e)),
        get_storage_backup_url-IsBackup rest u,
      ))
]
  where
    true_false : true ≡ false → ⊥
    true_false h = cc

-- A URL has one backup.
pub IsBackup-get_storage_backup_url :
    (fs : List (String × String)) (u b : String) → IsBackup fs u b → get_storage_backup_url fs u ≡ b
unfolding get_storage_backup_url
IsBackup-get_storage_backup_url [] u b h = sym h
IsBackup-get_storage_backup_url ((p, q) ∷ rest) u b (inl (t, w, k)) =
    let e : starts_with u p ≡ true = ap (λ x. starts_with x p) w ∙ starts_with-append p t in
    rw e (ap (concat q) (ap (λ x. after_prefix x p) w ∙ after_prefix-append p t) ∙ sym k)
IsBackup-get_storage_backup_url ((p, q) ∷ rest) u b (inr (none_fits, h)) =
    elim (Bool-cases (starts_with u p)) [
      | inl e ↦ let w = (starts_with_iff u p).0 e in absurd (none_fits w.0 (sym w.1))
      | inr e ↦ rw e (IsBackup-get_storage_backup_url rest u b h)
    ]
