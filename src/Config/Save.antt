-- ===== src/Config/Save.antt =====
-- `Save` of internal/config/save.go, over the files by path. The JSON of a configuration is a parameter.
use dockward.Prelude.{
  ℕ, ◌≡◌, ◌≢◌, ◌⊎◌, inl, inr, refl, Bool, true, false, Option, none, some, arith, if◌then◌else◌,
  take, beq_refl, Option-cases, Bool-cases, ◌∙◌,
}
use dockward.Prelude.Text.{Text, text_eq, text_beq_iff}
use dockward.Prelude.Map.{lookup, insert, delete, lookup-insert, lookup-delete}
use dockward.Prelude.Files.{Files, rename}
use dockward.Config.{Config}

-- What the operating system answers. `temp` is the name that `os.CreateTemp` makes up; `failed_after` is
-- how many bytes a write that fails has written.
pub record SaveAnswers : Type 0 where
  pub temp : Text
  pub create_ok : Bool
  pub failed_after : Option ℕ
  pub close_ok : Bool
  pub rename_ok : Bool
  pub remove_ok : Bool

abbrev cleaned_up : SaveAnswers → Files → Files
cleaned_up a files = if a.remove_ok then delete a.temp files else files

-- Whether the configuration was saved, and the files after.
unfoldable pub save : (Config → Option Text) → SaveAnswers → Text → Config → Files → Bool × Files
unfolding rename
save encode a path c files = elim (encode c) [
  | none ↦ (false, files)
  | some data_text ↦
      if a.create_ok
      then elim a.failed_after [
        | some n ↦ (false, cleaned_up a (insert a.temp (take n data_text) files))
        | none ↦
            let written = insert a.temp data_text files in
            if a.close_ok
            then if a.rename_ok
              then elim (rename a.temp path written) [
                | none ↦ (false, cleaned_up a written)
                | some renamed ↦ (true, renamed)
              ]
              else (false, cleaned_up a written)
            else (false, cleaned_up a written)
      ]
      else (false, files)
]

lookup-cleaned_up :
    (a : SaveAnswers) (path d : Text) (files : Files)
    → a.temp ≢ path
    → lookup path (cleaned_up a (insert a.temp d files)) ≡ lookup path files
lookup-cleaned_up a path d files other = ground (
  arith,
  text_beq_iff a.temp path,
  lookup-insert path a.temp d files,
  lookup-delete path a.temp (insert a.temp d files),
)

rename_written :
    (a : SaveAnswers) (path d : Text) (files : Files)
    → rename a.temp path (insert a.temp d files)
      ≡ some (insert path d (delete a.temp (insert a.temp d files)))
unfolding rename
rename_written a path d files =
    rw (lookup-insert a.temp a.temp d files, beq_refl a.temp, rename) refl

-- Whatever fails, the file of the configuration is whole: it has the new text if the save succeeded,
-- and otherwise what it had before. The temporary file has another name.
pub save_atomic :
    (encode : Config → Option Text) (a : SaveAnswers) (path : Text) (c : Config) (files : Files)
    → a.temp ≢ path
    → let (ok, after) = save encode a path c files in
      ((ok ≡ true) × (lookup path after ≡ encode c))
      ⊎ ((ok ≡ false) × (lookup path after ≡ lookup path files))
unfolding save
save_atomic encode a path c files other = elim (Option-cases (encode c)) [
  | inl no_text ↦ rw (no_text, save) (inr (refl, refl))
  | inr (d, encoded) ↦ elim (Bool-cases a.create_ok) [
    | inr no_temp ↦ rw (encoded, no_temp, save) (inr (refl, refl))
    | inl temp ↦ elim (Option-cases a.failed_after) [
      | inr (n, cut) ↦
          rw (encoded, temp, cut, save)
            (inr (refl, lookup-cleaned_up a path (take n d) files other))
      | inl whole ↦ elim (Bool-cases a.close_ok) [
        | inr left_open ↦
            rw (encoded, temp, whole, left_open, save)
              (inr (refl, lookup-cleaned_up a path d files other))
        | inl shut ↦ elim (Bool-cases a.rename_ok) [
          | inr stuck ↦
              rw (encoded, temp, whole, shut, stuck, save)
                (inr (refl, lookup-cleaned_up a path d files other))
          | inl moved ↦
              rw (encoded, temp, whole, shut, moved, rename_written a path d files, save)
                (inl (
                  refl,
                  lookup-insert path path d (delete a.temp (insert a.temp d files))
                      ∙ rw (beq_refl path) refl,
                ))
        ]
      ]
    ]
  ]
]
