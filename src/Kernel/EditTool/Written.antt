-- ===== src/Kernel/EditTool/Written.antt =====
-- How the write through the temporary file ends.
use axl_raja.Prelude.{
  ℕ, String, Option, ◌⊎◌, none, some, List, ◌≡◌, refl, Outcome, ok, err, Option-cases, Bool-cases,
  inl, inr,
}
use axl_raja.Kernel.EditTool.Execution.{
  Answers, failed, after_stat, remove_temporary, Files, EditError, write_atomically,
}

-- How a run ends that has renamed the temporary file: as it should, or with the error of `rm`.
abbrev pub Ends {ℓ} : {A : Type ℓ} → (rm_error : Option String) → A → Outcome EditError A → Type ℓ
Ends rm_error a outcome =
    (outcome ≡ ok a) ⊎ ((code : String) × (rm_error ≡ some code) × (outcome ≡ err (failed code)))

module _ (answers : Answers) where
  -- The write: the new bytes, or an error and the old bytes.
  pub data IsWrite (bytes : List ℕ) (files : Files) (r : Outcome EditError (Unit {0}) × Files)
      : Type 0 where
    is_kept : (e : EditError) → r.0 ≡ err e → r.1.target ≡ files.target → IsWrite bytes files r
    is_written : Ends answers.rm_error tt r.0 → r.1.target ≡ bytes → IsWrite bytes files r

  after_stat-IsWrite :
      (bytes : List ℕ) (files : Files)
      → IsWrite bytes files (after_stat answers bytes answers.stat_error files)
  after_stat-IsWrite bytes files = elim (Option-cases answers.stat_error) [
    | inr (code, fails) ↦ rw fails (is_kept _ refl refl)
    | inl fine ↦ elim (Bool-cases answers.aborted_after_stat) [
      | inl stopped ↦ rw (fine, stopped) (is_kept _ refl refl)
      | inr on ↦ elim (Option-cases answers.write_error) [
        | inr ((code, left), fails) ↦ rw (fine, on, fails) (is_kept _ refl refl)
        | inl wrote ↦ elim (Bool-cases answers.aborted_after_write) [
          | inl stopped ↦ rw (fine, on, wrote, stopped) (is_kept _ refl refl)
          | inr on' ↦ elim (Option-cases answers.rename_error) [
            | inr (code, fails) ↦ rw (fine, on, wrote, on', fails) (is_kept _ refl refl)
            | inl renamed ↦ rw (fine, on, wrote, on', renamed) (is_written (inl refl) refl)
          ]
        ]
      ]
    ]
  ]

  remove_temporary-IsWrite :
      (bytes : List ℕ) (files : Files) (error : Option String)
      (r : Outcome EditError (Unit {0}) × Files)
      → answers.rm_error ≡ error
      → IsWrite bytes files r
      → IsWrite bytes files (remove_temporary answers error r)
  remove_temporary-IsWrite bytes files none r same (is_kept e fails kept) = is_kept e fails kept
  remove_temporary-IsWrite bytes files none r same (is_written done new) = is_written done new
  remove_temporary-IsWrite bytes files (some code) r same (is_kept e fails kept) =
      is_kept _ refl kept
  remove_temporary-IsWrite bytes files (some code) r same (is_written done new) =
      is_written (inr (code, same, refl)) new

  pub write_atomically-IsWrite :
      (bytes : List ℕ) (files : Files) → IsWrite bytes files (write_atomically answers bytes files)
  unfolding write_atomically
  write_atomically-IsWrite bytes files =
      remove_temporary-IsWrite bytes files answers.rm_error _ refl (after_stat-IsWrite bytes files)
