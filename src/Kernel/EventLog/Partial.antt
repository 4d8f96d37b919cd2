-- ===== src/Kernel/EventLog/Partial.antt =====
-- What the write loop of `appendDurably` has written when it ends.
use axl_raja.Prelude.{
  ℕ, zero, suc, ◌+◌, ◌<◌, ◌≤◌, false, List, [], ◌∷◌, ◌++◌, ◌≡◌, refl, ap, ◌∙◌, sym, eqb, ltb,
  length, length-append, length-take, length-drop, take, drop, append_assoc, append-nil, arith,
  Bool-cases, inl, inr,
}
use axl_raja.Kernel.EventLog.Writing.{
  Write, wrote, fails, Progress, completes, throws, crashes, write_at, write_loop,
}

module _ {ℓ} {A : Type ℓ} where
  drop_all : (n : ℕ) (l : List A) → length l ≤ n → drop n l ≡ []
  drop_all zero [] h = refl
  drop_all zero (x ∷ l) h = absurd (omega arith)
  drop_all (suc n) [] h = refl
  drop_all (suc n) (x ∷ l) h = drop_all n l (omega arith)

  pub take_all : (n : ℕ) (l : List A) → length l ≤ n → take n l ≡ l
  take_all zero [] h = refl
  take_all zero (x ∷ l) h = absurd (omega arith)
  take_all (suc n) [] h = refl
  take_all (suc n) (x ∷ l) h = ap (λ r. x ∷ r) (take_all n l (omega arith))

  take-nil : (n : ℕ) → take {A = A} n [] ≡ []
  take-nil zero = refl
  take-nil (suc n) = refl

  -- Two takes in a row.
  take-drop : (k n : ℕ) (l : List A) → take k l ++ take n (drop k l) ≡ take (k + n) l
  take-drop zero n l = ap (λ m. take m l) (omega arith)
  take-drop (suc k) n [] = take-nil n ∙ sym (take-nil (suc k + n))
  take-drop (suc k) n (x ∷ l) =
      ap (λ r. x ∷ r) (take-drop k n l)
      ∙ ap (λ m. take m (x ∷ l)) (let e : suc (k + n) ≡ suc k + n = omega arith in e)

  take-length-take : (n : ℕ) (l : List A) → take (length (take n l)) l ≡ take n l
  take-length-take zero l = refl
  take-length-take (suc n) [] = refl
  take-length-take (suc n) (x ∷ l) = ap (λ r. x ∷ r) (take-length-take n l)

module _ (file line : List ℕ) where
  -- The file while the line is written: its first `k` bytes are there.
  abbrev pub partial : ℕ → List ℕ
  partial k = file ++ take k line

  length-partial : (k : ℕ) → k ≤ length line → length (partial k) ≡ length file + k
  length-partial k h = omega (arith, length-append file (take k line), length-take k line)

  -- The next write extends the written part of the line.
  write_at-partial :
      (k n : ℕ)
      → k ≤ length line
      → write_at (length file + k) (take n (drop k line)) (partial k)
        ≡ partial (k + length (take n (drop k line)))
  write_at-partial k n h =
      let chunk = take n (drop k line) in
      let end = length-partial k h in
      rw (
        take_all (length file + k) (partial k) (omega (arith, end)),
        drop_all (length file + k + length chunk) (partial k) (omega (arith, end)),
        append-nil,
        append_assoc,
        ← take-drop k (length chunk) line,
        take-length-take n (drop k line),
      )

  -- What the loop leaves: some first part of the line, and all of it if the loop completes.
  pub record IsPartial (r : Progress × List ℕ) : Type 0 where
    pub count : ℕ
    pub bound : count ≤ length line
    pub file_eq : r.1 ≡ partial count
    pub all_written : r.0 ≡ completes → count ≡ length line

  stopped :
      (k : ℕ) (p : Progress)
      → k ≤ length line
      → (p ≡ completes → k ≡ length line)
      → IsPartial (p, partial k)
  stopped k p h done = record { count = k; bound = h; file_eq = refl; all_written = done }

  pub write_loop-IsPartial :
      (answers : List Write) (k : ℕ)
      → k ≤ length line
      → IsPartial (write_loop answers line (length file) k (partial k))
  unfolding write_loop
  write_loop-IsPartial [] k h = elim (Bool-cases (ltb k (length line))) [
    | inl more ↦ rw more (stopped k crashes h (λ e. cc))
    | inr done ↦ rw done (stopped k completes h (λ _. ground arith))
  ]
  write_loop-IsPartial (fails ∷ answers) k h = elim (Bool-cases (ltb k (length line))) [
    | inl more ↦ rw more (stopped k throws h (λ e. cc))
    | inr done ↦ rw done (stopped k completes h (λ _. ground arith))
  ]
  write_loop-IsPartial (wrote n ∷ answers) k h =
      let chunk = take n (drop k line) in
      elim (Bool-cases (ltb k (length line))) [
        | inr done ↦ rw done (stopped k completes h (λ _. ground arith))
        | inl more ↦ elim (Bool-cases (eqb (length chunk) 0)) [
          | inl none_written ↦ rw (more, none_written) (stopped k throws h (λ e. cc))
          | inr some_written ↦
              rw (more, some_written, write_at-partial k n h)
                (write_loop-IsPartial answers (k + length chunk)
                  (omega (arith, length-take n (drop k line), length-drop k line)))
        ]
      ]

-- Each write accepts at least one byte.
abbrev pub MakesProgress : List Write → Type 0
MakesProgress [] = Unit
MakesProgress (fails ∷ answers) = ⊥
MakesProgress (wrote n ∷ answers) = (0 < n) × MakesProgress answers

pub write_loop_completes :
    (file line : List ℕ) (answers : List Write) (k : ℕ)
    → k ≤ length line
    → MakesProgress answers
    → length line ≤ k + length answers
    → (write_loop answers line (length file) k (partial file line k)).0 ≡ completes
unfolding write_loop
write_loop_completes file line [] k h p enough = ground arith
write_loop_completes file line (fails ∷ answers) k h p enough = absurd p
write_loop_completes file line (wrote n ∷ answers) k h (pos, p) enough =
    let chunk = take n (drop k line) in
    elim (Bool-cases (ltb k (length line))) [
      | inr done ↦ rw done
      | inl more ↦
          let some_written : eqb (length chunk) 0 ≡ false =
            ground (arith, length-take n (drop k line), length-drop k line) in
          rw (more, some_written, write_at-partial file line k n h)
            (write_loop_completes file line answers (k + length chunk)
              (omega (arith, length-take n (drop k line), length-drop k line)) p
              (ground (arith, length-take n (drop k line), length-drop k line)))
    ]
