-- ===== src/Grpc/Client.antt =====
-- How a call of the gRPC client ends, for any outcomes of its attempts.
use nestjs_homework.Base.{
  ℕ, zero, suc, true, false, ◌+◌, ◌≤◌, ◌<◌, ◌≡◌, ◌⊎◌, inl, inr, refl, arith, Bool-cases, subst,
}
use nestjs_homework.Grpc.{Attempt, gives_up, settle, call}

-- The attempts before the last one failed in a way that is tried again; the last is the outcome; and
-- either it is final or no retry is left.
pub record CallEnd {A : Type 0} (attempt : ℕ → Attempt A) (retries i calls : ℕ) : Type 0 where
  pub last : ℕ
  pub counted : calls ≡ suc last
  pub within : last ≤ retries
  pub tried_again : (j : ℕ) → j < last → gives_up (attempt (i + j)) ≡ false
  pub final_or_spent : (gives_up (attempt (i + last)) ≡ true) ⊎ (last ≡ retries)

later :
    {A : Type 0} (attempt : ℕ → Attempt A) (i last : ℕ)
    → gives_up (attempt i) ≡ false
    → ((j : ℕ) → j < last → gives_up (attempt (suc i + j)) ≡ false)
    → (j : ℕ) → j < suc last
    → gives_up (attempt (i + j)) ≡ false
later attempt i last now rest zero lt = subst (λ k. gives_up (attempt k) ≡ false) (omega arith) now
later attempt i last now rest (suc j) lt =
    subst (λ k. gives_up (attempt k) ≡ false) (omega arith) (rest j (omega arith))

-- A call makes at least one attempt and at most one more than its retries; each but the last failed in a
-- way that is tried again; it ends as the last attempt ends, a timeout as `UNAVAILABLE`; and it stops
-- only on an answer, on a status that is never tried again, or when no retry is left.
pub call_outcome :
    {A : Type 0} (attempt : ℕ → Attempt A) (retries i : ℕ)
    → (e : CallEnd attempt retries i (call attempt retries i).0) × ((call attempt retries i).1
        ≡ settle (attempt (i + e.last)))
unfolding call
call_outcome attempt zero i = (
  record {
    last = 0;
    counted = refl;
    within = omega arith;
    tried_again = λ j lt. absurd (omega arith);
    final_or_spent = inr refl;
  },
  subst (λ k. settle (attempt i) ≡ settle (attempt k)) (omega arith) refl,
)
call_outcome attempt (suc retries) i = elim (Bool-cases (gives_up (attempt i))) [
  | inl final ↦ rw final (
    record {
      last = 0;
      counted = refl;
      within = omega arith;
      tried_again = λ j lt. absurd (omega arith);
      final_or_spent = inl (subst (λ k. gives_up (attempt k) ≡ true) (omega arith) final);
    },
    subst (λ k. settle (attempt i) ≡ settle (attempt k)) (omega arith) refl,
  )
  | inr again ↦
      let (e, same) = call_outcome attempt retries (suc i) in
      let shift : suc i + e.last ≡ i + suc e.last = omega arith in
      rw again (
        record {
          last = suc e.last;
          counted = omega (arith, e.counted);
          within = omega (arith, e.within);
          tried_again = later attempt i e.last again e.tried_again;
          final_or_spent = elim e.final_or_spent [
            | inl f ↦ inl (subst (λ k. gives_up (attempt k) ≡ true) shift f)
            | inr s ↦ inr (omega arith)
          ];
        },
        subst (λ k. (call attempt retries (suc i)).1 ≡ settle (attempt k)) shift same,
      )
]
