-- ===== src/Sockets/Outcomes.antt =====
-- Calls of the operating system in the order of a plan, whatever the kernel answers.
use group_trade_data_query.Common.{
  ℕ, ◌≡◌, sym, subst, append-nil, append_assoc, true, false, List, [], ◌∷◌, ◌++◌, Bool-cases, inl,
  inr,
}
use group_trade_data_query.Sockets.{
  SysCall, Sys, proceed, Kernel, Outcome, returned, thrown, is_negative, is_minus_one,
}

-- What comes next: a call whose error is thrown with a message, a call whose answer is not looked at, or a
-- throw.
pub data Planned : Type 0 where
  must : SysCall → List ℕ → Planned
  may : SysCall → Planned
  refuse : List ℕ → Planned

-- Calls are made in the order of the plan. The plan is followed to its end, where `a` is returned, or up to
-- the first call that must succeed and does not, or to a refusal; then the message is thrown.
pub data Follows (kernel : Kernel) {A : Type 0} (a : A)
    : List SysCall → List Planned → Outcome A × List SysCall → Type 0 where
  finished : (done : List SysCall) → Follows kernel a done [] (returned a, done)
  unchecked :
      (done : List SysCall) (c : SysCall) (plan : List Planned) (end : Outcome A × List SysCall)
      → Follows kernel a (done ++ (c ∷ [])) plan end
      → Follows kernel a done (may c ∷ plan) end
  answered :
      (done : List SysCall) (c : SysCall) (message : List ℕ) (plan : List Planned)
      (end : Outcome A × List SysCall)
      → is_negative (kernel done c) ≡ false
      → Follows kernel a (done ++ (c ∷ [])) plan end
      → Follows kernel a done (must c message ∷ plan) end
  failed :
      (done : List SysCall) (c : SysCall) (message : List ℕ) (plan : List Planned)
      → is_negative (kernel done c) ≡ true
      → Follows kernel a done (must c message ∷ plan) (thrown message, done ++ (c ∷ []))
  refused :
      (done : List SysCall) (message : List ℕ) (plan : List Planned)
      → Follows kernel a done (refuse message ∷ plan) (thrown message, done)

pub checked :
    (kernel : Kernel) {A : Type 0} (a : A) (done : List SysCall) (c : SysCall) (message : List ℕ)
    (plan : List Planned) (end : Outcome A × List SysCall)
    → (is_negative (kernel done c) ≡ true → end ≡ (thrown message, done ++ (c ∷ [])))
    → (is_negative (kernel done c) ≡ false → Follows kernel a (done ++ (c ∷ [])) plan end)
    → Follows kernel a done (must c message ∷ plan) end
checked kernel a done c message plan end throws goes_on =
    elim (Bool-cases (is_negative (kernel done c))) [
      | inl bad ↦ rw (throws bad) (failed done c message plan bad)
      | inr good ↦ answered done c message plan end good (goes_on good)
    ]

-- The kernel signals an error by -1.
abbrev pub SignalsByMinusOne : Kernel → Type 0
SignalsByMinusOne kernel =
    (done : List SysCall) (c : SysCall) → is_minus_one (kernel done c) ≡ is_negative (kernel done c)

-- The calls of a plan that is followed to its end.
abbrev pub calls : List Planned → List SysCall
calls [] = []
calls (must c message ∷ plan) = c ∷ calls plan
calls (may c ∷ plan) = c ∷ calls plan
calls (refuse message ∷ plan) = calls plan

-- One plan after another.
pub Follows-append :
    (kernel : Kernel) {A B : Type 0} (a : A) (b : B) (f : A → Sys B) (done : List SysCall)
    (plan plan' : List Planned) (end : Outcome A × List SysCall)
    → Follows kernel a done plan end
    → Follows kernel b (done ++ calls plan) plan' (f a kernel (done ++ calls plan))
    → Follows kernel b done (plan ++ plan') (proceed f kernel end)
Follows-append kernel a b f done [] plan' end (finished _) h =
    subst (λ log. Follows kernel b log plan' (f a kernel log)) (append-nil done) h
Follows-append kernel a b f done (may c ∷ plan) plan' end (unchecked _ _ _ _ g) h =
    unchecked done c (plan ++ plan') (proceed f kernel end) (
      Follows-append kernel a b f (done ++ (c ∷ [])) plan plan' end g (
        subst (λ log. Follows kernel b log plan' (f a kernel log))
          (sym (append_assoc done (c ∷ []) (calls plan))) h))
Follows-append kernel a b f done (must c m ∷ plan) plan' end (answered _ _ _ _ _ good g) h =
    answered done c m (plan ++ plan') (proceed f kernel end) good (
      Follows-append kernel a b f (done ++ (c ∷ [])) plan plan' end g (
        subst (λ log. Follows kernel b log plan' (f a kernel log))
          (sym (append_assoc done (c ∷ []) (calls plan))) h))
Follows-append kernel a b f done (must c m ∷ plan) plan' end (failed _ _ _ _ bad) h =
    failed done c m (plan ++ plan') bad
Follows-append kernel a b f done (refuse m ∷ plan) plan' end (refused _ _ _) h =
    refused done m (plan ++ plan')
