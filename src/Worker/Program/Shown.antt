-- ===== src/Worker/Program/Shown.antt =====
-- main.go: which workers the API is given.
use ssh_worker.Prelude.{
  ℕ, ◌==◌, Bool, false, Option, none, some, List, [], ◌∷◌, All, All-append, ◌≡◌, refl, arith,
  if_case,
}
use ssh_worker.Errs.{Error, is_canceled}
use ssh_worker.Worker.Program.{
  Workers, add_ref, without, Step, returned, api_made, Reach, here, next,
}

-- A reference that is not to a worker that runs.
abbrev pub IsOver : (ℕ → Bool) → Option ℕ → Type 0
IsOver running none = Unit
IsOver running (some i) = running i ≡ false

abbrev pub AllOver : (ℕ → Bool) → Option (List (Option ℕ)) → Type 0
AllOver running none = Unit
AllOver running (some refs) = All (IsOver running) refs

pub record HidesRunning (s : Workers) : Type 0 where
  pub refs : All (IsOver s.running) s.refs
  pub shown : AllOver s.running s.shown

IsOver-without :
    (i : ℕ) (running : ℕ → Bool) (r : Option ℕ) → IsOver running r → IsOver (without i running) r
IsOver-without i running none h = tt
IsOver-without i running (some j) h = if_case (λ b. b ≡ false) (i == j) refl h

All-without :
    (i : ℕ) (running : ℕ → Bool) (refs : List (Option ℕ))
    → All (IsOver running) refs
    → All (IsOver (without i running)) refs
All-without i running [] a = tt
All-without i running (r ∷ rs) a = (IsOver-without i running r a.0, All-without i running rs a.1)

AllOver-without :
    (i : ℕ) (running : ℕ → Bool) (refs : Option (List (Option ℕ)))
    → AllOver running refs
    → AllOver (without i running) refs
AllOver-without i running none a = tt
AllOver-without i running (some refs) a = All-without i running refs a

without_self : (i : ℕ) (running : ℕ → Bool) → without i running i ≡ false
without_self i running = ground arith

add_ref-IsOver :
    (i : ℕ) (e : Option Error) (running : ℕ → Bool) (refs : List (Option ℕ))
    → running i ≡ false
    → All (IsOver running) refs
    → All (IsOver running) (add_ref i e refs)
unfolding add_ref
add_ref-IsOver i none running refs h a = All-append (IsOver running) refs (some i ∷ []) a (h, tt)
add_ref-IsOver i (some e) running refs h a =
    if_case (All (IsOver running)) (is_canceled e)
      (All-append (IsOver running) refs (none ∷ []) a (tt, tt)) a

Step-HidesRunning : {s t : Workers} → Step s t → HidesRunning s → HidesRunning t
Step-HidesRunning (returned s i e h) v = record {
  refs =
      add_ref-IsOver i e (without i s.running) s.refs (without_self i s.running)
        (All-without i s.running s.refs v.refs);
  shown = AllOver-without i s.running s.shown v.shown;
}
Step-HidesRunning (api_made s h) v = record { refs = v.refs; shown = v.refs }

-- Whenever the API is made, and whichever workers have returned before and after, none of the
-- references that it was given is to a worker that runs.
pub Reach-HidesRunning : {s t : Workers} → HidesRunning s → Reach s t → HidesRunning t
Reach-HidesRunning v here = v
Reach-HidesRunning v (next r x) = Step-HidesRunning x (Reach-HidesRunning v r)
