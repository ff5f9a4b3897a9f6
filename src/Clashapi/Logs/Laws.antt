-- ===== src/Clashapi/Logs/Laws.antt =====
-- clashapi/logs.go: which messages reach a dashboard.
use ssh_worker.Prelude.{
  ℕ, ◌+◌, ◌-◌, if◌then◌else◌, length-append, arith, ◌<◌, ltb, true, false, List, [], ◌∷◌, ◌++◌,
  length, ◌≡◌, refl, sym, ap, subst, ◌∙◌, inl, inr, Bool-cases, append_assoc, append-nil, lt→ltb,
}
use ssh_worker.Clashapi.Logs.{
  LogMessage, Channel, room, offer, Dashboard, Event, published, receives, take_first, step, run,
}

-- What was published while the events happened.
abbrev pub all_published : List Event → List LogMessage
all_published [] = []
all_published (published m ∷ es) = m ∷ all_published es
all_published (receives ∷ es) = all_published es

-- What a dashboard has taken and what waits for it.
abbrev pub got : Dashboard → List LogMessage
got d = d.taken ++ d.channel.messages

got-take :
    (ch : Channel) (ms taken : List LogMessage)
    → ch.messages ≡ ms
    → got (take_first ch ms taken) ≡ taken ++ ms
got-take ch [] taken e = rw e refl
got-take ch (m ∷ ms) taken e = append_assoc taken (m ∷ []) ms

got-receives : (d : Dashboard) → got (step receives d) ≡ got d
unfolding step
got-receives d = got-take d.channel d.channel.messages d.taken refl

abbrev HasRoom : Dashboard → Type 0
HasRoom d = ltb (length d.channel.messages) room ≡ true

got-published :
    (m : LogMessage) (d : Dashboard) → HasRoom d → got (step (published m) d) ≡ got d ++ m ∷ []
unfolding step offer
got-published m d h = rw h (sym (append_assoc d.taken d.channel.messages (m ∷ [])))

got-dropped :
    (m : LogMessage) (d : Dashboard)
    → ltb (length d.channel.messages) room ≡ false
    → step (published m) d ≡ d
unfolding step offer
got-dropped m d h = rw h refl

-- The messages that are published while fewer than 64 wait, where `n` wait at first.
abbrev pub accepted : ℕ → List Event → List LogMessage
accepted n [] = []
accepted n (receives ∷ es) = accepted (n - 1) es
accepted n (published m ∷ es) = if ltb n 64 then m ∷ accepted (n + 1) es else accepted n es

-- How many messages wait behind an event.
waiting_after : (e : Event) (d : Dashboard) → ℕ
waiting_after e d = length (step e d).channel.messages

take-waiting :
    (ch : Channel) (ms taken : List LogMessage)
    → ch.messages ≡ ms
    → length (take_first ch ms taken).channel.messages ≡ length ms - 1
take-waiting ch [] taken e = rw e refl
take-waiting ch (m ∷ ms) taken e = omega arith

receives-waiting : (d : Dashboard) → waiting_after receives d ≡ length d.channel.messages - 1
unfolding step waiting_after
receives-waiting d = take-waiting d.channel d.channel.messages d.taken refl

published-waiting :
    (m : LogMessage) (d : Dashboard)
    → HasRoom d
    → waiting_after (published m) d ≡ length d.channel.messages + 1
unfolding step offer waiting_after
published-waiting m d h = rw h (length-append {0} d.channel.messages (m ∷ []))

-- The dashboard gets, in the order of their publication and each once, exactly the messages that
-- are published while fewer than 64 wait for it: every other message is dropped, and no other is.
pub run_accepts :
    (es : List Event) (d : Dashboard)
    → got (run es d) ≡ got d ++ accepted (length d.channel.messages) es
unfolding run waiting_after
run_accepts [] d = sym (append-nil (got d))
run_accepts (receives ∷ es) d =
    run_accepts es (step receives d)
    ∙ ap (λ xs. xs ++ accepted (waiting_after receives d) es) (got-receives d)
    ∙ ap (λ n. got d ++ accepted n es) (receives-waiting d)
run_accepts (published m ∷ es) d = elim (Bool-cases (ltb (length d.channel.messages) room)) [
  | inl h ↦ rw h (
      run_accepts es (step (published m) d)
      ∙ ap (λ xs. xs ++ accepted (waiting_after (published m) d) es) (got-published m d h)
      ∙ append_assoc (got d) (m ∷ []) (accepted (waiting_after (published m) d) es)
      ∙ ap (λ n. got d ++ m ∷ accepted n es) (published-waiting m d h))
  | inr h ↦ rw h (
      subst (λ x. got (run es x) ≡ got d ++ accepted (length d.channel.messages) es)
        (sym (got-dropped m d h)) (run_accepts es d))
]

-- At every publication the channel has room.
abbrev pub KeepsUp : List Event → Dashboard → Type 0
KeepsUp [] d = Unit
KeepsUp (receives ∷ es) d = KeepsUp es (step receives d)
KeepsUp (published m ∷ es) d =
    (length d.channel.messages < room) × KeepsUp es (step (published m) d)

-- A dashboard that is never 64 messages behind when one is published gets every message, in order.
pub run-got :
    (es : List Event) (d : Dashboard) → KeepsUp es d → got (run es d) ≡ got d ++ all_published es
unfolding run
run-got [] d k = sym (append-nil (got d))
run-got (receives ∷ es) d k =
    run-got es (step receives d) k ∙ ap (λ xs. xs ++ all_published es) (got-receives d)
run-got (published m ∷ es) d k =
    run-got es (step (published m) d) k.1
    ∙ ap (λ xs. xs ++ all_published es) (got-published m d (lt→ltb _ _ k.0))
    ∙ append_assoc (got d) (m ∷ []) (all_published es)
