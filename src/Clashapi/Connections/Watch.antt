-- ===== src/Clashapi/Connections/Watch.antt =====
-- clashapi/handlers.go, serveConnectionsWS, beside the calls of the tracker that other goroutines
-- make, taken apart where they let go of a lock. The loop runs until its request ends or a write
-- fails; then nothing is shown any more. A ping changes nothing.
use ssh_worker.Prelude.{
  ℕ, suc, ◌+◌, ◌-◌, ◌*◌, ◌<◌, ◌≤◌, Bool, true, false, List, [], Text, ◌≡◌, refl, ◌∙◌, sym, ap, ◌⊎◌,
  inl, inr, arith, Bool-cases, Option-cases,
}
use ssh_worker.Prelude.Maps.{lookup, keys, keys-modify}
use ssh_worker.Clashapi.Connections.{
  Metadata, ConnectionTracker, count_bytes, insert, add_bytes, remove,
}

-- `notifying` counts the calls of Open and Close that have changed the tracker and have not called
-- notify, `pending` is the channel of the dashboard, `reading` says that its loop writes next, and
-- `shown` are the ids that it wrote last.
pub record Shared : Type 0 where
  pub tracker : ConnectionTracker
  pub notifying : ℕ
  pub pending : Bool
  pub reading : Bool
  pub shown : List Text

-- Behind Subscribe, the loop writes the first snapshot.
abbrev pub subscribed : ConnectionTracker → ℕ → Shared
subscribed t n = record { tracker = t; notifying = n; pending = false; reading = true; shown = [] }

abbrev pub ids : Shared → List Text
ids s = keys s.tracker.conns

pub data Step : Shared → Shared → Type 0 where
  inserted :
      (s : Shared) (id now : Text) (meta : Metadata) (chains : List Text)
      → Step s
          (record s { tracker = insert id meta chains now s.tracker; notifying = s.notifying + 1 })
  removed :
      (s : Shared) (id : Text)
      → Step s (record s { tracker = remove id s.tracker; notifying = s.notifying + 1 })
  counted :
      (s : Shared) (id : Text) (up down : ℕ)
      → Step s (record s { tracker = add_bytes id up down s.tracker })
  notified :
      (s : Shared)
      → 0 < s.notifying
      → Step s (record s { notifying = s.notifying - 1; pending = true })
  taken :
      (s : Shared)
      → s.pending ≡ true
      → s.reading ≡ false
      → Step s (record s { pending = false; reading = true })
  written : (s : Shared) → s.reading ≡ true → Step s (record s { reading = false; shown = ids s })

pub data Reach (s : Shared) : Shared → Type 0 where
  here : Reach s s
  next : {t u : Shared} → Reach s t → Step t u → Reach s u

-- The dashboard shows the connections that are open, or it will be told.
abbrev pub IsFresh : Shared → Type 0
IsFresh s = (0 < s.notifying) ⊎ ((s.pending ≡ true) ⊎ ((s.reading ≡ true) ⊎ (s.shown ≡ ids s)))

keys-add_bytes :
    (id : Text) (up down : ℕ) (t : ConnectionTracker)
    → keys (add_bytes id up down t).conns ≡ keys t.conns
unfolding add_bytes
keys-add_bytes id up down t = elim (Option-cases (lookup id t.conns)) [
  | inl h ↦ rw (h, add_bytes) refl
  | inr (c, h) ↦ rw (h, add_bytes) (keys-modify id (count_bytes up down) t.conns)
]

Step-IsFresh : {s t : Shared} → Step s t → IsFresh s → IsFresh t
Step-IsFresh (inserted s id now meta chains) f = inl (omega arith)
Step-IsFresh (removed s id) f = inl (omega arith)
Step-IsFresh (counted s id up down) (inl h) = inl h
Step-IsFresh (counted s id up down) (inr (inl h)) = inr (inl h)
Step-IsFresh (counted s id up down) (inr (inr (inl h))) = inr (inr (inl h))
Step-IsFresh (counted s id up down) (inr (inr (inr h))) =
    inr (inr (inr (h ∙ sym (keys-add_bytes id up down s.tracker))))
Step-IsFresh (notified s h) f = inr (inl refl)
Step-IsFresh (taken s p r) f = inr (inr (inl refl))
Step-IsFresh (written s r) f = inr (inr (inr refl))

-- No update is lost, however the calls of the tracker and the loop of the dashboard are interleaved
-- and though the channel has room for one signal only: where no call is on its way to notify, the
-- channel is empty and the loop does not write, the ids that were written last are those of the
-- connections that are open now.
pub Reach-IsFresh :
    (t : ConnectionTracker) (n : ℕ) (s : Shared) → Reach (subscribed t n) s → IsFresh s
Reach-IsFresh t n s here = inr (inr (inl refl))
Reach-IsFresh t n s (next r x) = Step-IsFresh x (Reach-IsFresh t n _ r)

-- What the goroutines do when nobody calls the tracker any more.
abbrev pub IsQuiet : {s t : Shared} → Step s t → Type 0
IsQuiet (notified s h) = Unit
IsQuiet (taken s p r) = Unit
IsQuiet (written s r) = Unit
IsQuiet _ = ⊥

-- So many steps of that kind, in any order.
pub data Settles : Shared → ℕ → Shared → Type 0 where
  done : (s : Shared) → Settles s 0 s
  followed :
      {s t u : Shared} {k : ℕ} (x : Step s t) → IsQuiet x → Settles t k u → Settles s (suc k) u

abbrev bit : Bool → ℕ
bit true = 1
bit false = 0

abbrev pub work : Shared → ℕ
work s = 3 * s.notifying + 2 * bit s.pending + bit s.reading

bit-true : (b : Bool) → b ≡ true → bit b ≡ 1
bit-true b h = ground arith

bit-false : (b : Bool) → b ≡ false → bit b ≡ 0
bit-false b h = ground arith

Step-work : {s t : Shared} (x : Step s t) → IsQuiet x → work t < work s
Step-work (inserted s id now meta chains) q = absurd q
Step-work (removed s id) q = absurd q
Step-work (counted s id up down) q = absurd q
Step-work (notified s h) q = omega (arith, h)
Step-work (taken s p r) q = omega (arith, bit-true s.pending p, bit-false s.reading r)
Step-work (written s r) q = omega (arith, bit-true s.reading r)

Step-tracker : {s t : Shared} (x : Step s t) → IsQuiet x → t.tracker ≡ s.tracker
Step-tracker (inserted s id now meta chains) q = absurd q
Step-tracker (removed s id) q = absurd q
Step-tracker (counted s id up down) q = absurd q
Step-tracker (notified s h) q = refl
Step-tracker (taken s p r) q = refl
Step-tracker (written s r) q = refl

pub Settles-work : {s t : Shared} {k : ℕ} → Settles s k t → k + work t ≤ work s
Settles-work (done s) = omega arith
Settles-work (followed x q r) = omega (arith, Step-work x q, Settles-work r)

Settles-tracker : {s t : Shared} {k : ℕ} → Settles s k t → t.tracker ≡ s.tracker
Settles-tracker (done s) = refl
Settles-tracker (followed x q r) = Settles-tracker r ∙ Step-tracker x q

Settles-IsFresh : {s t : Shared} {k : ℕ} → Settles s k t → IsFresh s → IsFresh t
Settles-IsFresh (done s) f = f
Settles-IsFresh (followed x q r) f = Settles-IsFresh r (Step-IsFresh x f)

abbrev pub IsStuck : Shared → Type 0
IsStuck s = (t : Shared) (x : Step s t) → ¬ IsQuiet x

IsStuck-shown : (s : Shared) → IsStuck s → IsFresh s → s.shown ≡ ids s
IsStuck-shown s stuck (inl h) = absurd (stuck _ (notified s h) tt)
IsStuck-shown s stuck (inr (inr (inr h))) = h
IsStuck-shown s stuck (inr (inr (inl h))) = absurd (stuck _ (written s h) tt)
IsStuck-shown s stuck (inr (inl h)) = elim (Bool-cases s.reading) [
  | inl r ↦ absurd (stuck _ (written s r) tt)
  | inr r ↦ absurd (stuck _ (taken s h r) tt)
]

-- Once nobody calls the tracker any more, the calls of notify that are under way and the loop of
-- the dashboard take finitely many steps, in whatever order, and when none of them can go on the
-- ids that were written last are those of the connections that are open.
pub Settles-shown :
    (t : ConnectionTracker) (n k : ℕ) (s u : Shared)
    → Reach (subscribed t n) s
    → Settles s k u
    → (k ≤ work s) × (IsStuck u → u.shown ≡ ids s)
Settles-shown t n k s u r x = (
  omega (arith, Settles-work x),
  λ stuck.
      IsStuck-shown u stuck (Settles-IsFresh x (Reach-IsFresh t n s r))
      ∙ ap (λ (c : ConnectionTracker). keys c.conns) (Settles-tracker x),
)
