-- ===== src/Clashapi/Connections/Laws.antt =====
-- clashapi/connections.go: the totals, and what a snapshot shows.
use ssh_worker.Prelude.{
  ℕ, ◌+◌, true, Option, none, some, List, [], ◌∷◌, Text, text_eq, ◌≡◌, refl, inl, inr, arith,
  Bool-cases, Option-cases, subst, text_eq_sound,
}
use ssh_worker.Prelude.Maps.{
  lookup, delete, modify, IsUnique, lookup-delete, delete-absent, delete-IsUnique, modify-IsUnique,
}
use ssh_worker.Clashapi.Connections.{
  Metadata, Connection, ConnectionTracker, int64_add, notify, insert, open_connection, count_bytes,
  add_bytes, remove, close_connection, subscribe, unsubscribe, new_id,
}

-- The bytes of the connections that are open_connection, by the field that counts them.
module _ (field : Connection → ℕ) where
  abbrev pub bytes_of : Option Connection → ℕ
  bytes_of none = 0
  bytes_of (some c) = field c

  abbrev pub sum_bytes : List (Text × Connection) → ℕ
  sum_bytes [] = 0
  sum_bytes ((n, c) ∷ m) = field c + sum_bytes m

  sum_bytes-delete :
      (k : Text) (m : List (Text × Connection))
      → IsUnique m
      → sum_bytes (delete k m) + bytes_of (lookup k m) ≡ sum_bytes m
  sum_bytes-delete k [] u = refl
  sum_bytes-delete k ((n, c) ∷ m) u = elim (Bool-cases (text_eq n k)) [
    | inl e ↦ rw (e, delete-absent k m (absent n k m e u.0)) (omega arith)
    | inr e ↦ rw e (omega (arith, sum_bytes-delete k m u.1))
  ]
    where
      absent :
          (n k : Text) (m : List (Text × Connection))
          → text_eq n k ≡ true
          → lookup n m ≡ none
          → lookup k m ≡ none
      absent n k m e h = subst (λ x. lookup x m ≡ none) (text_eq_sound n k e) h

  sum_bytes-modify :
      (k : Text) (f : Connection → Connection) (n : ℕ) (m : List (Text × Connection))
      → ((c : Connection) → field (f c) ≡ int64_add (field c) n)
      → (c : Connection) → lookup k m ≡ some c
      → int64_add (sum_bytes (modify k f m)) 0 ≡ int64_add (sum_bytes m) n
  sum_bytes-modify k f n [] h c e = absurd (ground arith)
  sum_bytes-modify k f n ((j, d) ∷ m) h c e = elim (Bool-cases (text_eq j k)) [
    | inl s ↦ rw s (omega (arith, h d))
    | inr s ↦
        let rest : lookup k m ≡ some c = ground (arith, s, e) in
        rw s (omega (arith, sum_bytes-modify k f n m h c rest))
  ]

pub data Operation : Type 0 where
  opens : List ℕ → Metadata → List Text → Text → Operation
  counts : Text → ℕ → ℕ → Operation
  closes : Text → Operation
  subscribes unsubscribes : ℕ → Operation

unfoldable pub perform : Operation → ConnectionTracker → ConnectionTracker
perform (opens random meta chains now) t = (open_connection random meta chains now t).0
perform (counts id up down) t = add_bytes id up down t
perform (closes id) t = close_connection id t
perform (subscribes n) t = subscribe n t
perform (unsubscribes n) t = unsubscribe n t

unfoldable pub run : List Operation → ConnectionTracker → ConnectionTracker
unfolding perform
run [] t = t
run (o ∷ os) t = run os (perform o t)

-- The bytes of a connection that an operation takes off the list: one that is closed, or one whose
-- number is drawn again.
unfoldable pub taken : (Connection → ℕ) → Operation → ConnectionTracker → ℕ
taken field (opens random meta chains now) t = bytes_of field (lookup (new_id random) t.conns)
taken field (closes id) t = bytes_of field (lookup id t.conns)
taken field _ t = 0

unfoldable pub all_taken : (Connection → ℕ) → List Operation → ConnectionTracker → ℕ
unfolding taken perform
all_taken field [] t = 0
all_taken field (o ∷ os) t = taken field o t + all_taken field os (perform o t)

-- The totals are the bytes of the connections that are open and of those that were taken off.
pub record IsAccounted (up down : ℕ) (t : ConnectionTracker) : Type 0 where
  pub unique : IsUnique t.conns
  pub uploads : t.up_total ≡ int64_add (sum_bytes (λ c. c.upload) t.conns) up
  pub downloads : t.down_total ≡ int64_add (sum_bytes (λ c. c.download) t.conns) down

recount :
    (up up' down down' : ℕ) (t : ConnectionTracker)
    → up ≡ up'
    → down ≡ down'
    → IsAccounted up down t
    → IsAccounted up' down' t
recount up up' down down' t e f a = record {
  unique = a.unique;
  uploads = omega (arith, a.uploads, e);
  downloads = omega (arith, a.downloads, f);
}

add_bytes-IsAccounted :
    (id : Text) (n k up down : ℕ) (t : ConnectionTracker)
    → IsAccounted up down t
    → IsAccounted up down (add_bytes id n k t)
unfolding add_bytes
add_bytes-IsAccounted id n k up down t a = elim (Option-cases (lookup id t.conns)) [
  | inl h ↦ rw (h, add_bytes) a
  | inr (c, h) ↦
      rw (h, add_bytes)
        (record {
          unique = modify-IsUnique id (count_bytes n k) t.conns a.unique;
          uploads = omega (
            arith,
            a.uploads,
            sum_bytes-modify (λ c. c.upload) id (count_bytes n k) n t.conns (λ c. refl) c h,
          );
          downloads = omega (
            arith,
            a.downloads,
            sum_bytes-modify (λ c. c.download) id (count_bytes n k) k t.conns (λ c. refl) c h,
          );
        })
]

remove-IsAccounted :
    (id : Text) (up down : ℕ) (t : ConnectionTracker)
    → IsAccounted up down t
    → IsAccounted
        (bytes_of (λ c. c.upload) (lookup id t.conns) + up)
        (bytes_of (λ c. c.download) (lookup id t.conns) + down)
        (close_connection id t)
unfolding close_connection remove notify
remove-IsAccounted id up down t a = record {
  unique = delete-IsUnique id t.conns a.unique;
  uploads = omega (arith, a.uploads, sum_bytes-delete (λ c. c.upload) id t.conns a.unique);
  downloads = omega (arith, a.downloads, sum_bytes-delete (λ c. c.download) id t.conns a.unique);
}

perform-IsAccounted :
    (o : Operation) (up down : ℕ) (t : ConnectionTracker)
    → IsAccounted up down t
    → IsAccounted
        (taken (λ c. c.upload) o t + up)
        (taken (λ c. c.download) o t + down)
        (perform o t)
unfolding perform taken open_connection insert notify subscribe unsubscribe
perform-IsAccounted (opens random meta chains now) up down t a = record {
  unique =
      (lookup-delete (new_id random) t.conns, delete-IsUnique (new_id random) t.conns a.unique);
  uploads =
      omega (arith, a.uploads, sum_bytes-delete (λ c. c.upload) (new_id random) t.conns a.unique);
  downloads =
      omega
        (arith, a.downloads, sum_bytes-delete (λ c. c.download) (new_id random) t.conns a.unique);
}
perform-IsAccounted (counts id n k) up down t a =
    recount up _ down _ _ (omega arith) (omega arith) (add_bytes-IsAccounted id n k up down t a)
perform-IsAccounted (closes id) up down t a = remove-IsAccounted id up down t a
perform-IsAccounted (subscribes n) up down t a = record {
  unique = a.unique;
  uploads = omega (arith, a.uploads);
  downloads = omega (arith, a.downloads);
}
perform-IsAccounted (unsubscribes n) up down t a = record {
  unique = a.unique;
  uploads = omega (arith, a.uploads);
  downloads = omega (arith, a.downloads);
}

-- After any calls of the tracker, each id stands for one connection, and each total is the sum of
-- the bytes of the open connections and of those that were taken off the list, by Close or because
-- their id was drawn again, modulo 2^64: whatever calls of AddBytes came in between, no byte is
-- counted twice and none of an open connection is lost.
pub run-IsAccounted :
    (os : List Operation) (up down : ℕ) (t : ConnectionTracker)
    → IsAccounted up down t
    → IsAccounted
        (all_taken (λ c. c.upload) os t + up)
        (all_taken (λ c. c.download) os t + down)
        (run os t)
unfolding run all_taken
run-IsAccounted [] up down t a = recount up _ down _ t (omega arith) (omega arith) a
run-IsAccounted (o ∷ os) up down t a =
    recount _ _ _ _ _ (omega arith) (omega arith)
      (run-IsAccounted os _ _ (perform o t) (perform-IsAccounted o up down t a))
