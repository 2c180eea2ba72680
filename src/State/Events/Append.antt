-- ===== src/State/Events/Append.antt =====
-- event-store.ts: reading the log behind an append.
use omp_lazy.Prelude.{
  ℕ, suc, ◌+◌, ◌≤◌, ◌≡◌, refl, sym, true, List, [], ◌∷◌, ◌++◌, some, arith, All, all, length,
  get_last?, map,
}
use omp_lazy.Prelude.Result.{ok}
use omp_lazy.State.Domain.{StateEvent}
use omp_lazy.State.Texts.{Texts, trim_event}
use omp_lazy.State.Codec.{event_schema}
use omp_lazy.State.Events.{
  insert_event, sort_events, check_sequence, checked_log, read_all, highest,
}

abbrev Upto : ℕ → StateEvent → Type 0
Upto n e = e.sequence ≤ n

insert_event-append :
    (x e : StateEvent) (ys : List StateEvent)
    → x.sequence ≤ e.sequence
    → insert_event x (ys ++ e ∷ []) ≡ insert_event x ys ++ e ∷ []
unfolding insert_event
insert_event-append x e [] h = ground arith
insert_event-append x e (y ∷ ys) h = ground (arith, insert_event-append x e ys)

All-insert_event :
    (n : ℕ) (x : StateEvent) (ys : List StateEvent)
    → All (Upto n) (insert_event x ys)
    → (x.sequence ≤ n) × All (Upto n) ys
unfolding insert_event
All-insert_event n x [] h = h
All-insert_event n x (y ∷ ys) h = ground (arith, All-insert_event n x ys)

All-sort_events : (n : ℕ) (xs : List StateEvent) → All (Upto n) (sort_events xs) → All (Upto n) xs
unfolding sort_events
All-sort_events n [] h = h
All-sort_events n (x ∷ xs) h =
    let (hx, hs) = All-insert_event n x (sort_events xs) h in (hx, All-sort_events n xs hs)

sort_events-append :
    (e : StateEvent) (xs : List StateEvent)
    → All (Upto e.sequence) xs
    → sort_events (xs ++ e ∷ []) ≡ sort_events xs ++ e ∷ []
unfolding sort_events
sort_events-append e [] h = unfold insert_event in refl
sort_events-append e (x ∷ xs) (hx, hs) =
    rw (sort_events-append e xs hs) (insert_event-append x e (sort_events xs) hx)

check_sequence-append :
    (n : ℕ) (xs : List StateEvent) (e : StateEvent)
    → check_sequence n xs ≡ true
    → e.sequence ≡ suc (n + length xs)
    → check_sequence n (xs ++ e ∷ []) ≡ true
unfolding check_sequence
check_sequence-append n [] e h s = ground arith
check_sequence-append n (x ∷ xs) e h s = ground (arith, check_sequence-append (suc n) xs e)

check_sequence-All :
    (n m : ℕ) (xs : List StateEvent)
    → check_sequence n xs ≡ true
    → n + length xs ≤ m
    → All (Upto m) xs
unfolding check_sequence
check_sequence-All n m [] h k = tt
check_sequence-All n m (x ∷ xs) h k =
    (ground arith, check_sequence-All (suc n) m xs (ground arith) (omega arith))

last_sequence :
    (n : ℕ) (x : StateEvent) (xs : List StateEvent)
    → check_sequence n (x ∷ xs) ≡ true
    → highest (x ∷ xs) ≡ n + length (x ∷ xs)
unfolding check_sequence
last_sequence n x [] h = ground arith
last_sequence n x (y ∷ ys) h = ground (arith, last_sequence (suc n) y ys)

highest-eq-length : (xs : List StateEvent) → check_sequence 0 xs ≡ true → highest xs ≡ length xs
highest-eq-length [] h = refl
highest-eq-length (x ∷ xs) h = omega (arith, last_sequence 0 x xs h)

module _ (texts : Texts) where
  all-append :
      (xs : List StateEvent) (e : StateEvent)
      → all (event_schema texts) xs ≡ true
      → event_schema texts e ≡ true
      → all (event_schema texts) (xs ++ e ∷ []) ≡ true
  all-append [] e h k = ground arith
  all-append (x ∷ xs) e h k = ground (arith, all-append xs e)

  -- A readable log in which `events` are the sorted files.
  pub record IsLog (files events : List StateEvent) : Type 0 where
    pub valid : all (event_schema texts) files ≡ true
    pub gapless : check_sequence 0 (sort_events files) ≡ true
    pub sorted : events ≡ sort_events files

  checked_log-IsLog :
      (files events : List StateEvent) → checked_log texts files ≡ ok events → IsLog files events
  unfolding checked_log
  checked_log-IsLog files events r = ground arith

  checked_log_of_IsLog :
      (files events : List StateEvent) → IsLog files events → checked_log texts files ≡ ok events
  unfolding checked_log
  checked_log_of_IsLog files events l = ground arith

  IsLog-append :
      (files : List StateEvent) (e : StateEvent)
      → IsLog files (sort_events files)
      → e.sequence ≡ suc (highest (sort_events files))
      → event_schema texts e ≡ true
      → IsLog (files ++ e ∷ []) (sort_events files ++ e ∷ [])
  IsLog-append files e l s v =
      let top = highest-eq-length (sort_events files) l.gapless in
      let below =
        All-sort_events e.sequence files
          (check_sequence-All 0 e.sequence (sort_events files) l.gapless (omega arith)) in
      let joined = sort_events-append e files below in
      record {
        valid = all-append files e l.valid v;
        gapless = rw joined (check_sequence-append 0 (sort_events files) e l.gapless (omega arith));
        sorted = sym joined;
      }

  checked_log-append :
      (files events : List StateEvent) (e : StateEvent)
      → checked_log texts files ≡ ok events
      → e.sequence ≡ suc (highest events)
      → event_schema texts e ≡ true
      → checked_log texts (files ++ e ∷ []) ≡ ok (events ++ e ∷ [])
  checked_log-append files events e r s v =
      let l = checked_log-IsLog files events r in
      let plain = IsLog-append files e (rw l.sorted at l) (rw l.sorted at s) v in
      rw l.sorted (checked_log_of_IsLog (files ++ e ∷ []) (sort_events files ++ e ∷ []) plain)

  trim_all-append :
      (files : List StateEvent) (e : StateEvent)
      → map (trim_event texts) (files ++ e ∷ [])
        ≡ map (trim_event texts) files ++ trim_event texts e ∷ []
  trim_all-append [] e = refl
  trim_all-append (x ∷ xs) e = rw (trim_all-append xs e)

  -- If the files read as `events`, and an event that its schema accepts once its texts are trimmed
  -- carries the next sequence, then with its file they read as `events` followed by the trimmed
  -- event, whatever the files' order.
  pub read_all-append :
      (files events : List StateEvent) (e : StateEvent)
      → read_all texts files ≡ ok events
      → e.sequence ≡ suc (highest events)
      → event_schema texts (trim_event texts e) ≡ true
      → read_all texts (files ++ e ∷ []) ≡ ok (events ++ trim_event texts e ∷ [])
  unfolding read_all
  read_all-append files events e r s v =
      rw (trim_all-append files e)
        (checked_log-append (map (trim_event texts) files) events (trim_event texts e) r s v)

pub get_last?-append : (xs : List StateEvent) (e : StateEvent) → get_last? (xs ++ e ∷ []) ≡ some e
get_last?-append [] e = refl
get_last?-append (x ∷ xs) e = rw (get_last?-append xs e)
