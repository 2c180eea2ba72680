-- ===== src/State/Events.antt =====
-- src/state/event-store.ts: the directory of event files, one for each event. A file is the event
-- that it holds; its name repeats the event's sequence and identifier.
pub mod Append
use omp_lazy.Prelude.{
  ℕ, suc, true, ◌&&◌, Bool, List, [], ◌∷◌, ◌++◌, Option, none, some, ◌==◌, nat_eq, leb,
  if◌then◌else◌, get_last?, all, map,
}
use omp_lazy.Prelude.Result.{Result, ok, err}
use omp_lazy.State.Domain.{StateEvent}
use omp_lazy.State.Texts.{Texts, trim_event}
use omp_lazy.State.Codec.{event_schema}

pub data EventStoreError : Type 0 where
  malformed_event event_sequence_gap : EventStoreError

-- `events.sort((left, right) => left.sequence - right.sequence)`, a stable sort
unfoldable pub insert_event : StateEvent → List StateEvent → List StateEvent
insert_event e [] = e ∷ []
insert_event e (x ∷ xs) = if leb e.sequence x.sequence then e ∷ x ∷ xs else x ∷ insert_event e xs

unfoldable pub sort_events : List StateEvent → List StateEvent
sort_events [] = []
sort_events (e ∷ es) = insert_event e (sort_events es)

-- The loop that demands the sequences 1, 2, 3, …
unfoldable pub check_sequence : ℕ → List StateEvent → Bool
check_sequence n [] = true
check_sequence n (e ∷ es) = e.sequence == suc n && check_sequence (suc n) es

-- What `readAll` does with the trimmed events.
unfoldable pub checked_log : Texts → List StateEvent → Result EventStoreError (List StateEvent)
unfolding sort_events insert_event check_sequence
checked_log texts events =
    if all (event_schema texts) events
    then if check_sequence 0 (sort_events events)
      then ok (sort_events events)
      else err event_sequence_gap
    else err malformed_event

unfoldable pub read_all : Texts → List StateEvent → Result EventStoreError (List StateEvent)
unfolding checked_log
read_all texts files = checked_log texts (map (trim_event texts) files)

-- `events.at(-1)?.sequence ?? 0`
abbrev pub highest : List StateEvent → ℕ
highest events = elim (get_last? events) [ none ↦ 0 | some e ↦ e.sequence ]
