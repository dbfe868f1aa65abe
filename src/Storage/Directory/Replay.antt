-- ===== src/Storage/Directory/Replay.antt =====
-- The projection of a file depends on its own events alone, and replay may be cut into groups
-- anywhere.
use wrela.Prelude.{
  ℕ, ◌≡◌, ◌≢◌, refl, sym, ap, Bool, true, false, List, [], ◌∷◌, ◌++◌, Option, none, some, ◌==◌,
  if◌then◌else◌, All, arith,
}
use wrela.Storage.Directory.{
  CommittedGroup, Event, FileState, Files, DirectoryProjection, lookup, insert, or_no_file,
  apply_event, apply_events, apply_group,
}

lookup-insert :
    (file other : ℕ) (state : FileState) (files : Files)
    → lookup other (insert file state files)
      ≡ (if file == other then some state else lookup other files)
unfolding lookup insert
lookup-insert file other state [] = refl
lookup-insert file other state (entry ∷ files) =
    ground (arith, lookup-insert file other state files)

-- What an event makes of the file that it names, by the kind of the event: created, renamed,
-- rewritten, deleted, or none of these.
abbrev pub file_step : Event → Option FileState → Option FileState
file_step e o =
    let s = or_no_file o in
    if e.type_id == 1001
    then some (record {
      current_blob_ref = e.blob_ref;
      name_ref = e.name_ref;
      parent_id = e.parent_id;
      deleted = false;
      stream_sequence = e.stream_sequence;
    })
    else if e.type_id == 1002
    then some (record s {
      parent_id = e.parent_id;
      name_ref = e.name_ref;
      stream_sequence = e.stream_sequence;
    })
    else if e.type_id == 1003
    then some (record s { current_blob_ref = e.blob_ref; stream_sequence = e.stream_sequence })
    else if e.type_id == 1004
    then some (record s { deleted = true; stream_sequence = e.stream_sequence })
    else o

-- The events of one file, in order.
unfoldable pub events_of : ℕ → List Event → List Event
events_of file [] = []
events_of file (e ∷ es) =
    let rest = events_of file es in if e.file_id == file then e ∷ rest else rest

unfoldable pub file_history : Option FileState → List Event → Option FileState
file_history o [] = o
file_history o (e ∷ es) = file_history (file_step e o) es

lookup-apply_event :
    (file : ℕ) (m : Files) (e : Event)
    → lookup file (apply_event m e)
      ≡ (if e.file_id == file then file_step e (lookup file m) else lookup file m)
unfolding apply_event
lookup-apply_event file m e = grind (arith, lookup-insert)

lookup-apply_events :
    (file : ℕ) (es : List Event) (m : Files)
    → lookup file (apply_events m es) ≡ file_history (lookup file m) (events_of file es)
unfolding apply_events events_of file_history
lookup-apply_events file [] m = refl
lookup-apply_events file (e ∷ es) m =
    ground (arith, lookup-apply_event file m e, lookup-apply_events file es (apply_event m e))

-- After any group the state of a file is what its own events, in their order, make of the state
-- before; the events of other files do not touch it.
pub lookup-apply_group :
    (p : DirectoryProjection) (g : CommittedGroup) (es : List Event) (file : ℕ)
    → lookup file (apply_group p g es).files
      ≡ file_history (lookup file p.files) (events_of file es)
unfolding apply_group
lookup-apply_group p g es file = lookup-apply_events file es p.files

apply_events-append :
    (m : Files) (es fs : List Event)
    → apply_events m (es ++ fs) ≡ apply_events (apply_events m es) fs
unfolding apply_events
apply_events-append m [] fs = refl
apply_events-append m (e ∷ es) fs = apply_events-append (apply_event m e) es fs

-- Two groups in a row leave what one group of all their events leaves, with the watermark of the
-- later one.
pub apply_group-append :
    (p : DirectoryProjection) (g h : CommittedGroup) (es fs : List Event)
    → apply_group (apply_group p g es) h fs ≡ apply_group p h (es ++ fs)
unfolding apply_group
apply_group-append p g h es fs =
    ap (λ m. record p { files = m; watermark = h.last_event_id })
      (sym (apply_events-append p.files es fs))

abbrev pub is_deleted : Option FileState → Bool
is_deleted none = false
is_deleted (some s) = s.deleted

file_history-deleted :
    (es : List Event) (o : Option FileState)
    → All (λ e. e.type_id ≢ 1001) es
    → is_deleted o ≡ true
    → is_deleted (file_history o es) ≡ true
unfolding file_history
file_history-deleted [] o h d = d
file_history-deleted (e ∷ es) o h d =
    file_history-deleted es (file_step e o) h.1 (ground (arith, h.0))

-- A deleted file stays deleted through any group that does not create it anew.
pub apply_group-deleted :
    (p : DirectoryProjection) (g : CommittedGroup) (es : List Event) (file : ℕ)
    → is_deleted (lookup file p.files) ≡ true
    → All (λ e. e.type_id ≢ 1001) (events_of file es)
    → is_deleted (lookup file (apply_group p g es).files) ≡ true
apply_group-deleted p g es file d h =
    rw (lookup-apply_group p g es file)
      (file_history-deleted (events_of file es) (lookup file p.files) h d)
