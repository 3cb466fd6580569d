-- ===== src/Logger/Refines.antt =====
-- All calls of a `Logger` of src/cLogger.cpp, and the journal.
use pquery.Prelude.{
  ℕ, ℤ, subst, Bool, true, false, not, List, [], ◌∷◌, ◌≡◌, refl, sym, ap, ◌∙◌, inl, inr, Option,
  none, some, if◌then◌else◌, Bytes, is_empty, Bool-cases,
}
use pquery.Logger.Stream.{Files, Stream, is_open, close, open_file, content_of}
use pquery.Logger.Operations.{
  LogState, Ended, returned, threw, target_path, init_log_file, flush_log, closed_first,
}
use pquery.Logger.Calls.{
  Call, separation, path_set, initialised, precision_set, flushed, record_added, partial_added,
  inserted, call, run_calls, IsReady,
}
use pquery.Logger.Journal.{
  Journal, new_target, note, note_all, target_of, journal, StandsFor, Agrees,
}
use pquery.Logger.Writes.{
  lookup-assign_self, record_added-Agrees, separation-StandsFor, insert-Agrees,
}

flush_result :
    (open_now failed : Bool) (s : LogState)
    → failed ≡ not open_now
    → ◌≡◌ {A = Ended × LogState}
        (if not open_now then (returned, s) else (if failed then threw else returned, s))
        (returned, s)
flush_result true failed s h = rw h refl
flush_result false failed s h = refl

-- Nothing is thrown from a logger that is ready.
pub flush_log_ready : (s : LogState) → IsReady s.logger.log_file → flush_log s ≡ (returned, s)
unfolding flush_log
flush_log_ready s h = flush_result (is_open s.logger.log_file) s.logger.log_file.failed s h

flush-Agrees :
    (s : LogState) → IsReady s.logger.log_file → Agrees (flush_log s) (returned, journal s)
flush-Agrees s h =
    subst (λ x. Agrees x (returned, journal s)) (sym (flush_log_ready s h)) (refl, (h, refl))

pub closed_first-path :
    (path : Option Bytes) (stream : Stream) → stream.path ≡ path → (closed_first stream).path ≡ none
unfolding closed_first close
closed_first-path none stream e = rw e refl
closed_first-path (some path) stream e = rw e refl

-- A stream that was closed is opened, or is not usable.
open_file_ready :
    (can_open : Bytes → Bool) (path : Bytes) (stream : Stream) (files : Files)
    → stream.path ≡ none
    → let after = open_file can_open path stream files in
      IsReady after.0 × (target_of after.0.path after.1 ≡ new_target can_open path)
unfolding open_file
open_file_ready can_open path stream files e = elim (Bool-cases (can_open path)) [
  | inl o ↦
      rw o
        (refl, ap (λ content. some (path, content_of content)) (lookup-assign_self path [] files))
  | inr o ↦ rw (o, e) (refl, refl)
]

pub if_not : {A : Type 0} (b : Bool) (x y : A) → (if not b then x else y) ≡ (if b then y else x)
if_not true x y = refl
if_not false x y = refl

open_file_result :
    (can_open : Bytes → Bool) (path : Bytes) (stream : Stream) (files : Files)
    → stream.path ≡ none
    → is_open (open_file can_open path stream files).0 ≡ can_open path
unfolding open_file
open_file_result can_open path stream files e = elim (Bool-cases (can_open path)) [
  | inl o ↦ rw o refl
  | inr o ↦ rw (o, e) refl
]

-- `initLogFile` returns true exactly if its target can be opened.
pub init_log_file_result :
    (can_open : Bytes → Bool) (path : Bytes) (s : LogState)
    → (init_log_file can_open path s).0 ≡ can_open (target_path path s.logger)
unfolding init_log_file
init_log_file_result can_open path s =
    open_file_result can_open (target_path path s.logger) (closed_first s.logger.log_file) s.files
      (closed_first-path s.logger.log_file.path s.logger.log_file refl)

open_file_format :
    (can_open : Bytes → Bool) (path : Bytes) (stream : Stream) (files : Files)
    → ((open_file can_open path stream files).0.fill ≡ stream.fill)
      × ((open_file can_open path stream files).0.width ≡ stream.width)
unfolding open_file
open_file_format can_open path stream files = elim (Bool-cases (can_open path)) [
  | inl o ↦ rw o (refl, refl)
  | inr o ↦ rw o (refl, refl)
]

closed_first_format :
    (b : Bool) (stream : Stream)
    → ((if b then close stream else stream).fill ≡ stream.fill)
      × ((if b then close stream else stream).width ≡ stream.width)
unfolding close
closed_first_format true stream = (refl, refl)
closed_first_format false stream = (refl, refl)

journal_of :
    {target other : Option (Bytes × Bytes)} {fill fill' : ℕ} {width width' : ℤ}
    → target ≡ other
    → fill ≡ fill'
    → width ≡ width'
    → ◌≡◌ {A = Journal}
        (record { target = target; pending = []; fill = fill; width = width })
        (record { target = other; pending = []; fill = fill'; width = width' })
journal_of e f w = cc

pub init-StandsFor :
    (can_open : Bytes → Bool) (path : Bytes) (s : LogState)
    → StandsFor (init_log_file can_open path s).1 (note can_open (initialised path) (journal s)).1
unfolding init_log_file note closed_first
init-StandsFor can_open path s =
    let stream = s.logger.log_file in
    let chosen = target_path path s.logger in
    let (ready, target) =
      open_file_ready can_open chosen (closed_first stream) s.files
        (closed_first-path stream.path stream refl) in
    let (fill, width) = open_file_format can_open chosen (closed_first stream) s.files in
    let (same_fill, same_width) = closed_first_format (is_open stream) stream in
    let pending = s.logger.pending_log_file_path in
    (
      ready,
      journal_of (target ∙ ap (new_target can_open) (if_not (is_empty pending) pending path))
          (fill ∙ same_fill) (width ∙ same_width),
    )

pub call-Agrees :
    (can_open : Bytes → Bool) (c : Call) (s : LogState)
    → IsReady s.logger.log_file
    → Agrees (call can_open c s) (note can_open c (journal s))
unfolding call note
call-Agrees can_open (separation what lenght) s h = (refl, separation-StandsFor what lenght s h)
call-Agrees can_open (path_set path) s h = (refl, (h, refl))
call-Agrees can_open (initialised path) s h = (refl, init-StandsFor can_open path s)
call-Agrees can_open (precision_set n) s h = (refl, (h, refl))
call-Agrees can_open flushed s h = flush-Agrees s h
call-Agrees can_open (record_added message) s h = record_added-Agrees message s h
call-Agrees can_open (partial_added message) s h = insert-Agrees message s h
call-Agrees can_open (inserted rhs) s h = insert-Agrees rhs s h

-- From a logger whose stream is usable exactly if it is open, any sequence of calls behaves as an
-- abstract journal of one path, one text and the padding of the next record: the same calls throw,
-- the file that is open has the text that was written since it was opened, the same path waits for
-- the next file, the same padding for the next record, and the stream is usable exactly if it is
-- open.
pub run_calls-note_all :
    (can_open : Bytes → Bool) (calls : List Call) (s : LogState)
    → IsReady s.logger.log_file
    → let after = run_calls can_open calls s in
      let expected = note_all can_open calls (journal s) in
      (after.0 ≡ expected.0) × (journal after.1 ≡ expected.1) × IsReady after.1.logger.log_file
unfolding run_calls note_all
run_calls-note_all can_open [] s h = (refl, refl, h)
run_calls-note_all can_open (c ∷ calls) s h =
    let (e, (ready, j)) = call-Agrees can_open c s h in
    let (es, k, r) = run_calls-note_all can_open calls (call can_open c s).1 ready in
    let noted = note can_open c (journal s) in
    (
      ap (◌∷◌ (call can_open c s).0) (es ∙ ap (λ j. (note_all can_open calls j).0) j)
          ∙ ap (λ x. x ∷ (note_all can_open calls noted.1).0) e,
      k ∙ ap (λ j. (note_all can_open calls j).1) j,
      r,
    )
