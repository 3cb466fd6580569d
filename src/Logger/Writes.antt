-- ===== src/Logger/Writes.antt =====
-- The calls that write to a log file of src/cLogger.cpp, and the journal.
use pquery.Prelude.{
  ℕ, ◌++◌, ◌≡◌, refl, ap, ◌∙◌, Option, none, some, if◌then◌else◌, Bytes, codes, ℤ, pos, equal_self,
  lookup, assign, lookup-assign,
}
use pquery.Logger.Stream.{Files, Stream, put, put_in, padded, append, content_of}
use pquery.Logger.Operations.{
  LogState, returned, threw, add_separation, add_record_to_log, insert, written_to, throw_if_failed,
}
use pquery.Logger.Calls.{IsReady}
use pquery.Logger.Journal.{
  Journal, written_on, refused_on, add, target_of, journal, StandsFor, Agrees,
}

pub lookup-assign_self :
    (path content : Bytes) (files : Files) → lookup path (assign path content files) ≡ some content
lookup-assign_self path content files = rw (lookup-assign path path content files, equal_self path)

pub lookup-append :
    (path text : Bytes) (files : Files)
    → content_of (lookup path (append path text files)) ≡ content_of (lookup path files) ++ text
unfolding append
lookup-append path text files =
    rw (lookup-assign_self path (content_of (lookup path files) ++ text) files)

written_at-StandsFor :
    (path : Option Bytes) (text : Bytes) (s : LogState)
    → s.logger.log_file.path ≡ path
    → IsReady s.logger.log_file
    → StandsFor (written_to text s) (add text (journal s))
unfolding written_to put put_in add
written_at-StandsFor none text s e h = rw (h, e) (refl, refl)
written_at-StandsFor (some path) text s e h =
    let stream = s.logger.log_file in
    rw (h, e)
      (
        refl,
        ap
            (λ content. record {
              target = some (path, content);
              pending = s.logger.pending_log_file_path;
              fill = stream.fill;
              width = pos 0;
            })
            (lookup-append path (padded stream.width stream.fill text) s.files),
      )

pub written_to-StandsFor :
    (text : Bytes) (s : LogState)
    → IsReady s.logger.log_file
    → StandsFor (written_to text s) (add text (journal s))
written_to-StandsFor text s h = written_at-StandsFor s.logger.log_file.path text s refl h

refused_on-target_of :
    (path : Option Bytes) (files : Files) (stream : Stream)
    → stream.path ≡ path
    → IsReady stream
    → (if stream.failed then threw else returned) ≡ refused_on (target_of path files)
refused_on-target_of none files stream e h = rw (h, e) refl
refused_on-target_of (some path) files stream e h = rw (h, e) refl

refused_on-written_on :
    (text : Bytes) (target : Option (Bytes × Bytes))
    → refused_on (written_on text target) ≡ refused_on target
refused_on-written_on text none = refl
refused_on-written_on text (some file) = refl

refused_on-add : (text : Bytes) (j : Journal) → refused_on (add text j).target ≡ refused_on j.target
unfolding add
refused_on-add text j = refused_on-written_on (padded j.width j.fill text) j.target

throw_if_failed-Agrees :
    (s : LogState) (j : Journal)
    → StandsFor s j
    → Agrees (throw_if_failed s) (refused_on j.target, j)
throw_if_failed-Agrees s j (h, e) = (
  refused_on-target_of _ s.files s.logger.log_file refl h ∙ ap (λ k. refused_on k.target) e,
  (h, e),
)

pub insert-Agrees :
    (text : Bytes) (s : LogState)
    → IsReady s.logger.log_file
    → Agrees (insert text s) (refused_on (journal s).target, add text (journal s))
unfolding insert
insert-Agrees text s h =
    let (ends, stands) =
      throw_if_failed-Agrees (written_to text s) (add text (journal s))
        (written_to-StandsFor text s h) in
    (ends ∙ refused_on-add text (journal s), stands)

pub record_added-Agrees :
    (message : Bytes) (s : LogState)
    → IsReady s.logger.log_file
    → Agrees
        (add_record_to_log message s)
        (refused_on (journal s).target, add (codes "\n") (add message (journal s)))
unfolding add_record_to_log insert
record_added-Agrees message s h =
    let (ready, first) = written_to-StandsFor message s h in
    let (ends, (again, second)) = insert-Agrees (codes "\n") (written_to message s) ready in
    (
      ends ∙ ap (λ j. refused_on j.target) first ∙ refused_on-add message (journal s),
      (again, second ∙ ap (add (codes "\n")) first),
    )

pub separation-StandsFor :
    (what : ℕ) (lenght : ℤ) (s : LogState)
    → IsReady s.logger.log_file
    → StandsFor
        (add_separation what lenght s)
        (add (codes "\n") (record (journal s) { fill = what; width = lenght }))
unfolding add_separation
separation-StandsFor what lenght s h =
    let stream = record s.logger.log_file { fill = what; width = lenght } in
    written_to-StandsFor (codes "\n") (record s { logger = record s.logger { log_file = stream } })
      h
