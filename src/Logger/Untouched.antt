-- ===== src/Logger/Untouched.antt =====
-- The files that the calls of a `Logger` of src/cLogger.cpp leave alone.
use pquery.Prelude.{
  pos, All, subst, Bool, true, false, not, List, [], ◌∷◌, ◌≡◌, ◌≢◌, refl, sym, ap, ◌∙◌, inl, inr,
  Option, none, some, if◌then◌else◌, Bytes, codes, is_empty, Bool-cases, equal, equal_iff, lookup,
  assign, lookup-assign,
}
use pquery.Logger.Stream.{Files, Stream, is_open, open_file, padded, put, put_in, append}
use pquery.Logger.Operations.{
  LogState, closed_first, Ended, threw, init_log_file, returned, throw_if_failed, target_path,
  written_to,
}
use pquery.Logger.Refines.{closed_first-path}
use pquery.Logger.Texts.{IsText}
use pquery.Logger.Calls.{
  Call, separation, path_set, initialised, precision_set, flushed, record_added, partial_added,
  inserted, call, run_calls, and_then, sequence,
}

some_same : {path other : Bytes} → some path ≡ some other → path ≡ other
some_same h = cc

none_not_some : {other : Bytes} → none ≡ some other → ⊥
none_not_some h = cc

flush_same : (b : Bool) (s : LogState) → (if b then (returned, s) else throw_if_failed s).1 ≡ s
flush_same true s = refl
flush_same false s = refl

module _ (other : Bytes) where
  -- No call opens the file: neither at its own path nor at one that was set before.
  abbrev pub Avoids : List Call → Bytes → Type 0
  Avoids [] pending = Unit
  Avoids (path_set path ∷ calls) pending = Avoids calls path
  Avoids (initialised path ∷ calls) pending =
      ((if not (is_empty pending) then pending else path) ≢ other) × Avoids calls []
  Avoids (_ ∷ calls) pending = Avoids calls pending

  abbrev pub IsElsewhere : Stream → Type 0
  IsElsewhere stream = stream.path ≢ some other

  -- The file has its content, and the stream is not on it.
  abbrev Spares : Files → Stream × Files → Type 0
  Spares files after = IsElsewhere after.0 × (lookup other after.1 ≡ lookup other files)

  assign_elsewhere :
      (path content : Bytes) (files : Files)
      → path ≢ other
      → lookup other (assign path content files) ≡ lookup other files
  assign_elsewhere path content files h = elim (Bool-cases (equal path other)) [
    | inl e ↦ absurd (h ((equal_iff path other).0 e))
    | inr e ↦ rw (lookup-assign path other content files, e) refl
  ]

  put_in-Spares :
      (path : Option Bytes) (text : Bytes) (stream : Stream) (files : Files)
      → stream.path ≡ path
      → path ≢ some other
      → Spares files (put_in path text stream files)
  unfolding put_in append
  put_in-Spares none text stream files e h = (λ k. h (sym e ∙ k), refl)
  put_in-Spares (some path) text stream files e h =
      (λ k. h (sym e ∙ k), assign_elsewhere path _ files (λ k. h (ap some k)))

  Spares-if :
      (b : Bool) (files : Files) (x y : Stream × Files)
      → Spares files x
      → Spares files y
      → Spares files (if b then x else y)
  Spares-if true files x y h k = h
  Spares-if false files x y h k = k

  put-Spares :
      (text : Bytes) (stream : Stream) (files : Files)
      → IsElsewhere stream
      → Spares files (put text stream files)
  unfolding put
  put-Spares text stream files h =
      Spares-if stream.failed files _ _ (h, refl)
        (put_in-Spares stream.path (padded stream.width stream.fill text)
          (record stream { width = pos 0 }) files refl h)

  open_file-Spares :
      (can_open : Bytes → Bool) (path : Bytes) (stream : Stream) (files : Files)
      → stream.path ≡ none
      → path ≢ other
      → Spares files (open_file can_open path stream files)
  unfolding open_file
  open_file-Spares can_open path stream files e h =
      Spares-if (can_open path) files _ _ (λ k. h (some_same k), assign_elsewhere path [] files h)
        (λ k. none_not_some (sym e ∙ k), refl)

  -- What a call leaves.
  abbrev pub Keeps : LogState → LogState → Type 0
  Keeps s after = Spares s.files (after.logger.log_file, after.files)

  written_to-Keeps :
      (text : Bytes) (s : LogState) → IsElsewhere s.logger.log_file → Keeps s (written_to text s)
  unfolding written_to
  written_to-Keeps text s h = put-Spares text s.logger.log_file s.files h

  then_Keeps :
      (s : LogState) (first : Ended × LogState) (rest : LogState → Ended × LogState)
      → Keeps s first.1
      → Keeps first.1 (rest first.1).1
      → Keeps s (and_then first rest).1
  then_Keeps s (returned, s') rest h k = (k.0, k.1 ∙ h.1)
  then_Keeps s (threw, s') rest h k = h

  call-Keeps :
      (can_open : Bytes → Bool) (c : Call) (calls : List Call) (s : LogState)
      → IsElsewhere s.logger.log_file
      → Avoids (c ∷ calls) s.logger.pending_log_file_path
      → Keeps s (call can_open c s).1
        × Avoids calls (call can_open c s).1.logger.pending_log_file_path
  unfolding call written_to
  call-Keeps can_open (separation what lenght) calls s h a = (
    put-Spares (codes "\n") (record s.logger.log_file { fill = what; width = lenght }) s.files h,
    a,
  )
  call-Keeps can_open (path_set path) calls s h a = ((h, refl), a)
  call-Keeps can_open (initialised path) calls s h a = (
    open_file-Spares can_open (target_path path s.logger) (closed_first s.logger.log_file) s.files
        (closed_first-path s.logger.log_file.path s.logger.log_file refl) a.0,
    a.1,
  )
  call-Keeps can_open (precision_set n) calls s h a = ((h, refl), a)
  call-Keeps can_open flushed calls s h a =
      subst (λ x. Keeps s x × Avoids calls x.logger.pending_log_file_path)
        (sym (flush_same (not (is_open s.logger.log_file)) s)) ((h, refl), a)
  call-Keeps can_open (record_added message) calls s h a =
      let (e, first) = written_to-Keeps message s h in
      let (f, second) = written_to-Keeps (codes "\n") (written_to message s) e in
      ((f, second ∙ first), a)
  call-Keeps can_open (partial_added message) calls s h a = (written_to-Keeps message s h, a)
  call-Keeps can_open (inserted rhs) calls s h a = (written_to-Keeps rhs s h, a)

  -- A file that no call opens, and that is not open, keeps its content.
  pub run_calls-Keeps :
      (can_open : Bytes → Bool) (calls : List Call) (s : LogState)
      → IsElsewhere s.logger.log_file
      → Avoids calls s.logger.pending_log_file_path
      → Keeps s (run_calls can_open calls s).1
  unfolding run_calls
  run_calls-Keeps can_open [] s h a = (h, refl)
  run_calls-Keeps can_open (c ∷ calls) s h a =
      let ((e, first), b) = call-Keeps can_open c calls s h a in
      let (f, rest) = run_calls-Keeps can_open calls (call can_open c s).1 e b in (f, rest ∙ first)

  sequence-Keeps :
      (can_open : Bytes → Bool) (calls : List Call) (s : LogState)
      → IsElsewhere s.logger.log_file
      → Avoids calls s.logger.pending_log_file_path
      → Keeps s (sequence can_open calls s).1
  unfolding sequence
  sequence-Keeps can_open [] s h a = (h, refl)
  sequence-Keeps can_open (c ∷ calls) s h a =
      let ((e, first), b) = call-Keeps can_open c calls s h a in
      then_Keeps s (call can_open c s) (sequence can_open calls) (e, first)
        (sequence-Keeps can_open calls (call can_open c s).1 e b)

  texts-Avoids : (calls : List Call) (pending : Bytes) → All IsText calls → Avoids calls pending
  texts-Avoids [] pending h = tt
  texts-Avoids (separation what lenght ∷ calls) pending h = texts-Avoids calls pending h.1
  texts-Avoids (path_set path ∷ calls) pending h = elim h.0 [ ]
  texts-Avoids (initialised path ∷ calls) pending h = elim h.0 [ ]
  texts-Avoids (precision_set n ∷ calls) pending h = texts-Avoids calls pending h.1
  texts-Avoids (flushed ∷ calls) pending h = texts-Avoids calls pending h.1
  texts-Avoids (record_added message ∷ calls) pending h = texts-Avoids calls pending h.1
  texts-Avoids (partial_added message ∷ calls) pending h = texts-Avoids calls pending h.1
  texts-Avoids (inserted rhs ∷ calls) pending h = texts-Avoids calls pending h.1

  -- A file that `initLogFile` does not open, and what is written behind it.
  pub init_log_file-Keeps :
      (can_open : Bytes → Bool) (path : Bytes) (s : LogState)
      → target_path path s.logger ≢ other
      → Keeps s (init_log_file can_open path s).1
  unfolding init_log_file
  init_log_file-Keeps can_open path s h =
      open_file-Spares can_open (target_path path s.logger) (closed_first s.logger.log_file) s.files
        (closed_first-path s.logger.log_file.path s.logger.log_file refl) h

  pub texts-Keeps :
      (can_open : Bytes → Bool) (calls : List Call) (s : LogState)
      → IsElsewhere s.logger.log_file
      → All IsText calls
      → Keeps s (sequence can_open calls s).1
  texts-Keeps can_open calls s h t =
      sequence-Keeps can_open calls s h (texts-Avoids calls s.logger.pending_log_file_path t)
