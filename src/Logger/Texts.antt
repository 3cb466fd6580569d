-- ===== src/Logger/Texts.antt =====
-- Calls of a `Logger` of src/cLogger.cpp that write to the file that is open.
use pquery.Prelude.{
  not, ℕ, ℤ, pos, length, Option, ◌-◌, arith, is_empty, if◌then◌else◌, Bool, List, [], ◌∷◌, ◌++◌,
  ◌≡◌, refl, sym, ap, subst, ◌∙◌, some, Bytes, codes, All, append-nil, append_assoc, true, none,
}
use pquery.Logger.Stream.{padded, replicate}
use pquery.Logger.Operations.{init_log_file, target_path, Ended, threw, LogState, returned}
use pquery.Logger.Calls.{
  Call, separation, path_set, initialised, precision_set, flushed, record_added, partial_added,
  inserted, call, and_then, sequence, IsReady,
}
use pquery.Logger.Journal.{
  Journal, add, written_on, width_left, refused_on, journal, note, new_target,
}
use pquery.Logger.Refines.{call-Agrees, init-StandsFor, if_not}

abbrev pub text_of : Call → Bytes
text_of (separation what lenght) = padded lenght what (codes "\n")
text_of (record_added message) = message ++ codes "\n"
text_of (partial_added message) = message
text_of (inserted rhs) = rhs
text_of _ = []

abbrev pub texts_of : List Call → Bytes
texts_of [] = []
texts_of (c ∷ calls) = text_of c ++ texts_of calls

-- The call does not change which file is open, or is opened next.
abbrev pub IsText : Call → Type 0
IsText (path_set path) = ⊥
IsText (initialised path) = ⊥
IsText _ = Unit

-- The file that is open has the content, and the next text is not padded.
abbrev pub IsAt : Bytes → Bytes → Journal → Type 0
IsAt path content j = (j.target ≡ some (path, content)) × (j.width ≡ pos 0)

pub record Writing (path content : Bytes) (s : LogState) : Type 0 where
  pub ready : IsReady s.logger.log_file
  pub target : IsAt path content (journal s)

padded-none : (width : ℤ) (fill : ℕ) (text : Bytes) → width ≡ pos 0 → padded width fill text ≡ text
unfolding padded replicate
padded-none width fill text h =
    let left : 0 - length text ≡ 0 = omega arith in rw h (ap (λ n. replicate n fill ++ text) left)

width_left-none :
    (target : Option (Bytes × Bytes)) (width : ℤ) → width ≡ pos 0 → width_left target width ≡ pos 0
width_left-none none width h = h
width_left-none (some file) width h = refl

-- What is added with no width set.
pub add-unpadded :
    (text : Bytes) (j : Journal)
    → j.width ≡ pos 0
    → ((add text j).target ≡ written_on text j.target) × ((add text j).width ≡ pos 0)
unfolding add
add-unpadded text j h = (
  ap (λ t. written_on t j.target) (padded-none j.width j.fill text h),
  width_left-none j.target j.width h,
)

add-IsAt :
    (text : Bytes) (j : Journal) {path content : Bytes}
    → IsAt path content j
    → IsAt path (content ++ text) (add text j)
add-IsAt text j (e, w) =
    let (target, width) = add-unpadded text j w in (target ∙ ap (written_on text) e, width)

refused_on-some :
    (target : Option (Bytes × Bytes)) {file : Bytes × Bytes}
    → target ≡ some file
    → refused_on target ≡ returned
refused_on-some target e = rw e refl

note-text :
    (can_open : Bytes → Bool) (c : Call) (j : Journal) (path content : Bytes)
    → IsText c
    → IsAt path content j
    → ((note can_open c j).0 ≡ returned)
      × IsAt path (content ++ text_of c) (note can_open c j).1
      × ((note can_open c j).1.pending ≡ j.pending)
unfolding note add
note-text can_open (separation what lenght) j path content h (e, w) =
    rw e (refl, (refl, refl), refl)
note-text can_open (path_set n) j path content h e = elim h [ ]
note-text can_open (initialised n) j path content h e = elim h [ ]
note-text can_open (precision_set n) j path content h (e, w) =
    (refl, (e ∙ ap (λ (c : Bytes). some (path, c)) (sym (append-nil content)), w), refl)
note-text can_open flushed j path content h (e, w) =
    (refl, (e ∙ ap (λ (c : Bytes). some (path, c)) (sym (append-nil content)), w), refl)
note-text can_open (record_added message) j path content h (e, w) =
    let (target, width) = add-IsAt (codes "\n") (add message j) (add-IsAt message j (e, w)) in
    (
      refused_on-some j.target e,
      (target ∙ ap (λ c. some (path, c)) (append_assoc content message (codes "\n")), width),
      refl,
    )
note-text can_open (partial_added message) j path content h (e, w) =
    (refused_on-some j.target e, add-IsAt message j (e, w), refl)
note-text can_open (inserted rhs) j path content h (e, w) =
    (refused_on-some j.target e, add-IsAt rhs j (e, w), refl)

pub call-Writing :
    (can_open : Bytes → Bool) (c : Call) (s : LogState) {path content : Bytes}
    → IsText c
    → Writing path content s
    → ((call can_open c s).0 ≡ returned)
      × Writing path (content ++ text_of c) (call can_open c s).1
      × ((call can_open c s).1.logger.pending_log_file_path ≡ s.logger.pending_log_file_path)
call-Writing can_open c s {path} {content} h w =
    let (e, (ready, j)) = call-Agrees can_open c s w.ready in
    let (returns, target, pending) = note-text can_open c (journal s) path content h w.target in
    (
      e ∙ returns,
      record {
        ready = ready;
        target = (ap (λ j. j.target) j ∙ target.0, ap (λ j. j.width) j ∙ target.1);
      },
      ap (λ j. j.pending) j ∙ pending,
    )

pub then_returned :
    (first : Ended × LogState) (rest : LogState → Ended × LogState)
    → first.0 ≡ returned
    → and_then first rest ≡ rest first.1
then_returned (returned, s) rest e = refl
then_returned (threw, s) rest e = cc

-- Nothing is thrown, and the texts stand behind each other.
pub sequence-Writing :
    (can_open : Bytes → Bool) (calls : List Call) (s : LogState) {path content : Bytes}
    → All IsText calls
    → Writing path content s
    → ((sequence can_open calls s).0 ≡ returned)
      × Writing path (content ++ texts_of calls) (sequence can_open calls s).1
      × ((sequence can_open calls s).1.logger.pending_log_file_path
          ≡ s.logger.pending_log_file_path)
unfolding sequence
sequence-Writing can_open [] s {path} {content} h w =
    (refl, subst (λ c. Writing path c s) (sym (append-nil content)) w, refl)
sequence-Writing can_open (c ∷ calls) s {path} {content} h w =
    let (e, first, p) = call-Writing can_open c s h.0 w in
    let (r, rest, q) = sequence-Writing can_open calls (call can_open c s).1 h.1 first in
    let behind = (sequence can_open calls (call can_open c s).1).1 in
    let whole = append_assoc content (text_of c) (texts_of calls) in
    subst
      (λ x.
        (x.0 ≡ returned)
        × Writing path (content ++ (text_of c ++ texts_of calls)) x.1
        × (x.1.logger.pending_log_file_path ≡ s.logger.pending_log_file_path))
      (sym (then_returned (call can_open c s) (sequence can_open calls) e))
      (r, subst (λ t. Writing path t behind) whole rest, q ∙ p)

-- A file that `initLogFile` has opened is empty, and no path is left for the next one.
pub init_log_file-Writing :
    (can_open : Bytes → Bool) (path : Bytes) (s : LogState)
    → s.logger.log_file.width ≡ pos 0
    → can_open (target_path path s.logger) ≡ true
    → Writing (target_path path s.logger) [] (init_log_file can_open path s).1
unfolding note
init_log_file-Writing can_open path s w h =
    let (ready, j) = init-StandsFor can_open path s in
    let pending = s.logger.pending_log_file_path in
    let chosen = sym (if_not (is_empty pending) pending path) in
    record {
      ready = ready;
      target = (
        ap (λ j. j.target) j
            ∙ ap (new_target can_open) chosen
            ∙ ap (λ b. if b then some (target_path path s.logger, []) else none) h,
        ap (λ j. j.width) j ∙ w,
      );
    }

-- With no path set before, it opens its own.
pub init_log_file-new_target :
    (can_open : Bytes → Bool) (path : Bytes) (s : LogState)
    → s.logger.pending_log_file_path ≡ []
    → (journal (init_log_file can_open path s).1).target ≡ new_target can_open path
unfolding note
init_log_file-new_target can_open path s h =
    ap (λ j. j.target) (init-StandsFor can_open path s).1
    ∙ ap (λ p. new_target can_open (if is_empty p then path else p)) h

-- With no path set before, it is the one passed in.
pub no_pending :
    (path : Bytes) (s : LogState)
    → s.logger.pending_log_file_path ≡ []
    → target_path path s.logger ≡ path
no_pending path s h = ap (λ p. if not (is_empty p) then p else path) h
