-- ===== src/WorkerConfig/Sections.antt =====
-- `WorkerConfig::buildAllWorkerParams` of src/cWorkerConfig.cpp over all sections.
use mathlib.Core.Bool.{false≢true}
use pquery.Prelude.{
  true, false, List, [], ◌∷◌, ◌++◌, ◌≡◌, ◌≢◌, ◌⊎◌, inl, inr, refl, sym, ap, ◌∙◌, Bytes, codes,
  equal, append_assoc, append-nil, Bool-cases,
}
use pquery.IniReader.Reader.{IniReader}
use pquery.IniReader.Values.{get_boolean}
use pquery.WorkerConfig.Params.{BuildFlags, WorkerParams, to_lower_case}
use pquery.WorkerConfig.Checks.{Checked, valid, invalid}
use pquery.WorkerConfig.Setup.{setup_worker_params}
use pquery.WorkerConfig.Build.{
  Building, full_message, report, add_checked, check_section, check_sections, failed_message,
  finish, build_all_worker_params,
}

-- A section with a worker to run: it is not [master], in any case, and says "run".
abbrev pub Runs : IniReader → Bytes → Type 0
Runs r section =
    (equal (to_lower_case section) (codes "master") ≡ false)
    × (get_boolean r section (codes "run") false ≡ true)

-- The parameters and the messages that the sections give, in their order.
pub data Gives (flags : BuildFlags) (r : IniReader)
    : List Bytes → List WorkerParams → List Bytes → Type 0 where
  nil : Gives flags r [] [] []
  idle :
      {section : Bytes} {sections : List Bytes} {out : List WorkerParams} {messages : List Bytes}
      → ¬ Runs r section
      → Gives flags r sections out messages
      → Gives flags r (section ∷ sections) out messages
  accepted :
      {section : Bytes} {sections : List Bytes} {p : WorkerParams} {out : List WorkerParams}
      {messages : List Bytes}
      → Runs r section
      → setup_worker_params flags r section ≡ valid p
      → Gives flags r sections out messages
      → Gives flags r (section ∷ sections) (p ∷ out) messages
  refused :
      {section message : Bytes} {sections : List Bytes} {out : List WorkerParams}
      {messages : List Bytes}
      → Runs r section
      → setup_worker_params flags r section ≡ invalid message
      → Gives flags r sections out messages
      → Gives flags r (section ∷ sections) out (full_message section message ∷ messages)

-- The state behind the sections.
record After (b c : Building) (out : List WorkerParams) (messages : List Bytes) : Type 0 where
  outs : c.out ≡ b.out ++ out
  errors : c.errors ≡ b.errors ++ messages
  flag : ((messages ≡ []) × (c.config_ok ≡ b.config_ok)) ⊎ ((messages ≢ []) × (c.config_ok ≡ false))

data SectionStep (flags : BuildFlags) (r : IniReader) (section : Bytes) (b : Building)
    : Type 0 where
  passed :
      ¬ Runs r section
      → (check_section flags r section b).out ≡ b.out
      → (check_section flags r section b).errors ≡ b.errors
      → (check_section flags r section b).config_ok ≡ b.config_ok
      → SectionStep flags r section b
  taken :
      {p : WorkerParams}
      → Runs r section
      → setup_worker_params flags r section ≡ valid p
      → (check_section flags r section b).out ≡ b.out ++ p ∷ []
      → (check_section flags r section b).errors ≡ b.errors
      → (check_section flags r section b).config_ok ≡ b.config_ok
      → SectionStep flags r section b
  failed :
      {message : Bytes}
      → Runs r section
      → setup_worker_params flags r section ≡ invalid message
      → (check_section flags r section b).out ≡ b.out
      → (check_section flags r section b).errors ≡ b.errors ++ full_message section message ∷ []
      → (check_section flags r section b).config_ok ≡ false
      → SectionStep flags r section b

Checked_cases :
    {A : Type 0} (c : Checked A) → ((a : A) × (c ≡ valid a)) ⊎ ((m : Bytes) × (c ≡ invalid m))
Checked_cases (valid a) = inl (a, refl)
Checked_cases (invalid m) = inr (m, refl)

check_section-SectionStep :
    (flags : BuildFlags) (r : IniReader) (section : Bytes) (b : Building)
    → SectionStep flags r section b
unfolding check_section add_checked report
check_section-SectionStep flags r section b =
    elim (Bool-cases (equal (to_lower_case section) (codes "master"))) [
      | inl m ↦ passed (λ h. false≢true (sym h.0 ∙ m)) (rw (m) refl) (rw (m) refl) (rw (m) refl)
      | inr m ↦ elim (Bool-cases (get_boolean r section (codes "run") false)) [
        | inr u ↦
            passed (λ h. false≢true (sym u ∙ h.1)) (rw (m, u) refl) (rw (m, u) refl)
              (rw (m, u) refl)
        | inl u ↦ elim (Checked_cases (setup_worker_params flags r section)) [
          | inl (p, s) ↦ taken (m, u) s (rw (m, u, s) refl) (rw (m, u, s) refl) (rw (m, u, s) refl)
          | inr (e, s) ↦ failed (m, u) s (rw (m, u, s) refl) (rw (m, u, s) refl) (rw (m, u, s) refl)
        ]
      ]
    ]

After-nil : (b : Building) → After b b [] []
After-nil b = record {
  outs = sym (append-nil b.out);
  errors = sym (append-nil b.errors);
  flag = inl (refl, refl);
}

cons_nil : {A : Type 0} {x : A} {xs : List A} → x ∷ xs ≢ []
cons_nil e = cc

nil-append : {A : Type 0} {xs ys : List A} → xs ≡ [] → ys ≡ [] → xs ++ ys ≡ []
nil-append h k = rw (h, k) refl

append-ne-nil : {A : Type 0} (xs ys : List A) → (xs ≢ []) ⊎ (ys ≢ []) → xs ++ ys ≢ []
append-ne-nil [] ys (inl h) = absurd (h refl)
append-ne-nil [] ys (inr h) = h
append-ne-nil (x ∷ xs) ys h = cons_nil

-- The state after one section and the others.
After-section :
    (os : List WorkerParams) (ms : List Bytes) {b c d : Building} {out : List WorkerParams}
    {messages : List Bytes}
    → c.out ≡ b.out ++ os
    → c.errors ≡ b.errors ++ ms
    → ((ms ≡ []) × (c.config_ok ≡ b.config_ok)) ⊎ ((ms ≢ []) × (c.config_ok ≡ false))
    → After c d out messages
    → After b d (os ++ out) (ms ++ messages)
After-section os ms {b} {c} {d} {out} {messages} o e f a = record {
  outs = a.outs ∙ ap (λ x. x ++ out) o ∙ append_assoc b.out os out;
  errors = a.errors ∙ ap (λ x. x ++ messages) e ∙ append_assoc b.errors ms messages;
  flag = both f a.flag;
}
  where
    both :
        ((ms ≡ []) × (c.config_ok ≡ b.config_ok)) ⊎ ((ms ≢ []) × (c.config_ok ≡ false))
        → ((messages ≡ []) × (d.config_ok ≡ c.config_ok))
          ⊎ ((messages ≢ []) × (d.config_ok ≡ false))
        → ((ms ++ messages ≡ []) × (d.config_ok ≡ b.config_ok))
          ⊎ ((ms ++ messages ≢ []) × (d.config_ok ≡ false))
    both (inl (n, x)) (inl (k, y)) = inl (nil-append n k, y ∙ x)
    both (inl (n, x)) (inr (k, y)) = inr (append-ne-nil _ _ (inr k), y)
    both (inr (n, x)) (inl (k, y)) = inr (append-ne-nil _ _ (inl n), y ∙ x)
    both (inr (n, x)) (inr (k, y)) = inr (append-ne-nil _ _ (inl n), y)

check_sections-Gives :
    (flags : BuildFlags) (r : IniReader) (sections : List Bytes) (b : Building)
    → (out : List WorkerParams) × (messages : List Bytes) × Gives flags r sections out messages
      × After b (check_sections flags r sections b) out messages
unfolding check_sections
check_sections-Gives flags r [] b = ([], [], nil, After-nil b)
check_sections-Gives flags r (section ∷ sections) b =
    let (out, messages, g, a) =
      check_sections-Gives flags r sections (check_section flags r section b) in
    elim (check_section-SectionStep flags r section b) [
      | passed n o e f ↦ (
        out,
        messages,
        idle n g,
        After-section [] [] (o ∙ sym (append-nil _)) (e ∙ sym (append-nil _)) (inl (refl, f)) a,
      )
      | taken {p} u s o e f ↦ (
        p ∷ out,
        messages,
        accepted u s g,
        After-section (p ∷ []) [] o (e ∙ sym (append-nil _)) (inl (refl, f)) a,
      )
      | failed {message} u s o e f ↦ (
        out,
        full_message section message ∷ messages,
        refused u s g,
        After-section [] (full_message section message ∷ []) (o ∙ sym (append-nil _)) e
            (inr (cons_nil, f)) a,
      )
    ]

-- The end of the call, told by the messages of the sections.
pub record Ends (b c : Building) (out : List WorkerParams) (messages : List Bytes) : Type 0 where
  pub outs : c.out ≡ b.out ++ out
  pub result :
      ((messages ≡ []) × (c.config_ok ≡ true) × (c.errors ≡ b.errors))
      ⊎ ((messages ≢ [])
          × (c.config_ok ≡ false)
          × (c.errors ≡ (b.errors ++ messages) ++ failed_message ∷ []))

finish-Ends :
    (b c : Building) (out : List WorkerParams) (messages : List Bytes)
    → After (record b { config_ok = true }) c out messages
    → Ends b (finish c) out messages
unfolding finish report
finish-Ends b c out messages a = elim (a.flag) [
  | inl (m, f) ↦ record {
    outs = rw (f) a.outs;
    result =
        inl (m, rw (f) refl, rw (f) (a.errors ∙ ap (λ x. b.errors ++ x) m ∙ append-nil b.errors));
  }
  | inr (m, f) ↦ record {
    outs = rw (f) a.outs;
    result = inr (m, rw (f) refl, rw (f) (ap (λ x. x ++ failed_message ∷ []) a.errors));
  }
]

-- `buildAllWorkerParams` checks every section, also behind one that is refused. It succeeds exactly
-- if none is refused. It appends the parameters of the sections that are accepted, in their order,
-- and reports one message for each that is refused, and one at the end.
pub build_all_worker_params-Ends :
    (flags : BuildFlags) (r : IniReader) (b : Building)
    → (out : List WorkerParams) × (messages : List Bytes) × Gives flags r r.sections out messages
      × Ends b (build_all_worker_params flags r b) out messages
unfolding build_all_worker_params
build_all_worker_params-Ends flags r b =
    let start = record b { config_ok = true } in
    let (out, messages, g, a) = check_sections-Gives flags r r.sections start in
    (out, messages, g, finish-Ends b (check_sections flags r r.sections start) out messages a)
