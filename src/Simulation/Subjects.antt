-- ===== src/Simulation/Subjects.antt =====
-- The subject that simulation.py finds in a message.
use rdt_mail_service.Prelude.{
  ℕ, ◌≡◌, refl, ap, ◌∙◌, inl, inr, Bool, true, false, not, ◌&&◌, List, [], ◌∷◌, ◌++◌, append_assoc,
  append-nil, some, arith, Bool-cases, ◌==◌, nat_eq,
}
use rdt_mail_service.Prelude.Text.{
  Text, codes, cr, lf, lower, lower_code, strip, lstrip, is_space, starts_with,
}
use rdt_mail_service.Client.SmtpClient.{message_text}
use rdt_mail_service.Simulation.{is_break, splitlines, subject_in, extract_subject}

abbrev pub unbroken : Text → Bool
unbroken [] = true
unbroken (c ∷ s) = not (is_break c) && unbroken s

is_break-cr : (c : ℕ) → (c == cr) ≡ true → is_break c ≡ false → ⊥
unfolding is_break
is_break-cr c h k = ground arith

-- The first line is what stands before the first break.
splitlines_first :
    (line s t : Text) (b : ℕ)
    → unbroken s ≡ true
    → is_break b ≡ true
    → (lines : List Text) × (splitlines line (s ++ b ∷ t) ≡ (line ++ s) ∷ lines)
unfolding splitlines
splitlines_first line [] [] b h k = ([], rw (k, append-nil line) refl)
splitlines_first line [] (d ∷ t) b h k = elim (Bool-cases ((b == cr) && (d == lf))) [
  | inl y ↦ (splitlines [] t, rw (y, append-nil line) refl)
  | inr n ↦ (splitlines [] (d ∷ t), rw (n, k, append-nil line) refl)
]
splitlines_first line (c ∷ []) t b h k =
    let whole : is_break c ≡ false = ground arith in
    let (lines, e) = splitlines_first (line ++ c ∷ []) [] t b refl k in
    elim (Bool-cases ((c == cr) && (b == lf))) [
      | inl y ↦ absurd (is_break-cr c (ground arith) whole)
      | inr n ↦
          (lines, rw (n, whole) (e ∙ ap (λ (l : Text). l ∷ lines) (append-nil (line ++ c ∷ []))))
    ]
splitlines_first line (c ∷ d ∷ s) t b h k =
    let whole : is_break c ≡ false = ground arith in
    let (lines, e) = splitlines_first (line ++ c ∷ []) (d ∷ s) t b (ground arith) k in
    elim (Bool-cases ((c == cr) && (d == lf))) [
      | inl y ↦ absurd (is_break-cr c (ground arith) whole)
      | inr n ↦ (
        lines,
        rw (n, whole) (e ∙ ap (λ (l : Text). l ∷ lines) (append_assoc line (c ∷ []) (d ∷ s))),
      )
    ]

unbroken-append : (s t : Text) → unbroken s ≡ true → unbroken t ≡ true → unbroken (s ++ t) ≡ true
unbroken-append [] t h k = k
unbroken-append (c ∷ s) t h k = ground (arith, unbroken-append s t)

strip_space : (s : Text) → strip (32 ∷ s) ≡ strip s
unfolding strip lstrip is_space
strip_space s = refl

subject_line :
    (subject : Text) (lines : List Text)
    → subject_in ((codes "Subject: " ++ subject) ∷ lines) ≡ some (strip subject)
unfolding subject_in starts_with lower lower_code
subject_line subject lines = ap some (strip_space subject)

-- Of a subject without line breaks, and without white space around it, a message that begins with
-- its line has just that subject.
pub extract_subject_header :
    (subject rest : Text) (b : ℕ)
    → unbroken subject ≡ true
    → strip subject ≡ subject
    → is_break b ≡ true
    → extract_subject (codes "Subject: " ++ subject ++ b ∷ rest) ≡ some subject
unfolding extract_subject
extract_subject_header subject rest b h k l =
    let (lines, e) =
      splitlines_first [] (codes "Subject: " ++ subject) rest b
        (unbroken-append (codes "Subject: ") subject (unfold is_break in refl) h) l in
    ap subject_in e ∙ subject_line subject lines ∙ ap some k

-- So has the message that `SMTPClient` sends.
pub extract_subject-message_text :
    (subject body : Text)
    → unbroken subject ≡ true
    → strip subject ≡ subject
    → extract_subject (message_text subject body) ≡ some subject
extract_subject-message_text subject body h k =
    extract_subject_header subject (lf ∷ cr ∷ lf ∷ body) cr h k (unfold is_break in refl)

-- Whatever the later lines are, a first line that is no subject line gives the empty subject.
pub extract_subject_first_line :
    (line rest : Text)
    → unbroken line ≡ true
    → starts_with (lower line) (codes "subject:") ≡ false
    → extract_subject (line ++ lf ∷ rest) ≡ some []
unfolding extract_subject subject_in
extract_subject_first_line line rest h k =
    let (lines, e) = splitlines_first [] line rest lf h (unfold is_break in refl) in rw (e, k) refl
