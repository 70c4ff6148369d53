-- ===== src/Pop3/Serving/Marks.antt =====
-- The messages of marked numbers and those of their names, in pop3_server.py.
use rdt_mail_service.Prelude.{
  ℕ, zero, suc, ◌≡◌, refl, ◌∙◌, inl, inr, Bool, true, false, ◌||◌, List, [], ◌∷◌, Option, none,
  some, arith, ◌==◌, nat_eq, Dict, contains, get_elem?, ◌≤◌, ◌+◌, length, Bool-cases, if◌then◌else◌,
}
use rdt_mail_service.Prelude.Text.{Text, text_eq}
use rdt_mail_service.Disk.{path_eq, Entry}
use rdt_mail_service.Mailbox.Reader.{visible, or_false}
use rdt_mail_service.Mailbox.Reader.Listing.{Unique, without}
use rdt_mail_service.Pop3.Server.{Messages, member}
use rdt_mail_service.Pop3.Serving.{filename_at}

-- The listing less the marked numbers, counted from `i` on.
unfoldable pub drop_marked : List ℕ → ℕ → Messages → Messages
drop_marked marked i [] = []
drop_marked marked i (msg ∷ rest) =
    let others = drop_marked marked (suc i) rest in if member i marked then others else msg ∷ others

-- Numbers of messages, from 1 on.
abbrev pub Numbers : Messages → List ℕ → Type 0
Numbers messages [] = Unit
Numbers messages (n ∷ ns) = (1 ≤ n) × (n ≤ length messages) × Numbers messages ns

abbrev pub has_name : Text → Messages → Bool
has_name filename [] = false
has_name filename ((name, size, uid) ∷ rest) = (name == filename) || has_name filename rest

abbrev pub NoNameTwice : Messages → Type 0
NoNameTwice [] = Unit
NoNameTwice ((name, size, uid) ∷ rest) = (has_name name rest ≡ false) × NoNameTwice rest

pub has_name-visible :
    (filename : Text) (messages : Dict Text Entry)
    → contains filename messages ≡ false
    → has_name filename (visible messages) ≡ false
unfolding visible contains
has_name-visible filename [] h = refl
has_name-visible filename ((name, e) ∷ rest) h = ground (arith, has_name-visible filename rest)

pub NoNameTwice-visible :
    (messages : Dict Text Entry) → Unique messages → NoNameTwice (visible messages)
unfolding visible
NoNameTwice-visible [] u = tt
NoNameTwice-visible ((name, e) ∷ rest) u = elim (Bool-cases (or_false e.deleted)) [
  | inl gone ↦ rw gone (NoNameTwice-visible rest u.1)
  | inr listed ↦ rw listed (has_name-visible name rest u.0, NoNameTwice-visible rest u.1)
]

-- The listing less the messages of several names.
abbrev pub without_all : List Text → Messages → Messages
without_all [] messages = messages
without_all (f ∷ fs) messages = without_all fs (without f messages)

abbrev pub has : Text → List Text → Bool
has name [] = false
has name (f ∷ fs) = (name == f) || has name fs

abbrev pub kept : List Text → Messages → Messages
kept fs [] = []
kept fs ((name, size, uid) ∷ rest) =
    let later = kept fs rest in if has name fs then later else (name, size, uid) ∷ later

pub kept-without :
    (f : Text) (fs : List Text) (messages : Messages)
    → kept fs (without f messages) ≡ kept (f ∷ fs) messages
kept-without f fs [] = refl
kept-without f fs ((name, size, uid) ∷ rest) = ground (arith, kept-without f fs rest)

pub kept_nothing : (messages : Messages) → messages ≡ kept [] messages
kept_nothing [] = refl
kept_nothing ((name, size, uid) ∷ rest) = ground (arith, kept_nothing rest)

pub without_all-kept :
    (fs : List Text) (messages : Messages) → without_all fs messages ≡ kept fs messages
without_all-kept [] messages = kept_nothing messages
without_all-kept (f ∷ fs) messages =
    without_all-kept fs (without f messages) ∙ kept-without f fs messages

abbrev pub names_at : Messages → List ℕ → List Text
names_at messages [] = []
names_at messages (n ∷ ns) = elim (filename_at messages n) [
  | none ↦ names_at messages ns
  | some f ↦ f ∷ names_at messages ns
]

pub get_elem?-has_name :
    (messages : Messages) (j : ℕ) (name : Text) (size : ℕ) (uid : Option Text)
    → get_elem? messages j ≡ some (name, size, uid)
    → has_name name messages ≡ true
get_elem?-has_name [] j name size uid e = ground arith
get_elem?-has_name ((n, s, u) ∷ rest) zero name size uid e = ground (arith, text_eq.beq_iff n name)
get_elem?-has_name ((n, s, u) ∷ rest) (suc j) name size uid e =
    ground (arith, get_elem?-has_name rest j name size uid)

-- A number and a name agree.
pub name_number :
    (messages : Messages)
    → NoNameTwice messages
    → (i j : ℕ) (name name' : Text) (size size' : ℕ) (uid uid' : Option Text)
    → get_elem? messages i ≡ some (name, size, uid)
    → get_elem? messages j ≡ some (name', size', uid')
    → (name' == name) ≡ (i == j)
name_number [] u i j name name' size size' uid uid' e f = ground arith
name_number ((n, s, v) ∷ rest) u zero zero name name' size size' uid uid' e f =
    ground (arith, text_eq.beq_iff name' name)
name_number ((n, s, v) ∷ rest) u zero (suc j) name name' size size' uid uid' e f =
    ground (arith, text_eq.beq_iff name' name, get_elem?-has_name rest j name' size' uid')
name_number ((n, s, v) ∷ rest) u (suc i) zero name name' size size' uid uid' e f =
    ground (arith, text_eq.beq_iff name' name, get_elem?-has_name rest i name size uid)
name_number ((n, s, v) ∷ rest) u (suc i) (suc j) name name' size size' uid uid' e f =
    ground (arith, name_number rest u.1 i j name name' size size' uid uid')

pub get_elem?-some :
    (messages : Messages) (j : ℕ)
    → suc j ≤ length messages
    → (name : Text) × (size : ℕ) × (uid : Option Text) × (get_elem? messages j
        ≡ some (name, size, uid))
get_elem?-some [] j h = absurd (omega arith)
get_elem?-some ((n, s, u) ∷ rest) zero h = (n, s, u, refl)
get_elem?-some ((n, s, u) ∷ rest) (suc j) h = get_elem?-some rest j (omega arith)

-- A part of the listing, from number `i` on, less names or numbers that agree on it.
pub kept-drop_marked :
    (fs : List Text) (marked : List ℕ) (i : ℕ) (messages : Messages)
    → ((j m : ℕ) (name : Text) (size : ℕ) (uid : Option Text)
        → get_elem? messages j ≡ some (name, size, uid)
        → m ≡ i + j
        → has name fs ≡ member m marked)
    → kept fs messages ≡ drop_marked marked i messages
unfolding drop_marked
kept-drop_marked fs marked i [] h = refl
kept-drop_marked fs marked i ((name, size, uid) ∷ rest) h =
    let head : has name fs ≡ member i marked = h 0 i name size uid refl (omega arith) in
    let tail =
      kept-drop_marked fs marked (suc i) rest
        (λ j m n s u e f. h (suc j) m n s u e (omega (arith, f))) in
    ground (arith, head, tail)
