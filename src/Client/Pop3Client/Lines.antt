-- ===== src/Client/Pop3Client/Lines.antt =====
-- The lines of pop3_server.py, as pop3_client.py reads them: decoded, stripped and split.
use rdt_mail_service.Prelude.{
  ℕ, suc, ◌≤◌, ◌≡◌, refl, sym, ap, ◌∙◌, inl, inr, true, false, List, [], ◌∷◌, ◌++◌, append-nil,
  append_assoc, length, arith, Bool-cases, nat_eq,
}
use rdt_mail_service.Prelude.Text.{
  Text, text_eq, codes, cr, lf, is_space, strip, lstrip, rstrip, split, split_words, ends_with,
}
use rdt_mail_service.Connections.{end_line}
use rdt_mail_service.Pop3.Numbers.{decimal, decimal_rounds}
use rdt_mail_service.Pop3.Numbers.Decimal.{
  all_digits, decimal_rounds-all_digits, length-decimal_rounds,
}
use rdt_mail_service.Pop3.Server.{encode_replace}
use rdt_mail_service.Smtp.Streams.CommandLines.{rstrip-all_plain, all_plain}
use rdt_mail_service.Client.Wire.{is_ascii}
use rdt_mail_service.Client.Answers.{is_ascii-append}

all_digits-all_plain : (s : Text) → all_digits s ≡ true → all_plain s ≡ true
unfolding is_space
all_digits-all_plain [] h = refl
all_digits-all_plain (c ∷ s) h = ground (arith, all_digits-all_plain s)

pub decimal-all_plain : (n : ℕ) → all_plain (decimal n) ≡ true
unfolding decimal
decimal-all_plain n =
    all_digits-all_plain (decimal_rounds (suc n) n) (decimal_rounds-all_digits (suc n) n)

pub length-decimal : (n : ℕ) → 1 ≤ length (decimal n)
unfolding decimal
length-decimal n = length-decimal_rounds n n

pub all_plain-is_ascii : (s : Text) → all_plain s ≡ true → is_ascii s ≡ true
unfolding is_ascii
all_plain-is_ascii [] h = refl
all_plain-is_ascii (c ∷ s) h = ground (arith, all_plain-is_ascii s)

-- A word that is read to its end.
split_words-append :
    (word s t : Text) → all_plain s ≡ true → split_words word (s ++ t) ≡ split_words (word ++ s) t
unfolding split_words
split_words-append word [] t h = ap (λ (x : Text). split_words x t) (sym (append-nil word))
split_words-append word (c ∷ s) t h =
    let n : is_space c ≡ false = ground arith in
    rw n (
      split_words-append (word ++ c ∷ []) s t (ground arith)
      ∙ ap (λ (x : Text). split_words x t) (append_assoc word (c ∷ []) s))

split_words_space :
    (c : ℕ) (word t : Text) → split_words (c ∷ word) (32 ∷ t) ≡ (c ∷ word) ∷ split_words [] t
unfolding split_words is_space
split_words_space c word t = refl

split_words_end : (c : ℕ) (word : Text) → split_words (c ∷ word) [] ≡ (c ∷ word) ∷ []
unfolding split_words
split_words_end c word = refl

-- A word, a space, and what follows.
pub split_cons :
    (s t : Text) → all_plain s ≡ true → 1 ≤ length s → split (s ++ codes " " ++ t) ≡ s ∷ split t
unfolding split
split_cons [] t h k = absurd (omega arith)
split_cons (c ∷ s) t h k =
    ap (split_words []) (append_assoc (c ∷ s) (codes " ") t)
    ∙ split_words-append [] (c ∷ s) (32 ∷ t) h
    ∙ split_words_space c s t

split_one : (s : Text) → all_plain s ≡ true → 1 ≤ length s → split s ≡ s ∷ []
unfolding split
split_one [] h k = absurd (omega arith)
split_one (c ∷ s) h k =
    ap (split_words []) (sym (append-nil (c ∷ s)))
    ∙ split_words-append [] (c ∷ s) [] h
    ∙ split_words_end c s

-- Two words with a space between them.
pub split_two :
    (s t : Text)
    → all_plain s ≡ true
    → 1 ≤ length s
    → all_plain t ≡ true
    → 1 ≤ length t
    → split (s ++ codes " " ++ t) ≡ s ∷ t ∷ []
split_two s t h k h' k' = split_cons s t h k ∙ ap (λ (x : List Text). s ∷ x) (split_one t h' k')

-- A text that `strip` leaves as it is, and that is not empty.
abbrev pub IsTidy : Text → Type 0
IsTidy [] = ⊥
IsTidy (c ∷ s) = (is_space c ≡ false) × (rstrip (c ∷ s) ≡ c ∷ s)

rstrip_space : (s : Text) (c : ℕ) → is_space c ≡ true → rstrip (s ++ c ∷ []) ≡ rstrip s
unfolding rstrip
rstrip_space [] c h = rw h refl
rstrip_space (x ∷ s) c h = rw (rstrip_space s c h) refl

rstrip_line : (s : Text) → rstrip (s ++ cr ∷ lf ∷ []) ≡ rstrip s
rstrip_line s =
    ap rstrip (sym (append_assoc s (cr ∷ []) (lf ∷ [])))
    ∙ rstrip_space (s ++ cr ∷ []) lf (unfold is_space in refl)
    ∙ rstrip_space s cr (unfold is_space in refl)

rstrip_kept : (x : ℕ) (u : Text) (c : ℕ) (v : Text) → rstrip u ≡ c ∷ v → rstrip (x ∷ u) ≡ x ∷ c ∷ v
unfolding rstrip
rstrip_kept x u c v h = rw h refl

rstrip-append :
    (s : Text) (c : ℕ) (t : Text) → rstrip (c ∷ t) ≡ c ∷ t → rstrip (s ++ c ∷ t) ≡ s ++ c ∷ t
rstrip-append [] c t h = h
rstrip-append (x ∷ []) c t h = rstrip_kept x (c ∷ t) c t h
rstrip-append (x ∷ y ∷ s) c t h =
    rstrip_kept x (y ∷ s ++ c ∷ t) y (s ++ c ∷ t) (rstrip-append (y ∷ s) c t h)

-- A text that ends with a word, and starts with no white space.
pub append-IsTidy :
    (c : ℕ) (s t : Text)
    → is_space c ≡ false
    → all_plain t ≡ true
    → 1 ≤ length t
    → IsTidy (c ∷ s ++ t)
append-IsTidy c s [] h k l = absurd (omega arith)
append-IsTidy c s (d ∷ t) h k l = (h, rstrip-append (c ∷ s) d t (rstrip-all_plain (d ∷ t) k))

strip-IsTidy : (s : Text) → IsTidy s → strip s ≡ s
unfolding strip lstrip
strip-IsTidy [] h = absurd h
strip-IsTidy (c ∷ s) (h, k) = rw h k

strip_line : (s : Text) → IsTidy s → strip (s ++ cr ∷ lf ∷ []) ≡ s
unfolding strip lstrip
strip_line [] h = absurd h
strip_line (c ∷ s) (h, k) = rw h (rstrip_line (c ∷ s) ∙ k)

strip-end_line : (s : Text) → IsTidy s → strip (end_line s) ≡ s
unfolding end_line
strip-end_line s h = elim (Bool-cases (ends_with s (cr ∷ lf ∷ []))) [
  | inl y ↦ rw y (strip-IsTidy s h)
  | inr n ↦ rw n (strip_line s h)
]

is_ascii-end_line : (s : Text) → is_ascii s ≡ true → is_ascii (end_line s) ≡ true
unfolding end_line
is_ascii-end_line s h = elim (Bool-cases (ends_with s (cr ∷ lf ∷ []))) [
  | inl y ↦ rw y h
  | inr n ↦ rw n (is_ascii-append s (cr ∷ lf ∷ []) h (unfold is_ascii in refl))
]

encode_replace-is_ascii : (s : Text) → is_ascii s ≡ true → encode_replace s ≡ s
unfolding encode_replace is_ascii
encode_replace-is_ascii [] h = refl
encode_replace-is_ascii (c ∷ s) h = ground (arith, encode_replace-is_ascii s)

-- What `_send_reply` of the server sends.
abbrev pub wire_text : Text → Text
wire_text msg = encode_replace (end_line msg)

-- A reply arrives as it is, whether or not the server ends its line.
pub wire_text-heard :
    (msg : Text)
    → IsTidy msg
    → is_ascii msg ≡ true
    → (is_ascii (wire_text msg) ≡ true) × (strip (wire_text msg) ≡ msg)
wire_text-heard msg h k =
    rw (encode_replace-is_ascii (end_line msg) (is_ascii-end_line msg k))
      (is_ascii-end_line msg k, strip-end_line msg h)
