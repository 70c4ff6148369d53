-- ===== src/Client/SmtpClient/Pieces.antt =====
-- The loop of smtp_client.py that sends a message in pieces.
use rdt_mail_service.Prelude.{
  ℕ, zero, suc, ◌+◌, ◌-◌, ◌≤◌, ◌≡◌, refl, sym, ap, ◌∙◌, inl, inr, true, false, List, [], ◌∷◌,
  Bool-cases, map, ltb, length, take, drop, take-append-drop, arith, ltb→lt, le→ltb, lt→ltb,
  if◌then◌else◌,
}
use rdt_mail_service.Prelude.Text.{Text}
use rdt_mail_service.Smtp.Streams.Chunks.{concat}
use rdt_mail_service.Client.Wire.{Wire, Client, ◌>>◌, return, say}
use rdt_mail_service.Client.Conversation.{
  Step, says, Keeps, Scripted, seq-Scripted, return-Scripted, say-Scripted,
}
use rdt_mail_service.Client.SmtpClient.{max_payload_size, send_chunks}

-- A text is cut into pieces of at most 1024 bytes.
unfoldable pub pieces : ℕ → Text → List Text
pieces zero t = []
pieces (suc rounds) t =
    let rest = pieces rounds (drop max_payload_size t) in
    if ltb 0 (length t) then take max_payload_size t ∷ rest else []

zero_add : (n : ℕ) → 0 + n ≡ n
zero_add n = omega arith

suc_add : (m n : ℕ) → suc m + n ≡ suc (m + n)
suc_add m n = omega arith

module _ {ℓ} {A : Type ℓ} where
  drop_none : (n : ℕ) → drop {A = A} n [] ≡ []
  drop_none zero = refl
  drop_none (suc n) = refl

  drop-drop : (m n : ℕ) (xs : List A) → drop n (drop m xs) ≡ drop (m + n) xs
  drop-drop zero n xs = rw (zero_add n) refl
  drop-drop (suc m) n [] = drop_none n ∙ sym (drop_none (suc m + n))
  drop-drop (suc m) n (x ∷ xs) = rw (suc_add m n) (drop-drop m n xs)

  drop_taken : (n : ℕ) (xs : List A) → drop (length (take n xs)) xs ≡ drop n xs
  drop_taken zero xs = refl
  drop_taken (suc n) [] = refl
  drop_taken (suc n) (x ∷ xs) = drop_taken n xs

  length-drop : (n : ℕ) (xs : List A) → length (drop n xs) ≡ length xs - n
  length-drop zero xs = omega arith
  length-drop (suc n) [] = omega arith
  length-drop (suc n) (x ∷ xs) = omega (arith, length-drop n xs)

  length-take :
      (n : ℕ) (xs : List A)
      → (length (take n xs) ≤ n)
        × (length (take n xs) ≤ length xs)
        × (1 ≤ n → 1 ≤ length xs → 1 ≤ length (take n xs))
  length-take zero xs = (omega arith, omega arith, λ h k. omega arith)
  length-take (suc n) [] = (omega arith, omega arith, λ h k. omega arith)
  length-take (suc n) (x ∷ xs) =
      (omega (arith, (length-take n xs).0), omega (arith, (length-take n xs).1), λ h k. omega arith)

-- Every piece has one byte at least and 1024 at most.
abbrev pub AllFit : List Text → Type 0
AllFit [] = Unit
AllFit (t ∷ ts) = (1 ≤ length t) × (length t ≤ max_payload_size) × AllFit ts

module _ (rounds : ℕ) (t : Text) where
  pieces_more :
      ltb 0 (length t) ≡ true
      → pieces (suc rounds) t ≡ take max_payload_size t ∷ pieces rounds (drop max_payload_size t)
  unfolding pieces
  pieces_more h = rw h

  pieces_over : ltb 0 (length t) ≡ false → pieces (suc rounds) t ≡ []
  unfolding pieces
  pieces_over h = rw h

pub pieces-AllFit : (rounds : ℕ) (t : Text) → AllFit (pieces rounds t)
pieces-AllFit zero t = (unfold pieces in tt)
pieces-AllFit (suc rounds) t = elim (Bool-cases (ltb 0 (length t))) [
  | inl more ↦ rw (pieces_more rounds t more) (
    (length-take max_payload_size t).2 (omega arith) (ltb→lt 0 (length t) more),
    (length-take max_payload_size t).0,
    pieces-AllFit rounds (drop max_payload_size t),
  )
  | inr over ↦ rw (pieces_over rounds t over) tt
]

pub concat-pieces : (rounds : ℕ) (t : Text) → length t ≤ rounds → concat (pieces rounds t) ≡ t
concat-pieces zero [] h = (unfold pieces in refl)
concat-pieces zero (c ∷ t) h = absurd (omega arith)
concat-pieces (suc rounds) [] h = (unfold pieces in refl)
concat-pieces (suc rounds) (c ∷ t) h =
    rw
      (
        pieces_more rounds (c ∷ t) (lt→ltb 0 (length (c ∷ t)) (omega arith)),
        concat-pieces rounds (drop max_payload_size (c ∷ t))
            (omega (arith, length-drop max_payload_size (c ∷ t))),
      )
      (take-append-drop max_payload_size (c ∷ t))

take_all : (n : ℕ) (t : Text) → length t ≤ n → take n t ≡ t
take_all zero [] h = refl
take_all zero (c ∷ t) h = absurd (omega arith)
take_all (suc n) [] h = refl
take_all (suc n) (c ∷ t) h = ap (λ (x : Text). c ∷ x) (take_all n t (omega arith))

drop_all : (n : ℕ) (t : Text) → length t ≤ n → drop n t ≡ []
drop_all zero [] h = refl
drop_all zero (c ∷ t) h = absurd (omega arith)
drop_all (suc n) [] h = refl
drop_all (suc n) (c ∷ t) h = drop_all n t (omega arith)

pieces_nothing : (rounds : ℕ) → pieces rounds [] ≡ []
unfolding pieces
pieces_nothing zero = refl
pieces_nothing (suc rounds) = refl

-- A text that fits in one piece is one piece.
pub pieces_short :
    (rounds : ℕ) (t : Text)
    → 1 ≤ length t
    → length t ≤ max_payload_size
    → pieces (suc rounds) t ≡ t ∷ []
pieces_short rounds t h k =
    pieces_more rounds t (lt→ltb 0 (length t) (omega arith))
    ∙ rw (take_all max_payload_size t k, drop_all max_payload_size t k, pieces_nothing rounds) refl

module _ {S : Type 0} (w : Wire S) (rounds sent : ℕ) (p : Text) where
  chunk_sent :
      drop (sent + length (take max_payload_size (drop sent p))) p
      ≡ drop max_payload_size (drop sent p)
  chunk_sent =
      sym (drop-drop sent (length (take max_payload_size (drop sent p))) p)
      ∙ drop_taken max_payload_size (drop sent p)

  send_chunks_more :
      ltb 0 (length (drop sent p)) ≡ true
      → send_chunks w (suc rounds) sent p ≡ (do
        say w (take max_payload_size (drop sent p))
        send_chunks w rounds (sent + length (take max_payload_size (drop sent p))) p)
  unfolding send_chunks
  send_chunks_more h =
      rw
        (lt→ltb sent (length p)
          (omega (arith, length-drop sent p, ltb→lt 0 (length (drop sent p)) h)))
        refl

  send_chunks_over :
      ltb 0 (length (drop sent p)) ≡ false → send_chunks w (suc rounds) sent p ≡ return tt
  unfolding send_chunks
  send_chunks_over h = rw (le→ltb sent (length p) (ground (arith, length-drop sent p))) refl

pub send_chunks-Scripted :
    {S : Type 0} (w : Wire S) (rounds sent : ℕ) (p : Text)
    → Scripted (map says (pieces rounds (drop sent p))) (send_chunks w rounds sent p)
send_chunks-Scripted w zero sent p = (unfold pieces send_chunks in return-Scripted tt)
send_chunks-Scripted w (suc rounds) sent p =
    let chunk : Text = take max_payload_size (drop sent p) in
    elim (Bool-cases (ltb 0 (length (drop sent p)))) [
      | inl more ↦
          rw (pieces_more rounds (drop sent p) more, send_chunks_more w rounds sent p more)
            (seq-Scripted (Step.says chunk ∷ [])
              (map says (pieces rounds (drop max_payload_size (drop sent p)))) (say w chunk)
              (send_chunks w rounds (sent + length chunk) p) (say-Scripted w chunk)
              (rw (sym (chunk_sent w rounds sent p))
                (send_chunks-Scripted w rounds (sent + length chunk) p)))
      | inr over ↦
          rw (pieces_over rounds (drop sent p) over, send_chunks_over w rounds sent p over)
            (return-Scripted tt)
    ]

-- The loop has rounds enough, and where it returns it has said pieces of the payload: each of one
-- byte at least and 1024 at most, and all of them together, in their order, are the payload.
pub send_chunks-AllFit :
    {S : Type 0} (w : Wire S) (p : Text) (c : Client S)
    → let cuts = pieces (suc (length p)) p in
      AllFit cuts
      × (concat cuts ≡ p)
      × Keeps (map says cuts) c (send_chunks w (suc (length p)) 0 p c)
send_chunks-AllFit w p c = (
  pieces-AllFit (suc (length p)) p,
  concat-pieces (suc (length p)) p (omega arith),
  send_chunks-Scripted w (suc (length p)) 0 p c,
)
