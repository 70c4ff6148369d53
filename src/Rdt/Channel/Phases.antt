-- ===== src/Rdt/Channel/Phases.antt =====
-- The two phases of stop-and-wait: the receiver still expects the chunk in transmission, or has it.
use rdt_mail_service.Prelude.{ℕ, ◌-◌, ◌<◌, ◌≡◌, ◌⊎◌, inl, inr, List, [], ◌∷◌, ◌++◌}
use rdt_mail_service.Prelude.Text.{Text}
use rdt_mail_service.Rdt.Packet.{Packet}
use rdt_mail_service.Rdt.Dispatcher.{Addr}
use rdt_mail_service.Rdt.Receiver.{expected_of}
use rdt_mail_service.Rdt.Channel.{Link}

module _ {ℓ} {A : Type ℓ} where
  -- First elements with `P`, then elements with `Q`.
  abbrev pub All : (A → Type 0) → List A → Type 0
  All P [] = Unit
  All P (x ∷ xs) = P x × All P xs

  abbrev pub Split : (A → Type 0) → (A → Type 0) → List A → Type 0
  Split P Q [] = Unit
  Split P Q (x ∷ xs) = (P x × Split P Q xs) ⊎ All Q (x ∷ xs)

  pub All-snoc : (P : A → Type 0) (xs : List A) (x : A) → All P xs → P x → All P (xs ++ x ∷ [])
  All-snoc P [] x h k = (k, tt)
  All-snoc P (y ∷ xs) x h k = (h.0, All-snoc P xs x h.1 k)

  pub Split-snoc :
      (P Q : A → Type 0) (xs : List A) (x : A) → Split P Q xs → Q x → Split P Q (xs ++ x ∷ [])
  Split-snoc P Q [] x h k = inr (k, tt)
  Split-snoc P Q (y ∷ xs) x (inl h) k = inl (h.0, Split-snoc P Q xs x h.1 k)
  Split-snoc P Q (y ∷ xs) x (inr h) k = inr (h.0, All-snoc Q xs x h.1 k)

  pub Split_of_first : (P Q : A → Type 0) (xs : List A) → All P xs → Split P Q xs
  Split_of_first P Q [] h = tt
  Split_of_first P Q (x ∷ xs) h = inl (h.0, Split_of_first P Q xs h.1)

  pub Split-tail : (P Q : A → Type 0) (x : A) (xs : List A) → Split P Q (x ∷ xs) → Split P Q xs
  Split-tail P Q x xs (inl h) = h.1
  Split-tail P Q x [] (inr h) = tt
  Split-tail P Q x (y ∷ xs) (inr h) = inr h.1

  pub All_map : (P Q : A → Type 0) (xs : List A) → ((x : A) → P x → Q x) → All P xs → All Q xs
  All_map P Q [] f h = tt
  All_map P Q (x ∷ xs) f h = (f x h.0, All_map P Q xs f h.1)

-- A packet of the chunk in transmission, and one of the chunk before it.
abbrev pub IsCurrent : ℕ → List Text → Packet → Type 0
IsCurrent b [] p = ⊥
IsCurrent b (chunk ∷ later) p = (p.seq ≡ b) × (p.payload ≡ chunk)

abbrev pub IsOld : ℕ → Packet → Type 0
IsOld b p = p.seq ≡ 1 - b

abbrev pub bit_of : Link → ℕ
bit_of l = l.sender.curr_seq

module _ (client : Addr) where
  -- The receiver expects the chunk in transmission.
  pub record Awaiting (l : Link) : Type 0 where
    pub bit : bit_of l < 2
    pub expected : expected_of client l.receiver ≡ bit_of l
    pub packets : Split (IsOld (bit_of l)) (IsCurrent (bit_of l) l.pending) l.to_receiver
    pub acks : All (λ a. a ≡ 1 - bit_of l) l.to_sender
    pub delivered : l.delivered ≡ l.confirmed

  -- The receiver has it, and the sender does not know.
  pub record Holding (l : Link) : Type 0 where
    pub bit : bit_of l < 2
    pub expected : expected_of client l.receiver ≡ 1 - bit_of l
    pub packets : All (IsCurrent (bit_of l) l.pending) l.to_receiver
    pub acks : Split (λ a. a ≡ 1 - bit_of l) (λ a. a ≡ bit_of l) l.to_sender
    pub chunk : Text
    pub later : List Text
    pub pending : l.pending ≡ chunk ∷ later
    pub delivered : l.delivered ≡ l.confirmed ++ chunk ∷ []

  abbrev pub Phase : Link → Type 0
  Phase l = Awaiting l ⊎ Holding l
