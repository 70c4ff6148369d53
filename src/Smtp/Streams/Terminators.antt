-- ===== src/Smtp/Streams/Terminators.antt =====
-- Where the end of a message is found, in smtp_server.py, and that it is not found before.
use rdt_mail_service.Prelude.{
  ℕ, suc, ◌+◌, ◌≤◌, ◌<◌, ◌≡◌, refl, sym, ◌∙◌, inl, inr, true, false, [], ◌∷◌, ◌++◌, none, some,
  length, arith, Bool-cases, Option-cases, nat_eq,
}
use rdt_mail_service.Prelude.Text.{Text, starts_with, find}
use rdt_mail_service.Smtp.Streams.Chunks.{starts_with-append}

pub found_nothing : {A : Type 0} {a : A} → none ≡ some a → ⊥
found_nothing h = cc

some_eq : {i j : ℕ} → some i ≡ some j → j ≡ i
some_eq h = cc

starts_with-length : (s p : Text) → starts_with s p ≡ true → length p ≤ length s
unfolding starts_with
starts_with-length s [] h = omega arith
starts_with-length [] (c ∷ p) h = cc
starts_with-length (d ∷ s) (c ∷ p) h = ground (arith, starts_with-length s p)

module _ (c : ℕ) (p : Text) (d : ℕ) (s : Text) where
  find_past :
      starts_with (d ∷ s) (c ∷ p) ≡ false → find (c ∷ p) s ≡ none → find (c ∷ p) (d ∷ s) ≡ none
  unfolding find
  find_past h k = rw (h, k) refl

  find_first : starts_with (d ∷ s) (c ∷ p) ≡ true → find (c ∷ p) (d ∷ s) ≡ some 0
  unfolding find
  find_first h = rw h refl

  find_next :
      (i : ℕ)
      → starts_with (d ∷ s) (c ∷ p) ≡ false
      → find (c ∷ p) (d ∷ s) ≡ some i
      → (j : ℕ) × (i ≡ suc j) × (find (c ∷ p) s ≡ some j)
  unfolding find
  find_next i h k = elim (Option-cases (find (c ∷ p) s)) [
    | inl n ↦ absurd (found_nothing (rw (h, n) at k))
    | inr (j, e) ↦ (j, some_eq (rw (h, e) at k), e)
  ]

not_started : (s p : Text) → length s < length p → starts_with s p ≡ false
not_started s p h = elim (Bool-cases (starts_with s p)) [
  | inl y ↦ absurd (omega (arith, starts_with-length s p y))
  | inr n ↦ n
]

find_short : (c : ℕ) (p s : Text) → length s < length (c ∷ p) → find (c ∷ p) s ≡ none
find_short c p [] h = (unfold find in refl)
find_short c p (d ∷ s) h =
    find_past c p d s (not_started (d ∷ s) (c ∷ p) h) (find_short c p s (omega arith))

-- Before the place where a text is found, it is not found.
pub find-shorter :
    (c : ℕ) (p s t : Text) (i : ℕ)
    → find (c ∷ p) (s ++ t) ≡ some i
    → length s < i + length (c ∷ p)
    → find (c ∷ p) s ≡ none
find-shorter c p [] t i h k = (unfold find in refl)
find-shorter c p (d ∷ s) t i h k = elim (Bool-cases (starts_with (d ∷ s ++ t) (c ∷ p))) [
  | inl here ↦
      let first : i ≡ 0 = some_eq (sym (find_first c p d (s ++ t) here) ∙ h) in
      find_short c p (d ∷ s) (omega arith)
  | inr there ↦
      let (j, e, f) = find_next c p d (s ++ t) i there h in
      find_past c p d s (starts_with-append (d ∷ s) t (c ∷ p) there)
        (find-shorter c p s t j f (omega arith))
]
