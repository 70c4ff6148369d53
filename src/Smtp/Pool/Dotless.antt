-- ===== src/Smtp/Pool/Dotless.antt =====
-- Packets without a full stop, which do not end a message in smtp_server.py.
use mathlib.Core.List.{Perm, Permᴰ}
use mathlib.Core.Bool.{Bool-set}
use mathlib.Core.Logic.{∥∥₁_elim}
use rdt_mail_service.Smtp.Streams.Chunks.{concat}
use rdt_mail_service.Prelude.{
  sym, ◌∙◌, ◌≡◌, refl, Bool, true, false, not, ◌&&◌, List, [], ◌∷◌, ◌++◌, none, arith, nat_eq, ◌==◌,
}
use rdt_mail_service.Prelude.Text.{Text, find, starts_with}
use rdt_mail_service.Smtp.Streams.{smtp_terminator}

-- No full stop.
abbrev pub dotless : Text → Bool
dotless [] = true
dotless (c ∷ s) = not (c == b'.') && dotless s

starts_dotless : (s : Text) → dotless s ≡ true → starts_with s smtp_terminator ≡ false
unfolding starts_with
starts_dotless [] h = refl
starts_dotless (c ∷ []) h = ground arith
starts_dotless (c ∷ d ∷ []) h = ground arith
starts_dotless (c ∷ d ∷ e ∷ s) h = ground arith

pub find-dotless : (s : Text) → dotless s ≡ true → find smtp_terminator s ≡ none
unfolding find
find-dotless [] h = refl
find-dotless (c ∷ s) h = ground (arith, starts_dotless (c ∷ s), find-dotless s)

pub dotless-append : (s t : Text) → dotless s ≡ true → dotless t ≡ true → dotless (s ++ t) ≡ true
dotless-append [] t h k = k
dotless-append (c ∷ s) t h k = ground (arith, dotless-append s t)

dotless-both : (s t : Text) → dotless (s ++ t) ≡ (dotless s && dotless t)
dotless-both [] t = refl
dotless-both (c ∷ s) t = ground (arith, dotless-both s t)

same_dotless : {ts us : List Text} → Permᴰ ts us → dotless (concat ts) ≡ dotless (concat us)
same_dotless Permᴰ.nil = refl
same_dotless (Permᴰ.cons {a = t} {b = u} {l₁ = ts} {l₂ = us} e p) =
    dotless-both t (concat ts) ∙ rw (e, same_dotless p) refl ∙ sym (dotless-both u (concat us))
same_dotless (Permᴰ.swap {a = t} {b = u} {l = ts} e f) =
    rw (sym e, sym f)
      (ground (
        arith,
        dotless-both t (u ++ concat ts),
        dotless-both u (concat ts),
        dotless-both u (t ++ concat ts),
        dotless-both t (concat ts),
      ))
same_dotless (Permᴰ.trans p q) = same_dotless p ∙ same_dotless q

-- Without a full stop in any packet, no order of them has one.
pub Perm-dotless :
    {ts us : List Text} → Perm ts us → dotless (concat us) ≡ true → dotless (concat ts) ≡ true
Perm-dotless p h = ∥∥₁_elim p (Bool-set _ _) (λ d. same_dotless d ∙ h)
