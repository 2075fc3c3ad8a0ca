-- ===== src/Tests/Texts.antt =====
-- Texts and the sanitizer.
use terminal_social.Common.{ℕ, ◌≡◌, refl, List, [], ◌∷◌, ◌++◌, inr}
use terminal_social.Text.{codes, trim_right}
use terminal_social.Text.Utf8.{encode, decode}
use terminal_social.Text.Utf8.RoundTrip.{AllScalar, decode-encode}
use terminal_social.Domain.Sanitize.{sanitize_runes, sanitize_user_text}
use terminal_social.Domain.Sanitize.Automaton.{strip}
use terminal_social.Domain.Sanitize.Skips.{sanitize_runes-strip}
use terminal_social.Domain.Sanitize.Safe.{AllSafe}
use terminal_social.Domain.Sanitize.Clean.{
  sanitize_user_text-AllSafe, sanitize_user_text-clean, sanitize_user_text_idem,
}
use terminal_social.Tests.World.{hello}

-- `ESC [ 3 1 m h i ESC ] 0 ; x BEL !`.
abbrev coloured : List ℕ
coloured = 0x1B ∷ codes "[31mhi" ++ 0x1B ∷ codes "]0;x" ++ 0x07 ∷ codes "!"

sanitize_runes-strip_example : sanitize_runes coloured ≡ codes "hi!"
unfolding strip
sanitize_runes-strip_example = sanitize_runes-strip coloured

sanitize_user_text-AllSafe_example :
    AllSafe (decode (sanitize_user_text (encode coloured)))
    × (trim_right (sanitize_user_text (encode coloured)) ≡ sanitize_user_text (encode coloured))
sanitize_user_text-AllSafe_example = sanitize_user_text-AllSafe (encode coloured)

sanitize_user_text_idem_example :
    sanitize_user_text (sanitize_user_text (encode coloured)) ≡ sanitize_user_text (encode coloured)
sanitize_user_text_idem_example = sanitize_user_text_idem (encode coloured)

-- A letter, a rune of two bytes, one of three and one of four.
abbrev mixed : List ℕ
mixed = 0x41 ∷ 0xE9 ∷ 0x20AC ∷ 0x1F600 ∷ []

mixed-AllScalar : AllScalar mixed
mixed-AllScalar = (refl, (refl, (refl, (refl, tt))))

decode-encode_example : decode (encode mixed) ≡ mixed
decode-encode_example = decode-encode mixed mixed-AllScalar

-- A text of printable letters is stored as it is.
pub sanitize_user_text-hello : sanitize_user_text (encode hello) ≡ encode hello
unfolding trim_right
sanitize_user_text-hello =
    sanitize_user_text-clean hello (refl, (refl, (refl, (refl, (refl, tt)))))
      (inr (inr refl), (inr (inr refl), (inr (inr refl), (inr (inr refl), (inr (inr refl), tt)))))
      refl

sanitize_user_text-clean_example : sanitize_user_text (encode mixed) ≡ encode mixed
unfolding trim_right
sanitize_user_text-clean_example =
    sanitize_user_text-clean mixed mixed-AllScalar
      (inr (inr refl), (inr (inr refl), (inr (inr refl), (inr (inr refl), tt)))) refl
