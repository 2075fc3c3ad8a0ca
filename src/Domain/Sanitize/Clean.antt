-- ===== src/Domain/Sanitize/Clean.antt =====
-- `SanitizeUserText` as a whole: its result read back, and a second pass over it.
use terminal_social.Common.{ℕ, ◌≡◌, ap, ◌∙◌, sym, List, [], ◌∷◌, arith}
use terminal_social.Text.{Bytes, trim_right}
use terminal_social.Text.Trim.{
  grow, trim_right-cons, trim_right_nil, trim_right-encode, trim_right_idem,
}
use terminal_social.Text.Utf8.{encode, decode}
use terminal_social.Text.Utf8.RoundTrip.{AllScalar, decode-encode}
use terminal_social.Text.Utf8.Scalar.{decode-AllScalar}
use terminal_social.Domain.Sanitize.{sanitize_runes, sanitize_user_text}
use terminal_social.Domain.Sanitize.Automaton.{text, strip}
use terminal_social.Domain.Sanitize.Skips.{sanitize_runes-strip}
use terminal_social.Domain.Sanitize.Safe.{
  AllSafe, IsSafe, strip-AllSafe, strip-AllScalar, strip_self,
}

-- Both properties of the runes survive trimming.
grow-AllSafe : (r : ℕ) (t : List ℕ) → IsSafe r → AllSafe t → AllSafe (grow r t)
grow-AllSafe r [] h k = ground arith
grow-AllSafe r (c ∷ cs) h k = (h, k)

trim_right-AllSafe : (rs : List ℕ) → AllSafe rs → AllSafe (trim_right rs)
trim_right-AllSafe [] h = rw trim_right_nil tt
trim_right-AllSafe (r ∷ rs) h =
    rw trim_right-cons (grow-AllSafe r (trim_right rs) h.0 (trim_right-AllSafe rs h.1))

grow-AllScalar : (r : ℕ) (t : List ℕ) → AllScalar (r ∷ []) → AllScalar t → AllScalar (grow r t)
grow-AllScalar r [] h k = ground arith
grow-AllScalar r (c ∷ cs) h k = (h.0, k)

trim_right-AllScalar : (rs : List ℕ) → AllScalar rs → AllScalar (trim_right rs)
trim_right-AllScalar [] h = rw trim_right_nil tt
trim_right-AllScalar (r ∷ rs) h =
    rw trim_right-cons (grow-AllScalar r (trim_right rs) (h.0, tt) (trim_right-AllScalar rs h.1))

-- The runes that the sanitizer leaves of a text.
pub kept : Bytes → List ℕ
kept s = trim_right (strip text (decode s))

sanitize_user_text-kept : (s : Bytes) → sanitize_user_text s ≡ encode (kept s)
unfolding sanitize_user_text kept
sanitize_user_text-kept s =
    ap (λ rs. trim_right (encode rs)) (sanitize_runes-strip (decode s))
    ∙ trim_right-encode (strip text (decode s))

decode-sanitize_user_text : (s : Bytes) → decode (sanitize_user_text s) ≡ kept s
decode-sanitize_user_text s =
    ap decode (sanitize_user_text-kept s)
    ∙ decode-encode (kept s)
        (unfold kept in trim_right-AllScalar _ (strip-AllScalar text _ (decode-AllScalar s)))

-- Whatever the bytes, the sanitized text reads back, rune by rune, without ESC, DEL or any control
-- character (code below 0x20, or from 0x80 to 0x9F) but newline and tab, and it ends in no newline, tab or space.
pub sanitize_user_text-AllSafe :
    (s : Bytes)
    → AllSafe (decode (sanitize_user_text s))
      × (trim_right (sanitize_user_text s) ≡ sanitize_user_text s)
sanitize_user_text-AllSafe s = (
  rw decode-sanitize_user_text
      (unfold kept in trim_right-AllSafe _ (strip-AllSafe text (decode s))),
  unfold sanitize_user_text in trim_right_idem (encode (sanitize_runes (decode s))),
)

-- A text that is already clean is stored byte for byte: valid UTF-8 of runes without controls, other
-- than newline and tab, that ends in none of newline, tab and space.
pub sanitize_user_text-clean :
    (rs : List ℕ)
    → AllScalar rs
    → AllSafe rs
    → trim_right rs ≡ rs
    → sanitize_user_text (encode rs) ≡ encode rs
sanitize_user_text-clean rs scalar safe trimmed =
    sanitize_user_text-kept (encode rs)
    ∙ ap encode (
        unfold kept in
        (ap (λ t. trim_right (strip text t)) (decode-encode rs scalar)
          ∙ ap trim_right (strip_self rs safe)
          ∙ trimmed))

-- A second pass of the sanitizer changes nothing.
pub sanitize_user_text_idem :
    (s : Bytes) → sanitize_user_text (sanitize_user_text s) ≡ sanitize_user_text s
sanitize_user_text_idem s =
    ap sanitize_user_text (sanitize_user_text-kept s)
    ∙ sanitize_user_text-clean (kept s)
        (unfold kept in trim_right-AllScalar _ (strip-AllScalar text _ (decode-AllScalar s)))
        (unfold kept in trim_right-AllSafe _ (strip-AllSafe text (decode s)))
        (unfold kept in trim_right_idem (strip text (decode s)))
    ∙ sym (sanitize_user_text-kept s)
