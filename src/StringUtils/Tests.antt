-- ===== src/StringUtils/Tests.antt =====
-- `WrapText` at a concrete input.
use ua_5308_smtp.Prelude.{◌≡◌, refl, some, Bytes, codes}
use ua_5308_smtp.StringUtils.Wrap.{wrap_text}
use ua_5308_smtp.StringUtils.WrapSound.{visible, visible-wrap_text}

wrap_words : wrap_text 6 (codes "ab cd efgh\nij") ≡ some (codes "ab cd\r\nefgh\r\nij\r\n")
unfolding wrap_text
wrap_words = refl

visible-wrap_text_example :
    (out : Bytes) × (wrap_text 6 (codes "ab cd ef") ≡ some out)
    × (visible out ≡ visible (codes "ab cd ef"))
visible-wrap_text_example = visible-wrap_text 6 (codes "ab cd ef")
