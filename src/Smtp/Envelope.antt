-- ===== src/Smtp/Envelope.antt =====
-- server/SmtpParser.cpp: the lines that name the sender and the recipients of a message.
use ua_5308_smtp.Prelude.{
  ℕ, zero, suc, ◌+◌, ◌-◌, ◌≤◌, ◌≡◌, refl, sym, ◌∙◌, ap, Bool, true, false, not, some, [], ◌∷◌, ◌++◌,
  ◌==◌, leb, Bytes, codes, arith, length, length-append, is_blank, back_is, find_last_index?, take,
  drop, to_upper, upper_byte, length-to_upper, append_assoc, drop-append, take-append,
}
use ua_5308_smtp.StringUtils
use ua_5308_smtp.Smtp.Command.{mail, rcpt}
use ua_5308_smtp.Smtp.Parser.{trim, strip_angle_brackets, parse_clean, strip_cr, parse}

abbrev pub bracketed : Bytes → Bytes
bracketed address = b'<' ∷ (address ++ b'>' ∷ [])

back_of : (s : Bytes) (c d : ℕ) → back_is c (s ++ d ∷ []) ≡ (d == c)
back_of [] c d = refl
back_of (x ∷ []) c d = refl
back_of (x ∷ y ∷ s) c d = back_of (y ∷ s) c d

last_of :
    (p : ℕ → Bool) (s : Bytes) (d : ℕ)
    → p d ≡ true
    → find_last_index? p (s ++ d ∷ []) ≡ some (length s)
last_of p [] d h = rw h
last_of p (x ∷ s) d h = rw (last_of p s d h)

take_whole : (s : Bytes) (n : ℕ) → length s ≤ n → take n s ≡ s
take_whole [] zero h = refl
take_whole [] (suc n) h = refl
take_whole (c ∷ s) zero h = absurd (omega arith)
take_whole (c ∷ s) (suc n) h = ap (◌∷◌ c) (take_whole s n (omega arith))

trim-bracketed : (address : Bytes) → trim (bracketed address) ≡ bracketed address
unfolding trim StringUtils.trim
trim-bracketed address =
    rw (StringUtils.trim, last_of (λ c. not (is_blank c)) (b'<' ∷ address) b'>' refl)
      (take_whole (bracketed address) (suc (length address) - 0 + 1)
        (omega (arith, length-append address (b'>' ∷ []))))

strip-bracketed : (address : Bytes) → strip_angle_brackets (bracketed address) ≡ address
unfolding strip_angle_brackets
strip-bracketed address =
    rw (long, back_of (b'<' ∷ address) b'>' b'>', inner) (take-append address (b'>' ∷ []))
  where
    long : leb 2 (length (bracketed address)) ≡ true
    long = ground (arith, length-append address (b'>' ∷ []))

    inner : length (bracketed address) - 2 ≡ length address
    inner = omega (arith, length-append address (b'>' ∷ []))

to_upper-append : (s t : Bytes) → to_upper (s ++ t) ≡ to_upper s ++ to_upper t
to_upper-append [] t = refl
to_upper-append (c ∷ s) t = ap (◌∷◌ (upper_byte c)) (to_upper-append s t)

strip_cr-bracketed :
    (keyword address : Bytes)
    → strip_cr (keyword ++ bracketed address) ≡ keyword ++ bracketed address
strip_cr-bracketed keyword address = ground (arith, last)
  where
    last : back_is b'\r' (keyword ++ bracketed address) ≡ false
    last =
        ap (back_is b'\r') (sym (append_assoc keyword (b'<' ∷ address) (b'>' ∷ [])))
        ∙ back_of (keyword ++ b'<' ∷ address) b'\r' b'>'

drop_keyword : (keyword rest : Bytes) (n : ℕ) → length keyword ≡ n → drop n (keyword ++ rest) ≡ rest
drop_keyword keyword rest n h = rw (sym h) (drop-append keyword rest)

argument-bracketed :
    (keyword address : Bytes) (n : ℕ)
    → length keyword ≡ n
    → strip_angle_brackets (trim (drop n (keyword ++ bracketed address))) ≡ address
argument-bracketed keyword address n h =
    ap (λ s. strip_angle_brackets (trim s)) (drop_keyword keyword (bracketed address) n h)
    ∙ ap strip_angle_brackets (trim-bracketed address)
    ∙ strip-bracketed address

length_keyword : (keyword upper : Bytes) → to_upper keyword ≡ upper → length keyword ≡ length upper
length_keyword keyword upper h = sym (length-to_upper keyword) ∙ ap length h

upper_line :
    (keyword address upper : Bytes)
    → to_upper keyword ≡ upper
    → parse (keyword ++ bracketed address)
      ≡ parse_clean (keyword ++ bracketed address) (upper ++ to_upper (bracketed address))
unfolding parse
upper_line keyword address upper h =
    ap (λ clean. parse_clean clean (to_upper clean)) (strip_cr-bracketed keyword address)
    ∙ ap (parse_clean (keyword ++ bracketed address)) (
        to_upper-append keyword (bracketed address) ∙ ap (λ u. u ++ to_upper (bracketed address)) h)

clean_mail :
    (line rest : Bytes)
    → parse_clean line (codes "MAIL FROM:" ++ rest)
      ≡ record { type = mail; argument = strip_angle_brackets (trim (drop 10 line)) }
unfolding parse_clean
clean_mail line rest = refl

clean_rcpt :
    (line rest : Bytes)
    → parse_clean line (codes "RCPT TO:" ++ rest)
      ≡ record { type = rcpt; argument = strip_angle_brackets (trim (drop 8 line)) }
unfolding parse_clean
clean_rcpt line rest = refl

-- MAIL FROM and RCPT TO, in any case of letters, with an address in angle brackets: the argument is
-- the address, byte for byte.
pub parse-bracketed :
    (mail_from rcpt_to address : Bytes)
    → to_upper mail_from ≡ codes "MAIL FROM:"
    → to_upper rcpt_to ≡ codes "RCPT TO:"
    → (parse (mail_from ++ bracketed address) ≡ record { type = mail; argument = address })
      × (parse (rcpt_to ++ bracketed address) ≡ record { type = rcpt; argument = address })
parse-bracketed mail_from rcpt_to address m r = (
  upper_line mail_from address (codes "MAIL FROM:") m
      ∙ clean_mail (mail_from ++ bracketed address) (to_upper (bracketed address))
      ∙ ap (λ a. record { type = mail; argument = a })
          (argument-bracketed mail_from address 10
            (length_keyword mail_from (codes "MAIL FROM:") m)),
  upper_line rcpt_to address (codes "RCPT TO:") r
      ∙ clean_rcpt (rcpt_to ++ bracketed address) (to_upper (bracketed address))
      ∙ ap (λ a. record { type = rcpt; argument = a })
          (argument-bracketed rcpt_to address 8 (length_keyword rcpt_to (codes "RCPT TO:") r)),
)
