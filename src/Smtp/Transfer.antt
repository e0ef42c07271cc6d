-- ===== src/Smtp/Transfer.antt =====
-- server/SmtpSession.cpp: the lines of a message, from DATA to the "." that ends them.
use ua_5308_smtp.Prelude.{
  ◌≤◌, ◌≡◌, sym, ◌∙◌, ap, false, List, [], ◌∷◌, ◌++◌, ltb, Bytes, arith, append_assoc, append-nil,
  length, length-append, equal, codes, All,
}
use ua_5308_smtp.Effects.{M, returned, return, next, ◌>>=◌}
use ua_5308_smtp.Smtp.Services.{Services}
use ua_5308_smtp.Smtp.State.{receiving_data, Session, max_message_size}
use ua_5308_smtp.Smtp.Session.{receive_line, receive_data, process_in, process_line, max_smtp_line}

-- A line that neither ends the message nor is too long.
pub record IsBodyLine (line : Bytes) : Type 0 where
  pub not_dot : equal line (codes ".") ≡ false
  pub fits : length line ≤ max_smtp_line

-- The text of the lines, each with its line feed.
abbrev pub joined : List Bytes → Bytes
joined [] = []
joined (line ∷ lines) = line ++ (b'\n' ∷ joined lines)

receive_line_fits :
    (s : Session) (line : Bytes)
    → length (s.body ++ (line ++ b'\n' ∷ [])) ≤ max_message_size
    → receive_line s line ≡ (record s { body = s.body ++ (line ++ b'\n' ∷ []) }, [])
unfolding receive_line
receive_line_fits s line h = ground arith

module _ (v : Services) where
  open v use {World}

  -- The lines one after the other, and then the ".".
  unfoldable pub process_lines : Session → List Bytes → M World Session
  process_lines s [] = return s
  process_lines s (line ∷ lines) = do p ← process_line v s line; process_lines p.0 lines

  process_line_receiving :
      (s : Session) (line : Bytes) (w : World)
      → s.state ≡ receiving_data
      → ltb max_smtp_line (length line) ≡ false
      → process_line v s line w ≡ process_in v receiving_data s line w
  unfolding process_line
  process_line_receiving s line w at short = simp (at, short)

  receive_body :
      (s : Session) (line : Bytes) (w : World)
      → IsBodyLine line
      → length (s.body ++ (line ++ b'\n' ∷ [])) ≤ max_message_size
      → process_in v receiving_data s line w
        ≡ (returned (record s { body = s.body ++ (line ++ b'\n' ∷ []) }, []), w)
  unfolding process_in receive_data
  receive_body s line w h fits =
      rw h.not_dot (ap (λ r. (returned r, w)) (receive_line_fits s line fits))

  process_line_body :
      (s : Session) (line : Bytes) (w : World)
      → s.state ≡ receiving_data
      → IsBodyLine line
      → length (s.body ++ (line ++ b'\n' ∷ [])) ≤ max_message_size
      → process_line v s line w
        ≡ (returned (record s { body = s.body ++ (line ++ b'\n' ∷ []) }, []), w)
  process_line_body s line w at h fits =
      process_line_receiving s line w at (ground (arith, h.fits)) ∙ receive_body s line w h fits

  -- The body grows by exactly the lines received, each with a line feed; nothing else changes.
  pub process_lines-body :
      (s : Session) (lines : List Bytes) (w : World)
      → s.state ≡ receiving_data
      → All IsBodyLine lines
      → length (s.body ++ joined lines) ≤ max_message_size
      → process_lines s lines w ≡ (returned (record s { body = s.body ++ joined lines }), w)
  unfolding process_lines
  process_lines-body s [] w at h fits = rw (append-nil s.body)
  process_lines-body s (line ∷ lines) w at h fits =
      ap (λ r. next r (λ p. process_lines p.0 lines)) (process_line_body s line w at h.0 first)
      ∙ process_lines-body (record s { body = s.body ++ (line ++ b'\n' ∷ []) }) lines w at h.1
          (rw (← regroup) fits)
      ∙ ap (λ body. (returned (record s { body = body }), w)) (sym regroup)
    where
      regroup :
          s.body ++ (line ++ (b'\n' ∷ joined lines))
          ≡ (s.body ++ (line ++ b'\n' ∷ [])) ++ joined lines
      regroup = simp append_assoc

      first : length (s.body ++ (line ++ b'\n' ∷ [])) ≤ max_message_size
      first =
          omega (
            arith,
            ap length regroup,
            length-append (s.body ++ (line ++ b'\n' ∷ [])) (joined lines),
          )
