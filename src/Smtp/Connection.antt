-- ===== src/Smtp/Connection.antt =====
-- server/server_main.cpp: the loop that serves one connection. What the network does is an input: for
-- each round the line received, whether the reply can be sent, and whether the TLS handshake that
-- may follow succeeds. A connection ends when no line is received, when one of these fails, when the
-- session is closed, or by an exception.
use ua_5308_smtp.Prelude.{
  subst, ◌≡◌, refl, ap, ◌∙◌, ◌||◌, Bool, true, false, not, ◌&&◌, List, [], ◌∷◌, Bytes, arith,
  is_empty, if◌then◌else◌,
}
use ua_5308_smtp.Effects.{M, Outcome, returned, return, ◌>>=◌}
use ua_5308_smtp.Effects.Ensures.{Ensures, Ensures-bind, Ensures-if}
use ua_5308_smtp.Smtp.Services.{Services}
use ua_5308_smtp.Smtp.State.{
  State, starttls, Session, initial, is_closed, reset_to_helo, set_secure,
}
use ua_5308_smtp.Smtp.Session.{Step, process_line}
use ua_5308_smtp.Smtp.Invariant.{Inv, initial-Inv, upgrade-Inv}
use ua_5308_smtp.Smtp.Channel.{process_line-Same}
use ua_5308_smtp.Smtp.Delivery.{process_line-Inv}

pub record Round : Type 0 where
  pub line : Bytes
  pub sent : Bool
  pub handshake : Bool

abbrev is_starttls : State → Bool
is_starttls starttls = true
is_starttls _ = false

-- The session for the next round, or none where the loop breaks. An empty reply is not sent.
unfoldable pub after_reply : Round → Step → Session × Bool
after_reply r (s, response) =
    if not (is_empty response) && not r.sent
    then (s, false)
    else if is_starttls s.state
    then (if not r.handshake
        then (s, false)
        else (let upgraded = reset_to_helo (set_secure true s) in
            (upgraded, not (is_closed upgraded))))
    else (s, not (is_closed s))

pub after_reply-Inv : (r : Round) (p : Step) → Inv p.0 → Inv (after_reply r p).0
unfolding after_reply
after_reply-Inv r (s, response) h = ground (arith, upgrade-Inv s h)

module _ (v : Services) where
  open v use {World}

  -- The loop: the session at its end.
  unfoldable pub serve : List Round → Session → M World Session
  unfolding after_reply
  serve [] s = return s
  serve (r ∷ rs) s = do
    p ← process_line v s r.line
    let (s', more) = after_reply r p
    let rest = serve rs s'
    if more then rest else return s'

  -- The sessions, lines and worlds that a connection can bring about, from one that is accepted.
  pub data Reaches (domain : Bytes) (has_logger : Bool) : Session → World → Type 0 where
    accepted : (w : World) → Reaches domain has_logger (initial domain has_logger) w
    round :
        {s : Session} {w w' : World} {p : Step} (r : Round)
        → Reaches domain has_logger s w
        → process_line v s r.line w ≡ (returned p, w')
        → (after_reply r p).1 ≡ true
        → Reaches domain has_logger (after_reply r p).0 w'
    elsewhere :
        {s : Session} {w : World} (w' : World)
        → Reaches domain has_logger s w
        → Reaches domain has_logger s w'

  returned-Inv :
      {r : Outcome Step × World} {p : Step} {w : World}
      → r ≡ (returned p, w)
      → Ensures (λ q _. Inv q.0) (λ _. Unit) r
      → Inv p.0
  returned-Inv e h = subst (Ensures (λ q _. Inv q.0) (λ _. Unit)) e h

  -- Every session that a connection can reach satisfies the invariant.
  pub Reaches-Inv :
      {domain : Bytes} {has_logger : Bool} {s : Session} {w : World}
      → Reaches domain has_logger s w
      → Inv s
  Reaches-Inv (accepted w) = initial-Inv _ _
  Reaches-Inv (round {s} {w} {w'} {p} r reached e more) =
      after_reply-Inv r p (returned-Inv e (process_line-Inv v s r.line w (Reaches-Inv reached)))
  Reaches-Inv (elsewhere w' reached) = Reaches-Inv reached

  -- The round upgraded the channel: its line led to STARTTLS, the reply was sent, and then the handshake
  -- succeeded.
  abbrev pub upgrades : Round → Step → Bool
  upgrades r (s, response) = is_starttls s.state && ((is_empty response || r.sent) && r.handshake)

  -- Whether some round on the way did.
  unfoldable pub upgraded :
      {domain : Bytes} {has_logger : Bool} {s : Session} {w : World}
      → Reaches domain has_logger s w
      → Bool
  upgraded (accepted w) = false
  upgraded (round {s} {w} {w'} {p} r reached e more) = upgrades r p || upgraded reached
  upgraded (elsewhere w' reached) = upgraded reached

  returned-same :
      {r : Outcome Step × World} {p : Step} {w : World} {b : Bool}
      → r ≡ (returned p, w)
      → Ensures (λ q _. q.0.secure ≡ b) (λ _. Unit) r
      → p.0.secure ≡ b
  returned-same {b = b} e h = subst (Ensures (λ q _. q.0.secure ≡ b) (λ _. Unit)) e h

  after_reply-secure :
      (r : Round) (p : Step)
      → (after_reply r p).1 ≡ true
      → (after_reply r p).0.secure ≡ (upgrades r p || p.0.secure)
  unfolding after_reply
  after_reply-secure r (s, response) more = ground arith

  -- A session that a connection reaches is secure exactly if, in some round on the way, a line led to
  -- STARTTLS, the reply to it was sent, and the handshake succeeded.
  pub Reaches-secure :
      {domain : Bytes} {has_logger : Bool} {s : Session} {w : World}
      (reached : Reaches domain has_logger s w)
      → s.secure ≡ upgraded reached
  unfolding upgraded
  Reaches-secure (accepted w) = refl
  Reaches-secure (round {s} {w} {w'} {p} r reached e more) =
      after_reply-secure r p more
      ∙ ap (λ b. upgrades r p || b)
          (returned-same e (process_line-Same v s r.line w) ∙ Reaches-secure reached)
  Reaches-secure (elsewhere w' reached) = Reaches-secure reached

  -- The loop keeps the invariant, whatever lines it receives and wherever it stops, unless an exception
  -- ends it.
  serve-Inv :
      (rs : List Round) (s : Session) (w : World)
      → Inv s
      → Ensures (λ s' _. Inv s') (λ _. Unit) (serve rs s w)
  unfolding serve
  serve-Inv [] s w h = h
  serve-Inv (r ∷ rs) s w h =
      Ensures-bind (λ s' _. Inv s') (λ _. Unit) (λ p _. Inv p.0) (process_line v s r.line) _ w
        (process_line-Inv v s r.line w h)
        (λ p w' k.
          Ensures-if (λ s' _. Inv s') (λ _. Unit) (after_reply r p).1 (serve rs (after_reply r p).0)
            (return (after_reply r p).0) w'
            (λ more. serve-Inv rs (after_reply r p).0 w' (after_reply-Inv r p k))
            (λ stop. after_reply-Inv r p k))
