-- ===== src/Smtp/Delivery.antt =====
-- `ProcessLine`: when a line delivers a message, and what every other line may do.
use ua_5308_smtp.Prelude.{
  ◌≤◌, ◌≡◌, ◌⊎◌, inl, inr, true, false, Bytes, codes, arith, length, is_empty, equal, Bool-cases,
  equal_iff, if◌then◌else◌,
}
use ua_5308_smtp.Effects.{M, return, ◌>>=◌}
use ua_5308_smtp.Effects.Ensures.{Ensures, Ensures-bind, Ensures-weaken, Ensures-any}
use ua_5308_smtp.Smtp.Services.{Services}
use ua_5308_smtp.Smtp.Save.{save_message}
use ua_5308_smtp.Smtp.Response
use ua_5308_smtp.Smtp.State.{
  State, wait_mail, receiving_data, Session, max_message_size, reset_message,
}
use ua_5308_smtp.Smtp.Session.{Step, receive_data, process_in, process_line}
use ua_5308_smtp.Smtp.Invariant.{Inv, is_receiving}
use ua_5308_smtp.Smtp.Audit.{Audited}
use ua_5308_smtp.Smtp.Lines.{process_line-Accounted}

module _ (v : Services) where
  open v use {World}

  -- The end of a message: the delivery, and then a session with no message under way.
  abbrev pub deliver_and_reset : Session → M World Step
  deliver_and_reset s = do
    saved ← save_message v s
    return (
      record (reset_message s) { state = wait_mail },
      if saved then Response.ok_reply else Response.message_storage_failed,
    )

  -- When a session delivers: it is receiving a message, the client is authenticated over TLS, the
  -- message has a recipient and is no longer than the limit, and the line is ".".
  pub record Delivers (s : Session) (line : Bytes) (w : World) : Type 0 where
    pub receiving : s.state ≡ receiving_data
    pub client : s.authenticated ≡ true
    pub tls : s.secure ≡ true
    pub addressed : is_empty s.recipients ≡ false
    pub bounded : length s.body ≤ max_message_size
    pub dot : line ≡ codes "."
    pub runs : process_line v s line w ≡ deliver_and_reset s w

  is_receiving-eq : (st : State) → is_receiving st ≡ true → st ≡ receiving_data
  is_receiving-eq st h = ground arith

  process_line_dot :
      (s : Session) (w : World)
      → s.state ≡ receiving_data
      → process_line v s (codes ".") w ≡ deliver_and_reset s w
  unfolding process_line process_in receive_data
  process_line_dot s w at = simp at

  Delivers-dot :
      (s : Session) (line : Bytes) (w : World)
      → Inv s
      → is_receiving s.state ≡ true
      → equal line (codes ".") ≡ true
      → Delivers s line w
  Delivers-dot s line w h r d = record {
    receiving = at;
    client = ground arith;
    tls = ground arith;
    addressed = ground arith;
    bounded = h.body_bound;
    dot = same;
    runs = rw same (process_line_dot s w at);
  }
    where
      at : s.state ≡ receiving_data
      at = is_receiving-eq s.state r

      same : line ≡ codes "."
      same = (equal_iff line (codes ".")).0 d

  -- Every line is accounted for. Either it delivers a message, for an authenticated client over TLS;
  -- or it keeps the invariant, changes nothing outside the session but by one check of credentials,
  -- and authenticates the client exactly if that check succeeds. A line that throws then has changed
  -- nothing.
  pub process_line_cases :
      (s : Session) (line : Bytes) (w : World)
      → Inv s
      → Ensures (Audited v s w) (λ w'. w' ≡ w) (process_line v s line w) ⊎ Delivers s line w
  process_line_cases s line w h = elim (Bool-cases (is_receiving s.state)) [
    | inr r ↦ inl (process_line-Accounted v s line w h (rw r))
    | inl r ↦ elim (Bool-cases (equal line (codes "."))) [
      | inl d ↦ inr (Delivers-dot s line w h r d)
      | inr d ↦ inl (process_line-Accounted v s line w h (rw (r, d)))
    ]
  ]

  deliver_and_reset-Inv :
      (s : Session) (w : World)
      → Inv s
      → s.state ≡ receiving_data
      → Ensures (λ r _. Inv r.0) (λ _. Unit) (deliver_and_reset s w)
  deliver_and_reset-Inv s w h at =
      Ensures-bind (λ r _. Inv r.0) (λ _. Unit) (λ _ _. Unit {0}) (save_message v s) _ w
        (Ensures-any (λ _ _. Unit) (save_message v s w) (λ _ _. tt)) (λ saved w' _. ground arith)

  -- Every line that is processed without an exception keeps the invariant.
  pub process_line-Inv :
      (s : Session) (line : Bytes) (w : World)
      → Inv s
      → Ensures (λ r _. Inv r.0) (λ _. Unit) (process_line v s line w)
  process_line-Inv s line w h = elim (process_line_cases s line w h) [
    | inl a ↦
        Ensures-weaken (Audited v s w) (λ r _. Inv r.0) (λ w'. w' ≡ w) (λ _. Unit)
          (process_line v s line w) (λ r w' q. q.keeps) (λ w' e. tt) a
    | inr d ↦ rw d.runs (deliver_and_reset-Inv s w h d.receiving)
  ]
