-- ===== src/Imap/Guards.antt =====
-- The handlers of imap-server/src/ImapCommandDispatcher.cpp, construct by construct: a selected mailbox
-- has an id, and the counters of the folders stay above the UIDs.
use ua_5308_smtp.Prelude.{
  ℕ, Bool, true, false, not, ◌||◌, ◌≡◌, refl, Option, none, some, Bytes, if◌then◌else◌, Bool-cases,
  Option-cases, inl, inr,
}
use ua_5308_smtp.Effects.{
  M, Outcome, returned, thrown, next, ◌>>=◌, ◌>>◌, return, value, caught, catching, outcome,
  Exception, caught_by, catching_by, throw,
}
use ua_5308_smtp.Database.Rows.{Folder}
use ua_5308_smtp.Database.Engine.{Sql}
use ua_5308_smtp.Database.Keeping.{Kept, Keeps}
use ua_5308_smtp.Database.FolderDal
use ua_5308_smtp.Database.Operations.{folder_by_name-Keeps}
use ua_5308_smtp.Imap.Command.{ImapCommand}
use ua_5308_smtp.Imap.Session.{
  Dispatcher, Server, repo, gets, modify, user_id, is_selected, enter, when_selected, mailbox_id,
}
use ua_5308_smtp.Imap.Mailboxes.{answer}

abbrev is_some : Option ℕ → Bool
is_some none = false
is_some (some n) = true

-- A selected mailbox has an id.
abbrev pub has_mailbox : Dispatcher → Bool
has_mailbox d = not (is_selected d.state) || is_some d.current_mailbox.id

abbrev pub Sound : Server → Type 0
Sound w = Kept w.db × (has_mailbox w.dispatcher ≡ true)

pub record Serves {A : Type 0} (m : M Server A) : Type 0 where
  pub serves : (w : Server) → Sound w → Sound (m w).1

module _ {A : Type 0} where
  pub return-Serves : (a : A) → Serves {A = A} (return a)
  return-Serves a = record { serves = λ w h. h }

  pub value-Serves : (o : Option A) → Serves (value o)
  value-Serves none = record { serves = λ w h. h }
  value-Serves (some a) = record { serves = λ w h. h }

  pub repo-Serves : (m : Sql A) → Keeps m → Serves (repo m)
  repo-Serves m k = record { serves = λ w h. (k.keeps w.db h.0, h.1) }

  pub gets-Serves : (f : Dispatcher → A) → Serves (gets f)
  gets-Serves f = record { serves = λ w h. h }

  next-Sound :
      {B : Type 0} (r : Outcome A × Server) (f : A → M Server B)
      → Sound r.1
      → ((a : A) → Serves (f a))
      → Sound (next r f).1
  next-Sound (returned a, w) f h k = (k a).serves w h
  next-Sound (thrown x, w) f h k = h

  pub bind-Serves :
      {B : Type 0} (m : M Server A) (f : A → M Server B)
      → Serves m
      → ((a : A) → Serves (f a))
      → Serves (m >>= f)
  bind-Serves m f h k = record { serves = λ w s. next-Sound (m w) f (h.serves w s) k }

  pub if-Serves : (b : Bool) (m n : M Server A) → Serves m → Serves n → Serves (if b then m else n)
  if-Serves true m n h k = h
  if-Serves false m n h k = k

pub modify-Serves :
    (f : Dispatcher → Dispatcher)
    → ((d : Dispatcher) → has_mailbox d ≡ true → has_mailbox (f d) ≡ true)
    → Serves (modify f)
modify-Serves f h = record { serves = λ w s. (s.0, h w.dispatcher s.1) }

pub user_id-Serves : Serves user_id
user_id-Serves =
    bind-Serves (gets (λ d. d.authenticated_user_id)) value (gets-Serves _) value-Serves

pub answer-Serves :
    {A : Type 0} (done : Bytes) (failed : Bytes → Bytes) (o : Option A)
    → Serves (answer done failed o)
answer-Serves done failed none = record { serves = λ w h. h }
answer-Serves done failed (some a) = return-Serves done

-- A handler that looks up a mailbox of the user.
pub lookup-Serves :
    {A : Type 0} (name : Bytes) (k : Option Folder → M Server A)
    → ((found : Option Folder) → Serves (k found))
    → Serves (user_id >>= λ user. repo (FolderDal.find_by_name user name) >>= k)
lookup-Serves name k h = bind-Serves user_id _ user_id-Serves (λ user.
    bind-Serves (repo (FolderDal.find_by_name user name)) k
      (repo-Serves _ (folder_by_name-Keeps user name)) h)

-- Code behind `value`, which knows what there was.
value_next-Sound :
    {A B C : Type 0} (r : Outcome B × Server) (o : Option A) (f : A → M Server C)
    → Sound r.1
    → ((a : A) → o ≡ some a → Serves (f a))
    → Sound (next (next r (λ _. value o)) f).1
value_next-Sound (returned b, w) none f h k = h
value_next-Sound (returned b, w) (some a) f h k = (k a refl).serves w h
value_next-Sound (thrown x, w) o f h k = h

pub value_then-Serves :
    {A B C : Type 0} (m : M Server B) (o : Option A) (f : A → M Server C)
    → Serves m
    → ((a : A) → o ≡ some a → Serves (f a))
    → Serves (m >> value o >>= f)
value_then-Serves m o f h k = record { serves = λ w s. value_next-Sound (m w) o f (h.serves w s) k }

pub enter-Serves : (o : Option ℕ) (id : ℕ) → o ≡ some id → Serves (enter o)
enter-Serves o id e = record { serves = λ w s. (s.0, rw e refl) }

pub when_selected-Serves :
    (cmd : ImapCommand) (m : M Server Bytes) → Serves m → Serves (when_selected cmd m)
when_selected-Serves cmd m h = record {
  serves = λ w s. elim (Bool-cases (is_selected w.dispatcher.state)) [
    | inl e ↦ rw e (h.serves w s)
    | inr e ↦ rw e s
  ];
}

pub mailbox_id-Serves : Serves mailbox_id
mailbox_id-Serves = record {
  serves = λ w s. elim (Option-cases w.dispatcher.current_mailbox.id) [
    | inl e ↦ rw e (rw e at s)
    | inr (id, e) ↦ rw e (rw e at s)
  ];
}

caught-Sound :
    {A : Type 0} (r : Outcome A × Server) (handler : M Server A)
    → Sound r.1
    → Serves handler
    → Sound (caught r handler).1
caught-Sound (returned a, w) handler h k = h
caught-Sound (thrown e, w) handler h k = k.serves w h

pub catching-Serves :
    {A : Type 0} (m handler : M Server A) → Serves m → Serves handler → Serves (catching m handler)
catching-Serves m handler h k = record {
  serves = λ w s. caught-Sound (m w) handler (h.serves w s) k;
}

pub outcome-Serves : {A : Type 0} (r : Outcome A) → Serves (outcome r)
outcome-Serves r = record { serves = λ w h. h }

pub throw-Serves : {A : Type 0} (e : Exception) → Serves {A = A} (throw e)
throw-Serves e = record { serves = λ w h. h }

caught_by-Sound :
    {A : Type 0} (r : Outcome A × Server) (handler : Exception → M Server A)
    → Sound r.1
    → ((e : Exception) → Serves (handler e))
    → Sound (caught_by r handler).1
caught_by-Sound (returned a, w) handler h k = h
caught_by-Sound (thrown e, w) handler h k = (k e).serves w h

pub catching_by-Serves :
    {A : Type 0} (m : M Server A) (handler : Exception → M Server A)
    → Serves m
    → ((e : Exception) → Serves (handler e))
    → Serves (catching_by m handler)
catching_by-Serves m handler h k = record {
  serves = λ w s. caught_by-Sound (m w) handler (h.serves w s) k;
}
