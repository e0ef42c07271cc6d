-- ===== src/Imap/Fetch.antt =====
-- imap-server/src/ImapCommandDispatcher.cpp: `HandleFetch` and `HandleUidFetch`.
use ua_5308_smtp.Prelude.{
  ℕ, suc, false, ◌+◌, ◌-◌, ◌^◌, Bool, none, some, List, [], ◌∷◌, ◌++◌, ◌==◌, Bytes, codes, equal,
  to_upper, length, to_string, if◌then◌else◌,
}
use ua_5308_smtp.Prelude.Int.{ℤ, pos, negsuc}
use ua_5308_smtp.Effects.{M, ◌>>=◌, return, catching_by, Exception, invalid_argument, runtime_error}
use ua_5308_smtp.Database.Rows.{Message}
use ua_5308_smtp.Imap.Command.{ImapCommand}
use ua_5308_smtp.Imap.Session.{Server, Handler, repo, when_selected, mailbox_id, find_by_folder}
use ua_5308_smtp.Imap.Status.{split_args, trim_parentheses}
use ua_5308_smtp.Imap.Sequence.{pop_space}
use ua_5308_smtp.Imap.Store.{sequence_set, max_int64, find_by_uid}
use ua_5308_smtp.Imap.Copy.{selected_messages}
use ua_5308_smtp.Imap.Bodies.{combine_sections}
use ua_5308_smtp.Imap.Items.{Outside, fetch_items}
use ua_5308_smtp.Imap.Response

abbrev fast_items : List Bytes
fast_items = codes "FLAGS" ∷ codes "INTERNALDATE" ∷ codes "RFC822.SIZE" ∷ []

-- What stands for an item in upper case.
abbrev pub expand_item : Bytes → List Bytes
expand_item upper_item =
    if equal upper_item (codes "ALL")
    then fast_items ++ codes "ENVELOPE" ∷ []
    else if equal upper_item (codes "FAST")
    then fast_items
    else if equal upper_item (codes "FULL")
    then fast_items ++ codes "ENVELOPE" ∷ codes "BODY" ∷ []
    else upper_item ∷ []

abbrev pub expand_items : List Bytes → List Bytes
expand_items [] = []
expand_items (item ∷ data_items) = expand_item (to_upper item) ++ expand_items data_items

-- `expanded_items`, from the second argument.
unfoldable pub requested_items : Bytes → List Bytes
unfolding split_args trim_parentheses combine_sections
requested_items argument =
    expand_items (combine_sections none (split_args (trim_parentheses argument)))

-- The line of a message, whose text starts with `prefix`.
unfoldable pub fetch_message : Outside → Bytes → List Bytes → Bytes → ℕ → Message → M Server Bytes
unfolding fetch_items Response.fetch
fetch_message o argument items prefix seq_num msg =
    fetch_items o msg argument items prefix >>= λ fetch_response.
    return (Response.fetch seq_num (pop_space fetch_response ++ codes ")"))

-- The `size_t` of an `int64_t`.
abbrev pub as_size : ℤ → ℕ
as_size (pos n) = n
as_size (negsuc n) = 2 ^ 64 - 1 - n

-- The loop of FETCH: the next message is shown with the next id of the set.
unfoldable pub fetch_loop :
    Outside → Bytes → List Bytes → List ℤ → List Message → Bytes → M Server Bytes
unfolding fetch_message
fetch_loop o argument items [] messages response = return response
fetch_loop o argument items (_ ∷ _) [] response = return response
fetch_loop o argument items (id ∷ lists_ids) (msg ∷ messages) response =
    fetch_message o argument items (codes "(") (as_size id) msg >>= λ text.
    fetch_loop o argument items lists_ids messages (response ++ text)

-- The answers to exceptions.
abbrev pub fetch_failed : ImapCommand → Exception → M Server Bytes
fetch_failed cmd (invalid_argument text) = return (Response.bad cmd.tag text)
fetch_failed cmd (runtime_error text) = return (Response.bad cmd.tag text)
fetch_failed cmd _ = return (Response.bad cmd.tag (codes "Invalid message sequence"))

abbrev pub third_argument : Outside → List Bytes → Bytes
third_argument o [] = o.beyond
third_argument o (argument ∷ _) = argument

abbrev pub fetch_body : Outside → ImapCommand → Bytes → Bytes → Bytes → M Server Bytes
fetch_body o cmd set items argument = mailbox_id >>= λ folder.
    repo (find_by_folder folder) >>= λ messages.
    sequence_set o.machine set (pos (length messages)) >>= λ lists_ids.
    fetch_loop o argument (requested_items items) lists_ids (selected_messages messages lists_ids)
      []
    >>= λ response. return (response ++ Response.ok cmd.tag (codes "Fetch completed"))

abbrev pub fetch_args :
    Outside → (Bytes → Bytes → Bytes → M Server Bytes) → ImapCommand → List Bytes → M Server Bytes
fetch_args o body cmd (set ∷ items ∷ rest) =
    catching_by (body set items (third_argument o rest)) (fetch_failed cmd)
fetch_args o body cmd _ = return (Response.bad cmd.tag (codes "Missing arguments"))

unfoldable pub handle_fetch : Outside → Handler
unfolding fetch_loop requested_items
handle_fetch o cmd = when_selected cmd (fetch_args o (fetch_body o cmd) cmd cmd.args)

abbrev is_uid : ℤ → ℕ → Bool
is_uid (pos n) uid = n == uid
is_uid (negsuc n) uid = false

-- The place of the UID among the messages, from `i` on, or 0.
abbrev pub seq_num_of : ℤ → ℕ → List Message → ℕ
seq_num_of uid i [] = 0
seq_num_of uid i (msg ∷ all_messages) =
    let rest = seq_num_of uid (suc i) all_messages in if is_uid uid msg.uid then i + 1 else rest

unfoldable pub uid_fetch_loop :
    Outside → Bytes → List Bytes → List Message → List ℤ → Bytes → M Server Bytes
unfolding fetch_message
uid_fetch_loop o argument items all_messages [] response = return response
uid_fetch_loop o argument items all_messages (uid ∷ uids) response = mailbox_id >>= λ folder.
    repo (find_by_uid folder uid) >>= λ found. elim found [
      | none ↦ uid_fetch_loop o argument items all_messages uids response
      | some msg ↦
          fetch_message o argument items (codes "(UID " ++ (to_string msg.uid ++ codes " "))
            (seq_num_of uid 0 all_messages) msg
          >>= λ text. uid_fetch_loop o argument items all_messages uids (response ++ text)
    ]

abbrev pub uid_fetch_body : Outside → ImapCommand → Bytes → Bytes → Bytes → M Server Bytes
uid_fetch_body o cmd set items argument = sequence_set o.machine set max_int64 >>= λ uids.
    mailbox_id >>= λ folder. repo (find_by_folder folder) >>= λ all_messages.
    uid_fetch_loop o argument (requested_items items) all_messages uids [] >>= λ response.
    return (response ++ Response.ok cmd.tag (codes "Uid Fetch completed"))

unfoldable pub handle_uid_fetch : Outside → Handler
unfolding uid_fetch_loop requested_items
handle_uid_fetch o cmd = when_selected cmd (fetch_args o (uid_fetch_body o cmd) cmd cmd.args)
