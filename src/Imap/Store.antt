-- ===== src/Imap/Store.antt =====
-- imap-server/src/ImapCommandDispatcher.cpp: the handlers of STORE and UID STORE.
use ua_5308_smtp.Prelude.{
  ℕ, suc, ◌+◌, ◌-◌, ◌^◌, Bool, not, ◌||◌, Option, none, some, List, [], ◌∷◌, ◌++◌, ◌==◌, ltb, map,
  Bytes, codes, equal, length, get_elem?, to_string, if◌then◌else◌,
}
use ua_5308_smtp.Prelude.Int.{ℤ, pos, negsuc, to_u32}
use ua_5308_smtp.Prelude.Search.{contains}
use ua_5308_smtp.Effects.{M, ◌>>=◌, return, value, outcome, catching}
use ua_5308_smtp.Database.Rows.{Message}
use ua_5308_smtp.Database.Engine.{Sql, select}
use ua_5308_smtp.Database.MessageDal
use ua_5308_smtp.Database.Repository.Flagging
use ua_5308_smtp.Imap.Command.{ImapCommand}
use ua_5308_smtp.Imap.Session.{Server, Handler, repo, when_selected, mailbox_id, find_by_folder}
use ua_5308_smtp.Imap.Status.{split_args, trim_parentheses}
use ua_5308_smtp.Imap.Sequence.{Machine, int64_bound, parse_sequence_set, format_flags_response}
use ua_5308_smtp.Imap.Response

abbrev pub is_system_flag : Bytes → Bool
is_system_flag f =
    equal f (codes "\\Seen")
    || equal f (codes "\\Deleted")
    || equal f (codes "\\Draft")
    || equal f (codes "\\Answered")
    || equal f (codes "\\Flagged")
    || equal f (codes "\\Recent")

-- The first flag that is not one of the six.
abbrev pub unknown_flag : List Bytes → Option Bytes
unknown_flag [] = none
unknown_flag (f ∷ flags) = if is_system_flag f then unknown_flag flags else some f

-- `operation + f` for '+' and '-'; the operation is the first byte of the argument, or 0.
abbrev pub first_byte : Bytes → ℕ
first_byte [] = 0
first_byte (c ∷ s) = c

abbrev pub flags_to_send : ℕ → List Bytes → List Bytes
flags_to_send operation raw_flags =
    if operation == b'+' || operation == b'-' then map (λ f. operation ∷ f) raw_flags else raw_flags

-- The `int` that an `int64_t` is converted to, if it is positive.
abbrev pub positive_int : ℤ → Option ℕ
positive_int id =
    let seq_num = to_u32 id in
    if seq_num == 0 || not (ltb seq_num (2 ^ 31)) then none else some seq_num

-- The message with a sequence number.
abbrev pub message_at : List Message → ℤ → Option (ℕ × Message)
message_at messages id = elim (positive_int id) [
  | none ↦ none
  | some seq_num ↦ elim (get_elem? messages (seq_num - 1)) [
    | none ↦ none
    | some msg ↦ some (seq_num, msg)
  ]
]

-- `setFlags`, and the line about the message as it is now, unless the client wants none.
unfoldable pub store_message : Bool → List Bytes → (Message → Bytes) → Message → M Server Bytes
store_message is_silence flags line msg = value msg.id >>= λ id.
    repo (Flagging.set_flags id flags) >>= λ done. elim done [
      | none ↦ return []
      | some _ ↦
          if is_silence
          then return []
          else (repo (MessageDal.find_by_id id) >>= λ updated. elim updated [
            | none ↦ return []
            | some m ↦ return (line m)
          ])
    ]

unfoldable pub store_loop : Bool → List Bytes → List Message → List ℤ → Bytes → M Server Bytes
unfolding store_message
store_loop is_silence flags messages [] fetch_responses = return fetch_responses
store_loop is_silence flags messages (id ∷ seq_ids) fetch_responses =
    elim (message_at messages id) [
      | none ↦ store_loop is_silence flags messages seq_ids fetch_responses
      | some (seq_num, msg) ↦
          store_message is_silence flags (λ m. Response.fetch seq_num (format_flags_response m)) msg
          >>= λ line. store_loop is_silence flags messages seq_ids (fetch_responses ++ line)
    ]

abbrev pub max_int64 : ℤ
max_int64 = pos (int64_bound - 1)

-- `ParseSequenceSet` as the handlers call it.
abbrev pub sequence_set : Machine → Bytes → ℤ → M Server (List ℤ)
sequence_set machine set max_value = outcome (parse_sequence_set int64_bound machine set max_value)

abbrev pub store_body : Machine → ImapCommand → Bytes → Bytes → List Bytes → M Server Bytes
store_body machine cmd set item raw_flags = mailbox_id >>= λ folder.
    repo (find_by_folder folder) >>= λ all_messages.
    sequence_set machine set (pos (length all_messages)) >>= λ seq_ids.
    store_loop (contains (codes ".SILENT") item) (flags_to_send (first_byte item) raw_flags)
      all_messages seq_ids []
    >>= λ fetch_responses. return (fetch_responses ++ Response.ok cmd.tag (codes "Store completed"))

-- The test of the flags, before anything is read.
abbrev pub with_known_flags : ImapCommand → Bytes → (List Bytes → M Server Bytes) → M Server Bytes
with_known_flags cmd flags body =
    let raw_flags = split_args (trim_parentheses flags) in
    elim (unknown_flag raw_flags) [
      | some f ↦ return (Response.bad cmd.tag (codes "Unknown flag: " ++ f))
      | none ↦ body raw_flags
    ]

abbrev pub invalid_sequence : ImapCommand → M Server Bytes
invalid_sequence cmd = return (Response.bad cmd.tag (codes "Invalid message sequence"))

abbrev pub store_args : Machine → ImapCommand → List Bytes → M Server Bytes
store_args machine cmd (set ∷ item ∷ flags ∷ []) =
    catching (with_known_flags cmd flags (store_body machine cmd set item))
      (return (Response.bad cmd.tag (codes "Error processing STORE")))
store_args machine cmd _ = return (Response.bad cmd.tag (codes "Invalid arguments number"))

unfoldable pub handle_store : Machine → Handler
unfolding store_loop
handle_store machine cmd = when_selected cmd (store_args machine cmd cmd.args)

-- `findByUID`: the rows have natural numbers.
abbrev pub find_by_uid : ℕ → ℤ → Sql (Option Message)
find_by_uid folder (pos uid) = MessageDal.find_by_uid folder uid
find_by_uid folder (negsuc n) = select none (λ t. none)

-- The loop of UID STORE, from the index `i`. Its lines give `i + 1` as the sequence number.
unfoldable pub uid_store_loop : Bool → List Bytes → ℕ → List ℤ → Bytes → M Server Bytes
unfolding store_message
uid_store_loop is_silence flags i [] fetch_responses = return fetch_responses
uid_store_loop is_silence flags i (uid ∷ uids) fetch_responses = mailbox_id >>= λ folder.
    repo (find_by_uid folder uid) >>= λ found. elim found [
      | none ↦ uid_store_loop is_silence flags (suc i) uids fetch_responses
      | some msg ↦
          store_message is_silence flags
            (λ m. Response.fetch (i + 1) (
              codes "(UID "
              ++ (to_string m.uid ++ (codes " " ++ (format_flags_response m ++ codes ")")))))
            msg
          >>= λ line. uid_store_loop is_silence flags (suc i) uids (fetch_responses ++ line)
    ]

abbrev pub uid_store_body : Machine → ImapCommand → Bytes → Bytes → List Bytes → M Server Bytes
uid_store_body machine cmd set item raw_flags = sequence_set machine set max_int64 >>= λ uids.
    uid_store_loop (contains (codes ".SILENT") item) (flags_to_send (first_byte item) raw_flags) 0
      uids []
    >>= λ fetch_responses.
        return (fetch_responses ++ Response.ok cmd.tag (codes "Uid Store completed"))

abbrev pub uid_store_args : Machine → ImapCommand → List Bytes → M Server Bytes
uid_store_args machine cmd (set ∷ item ∷ flags ∷ []) =
    catching (with_known_flags cmd flags (uid_store_body machine cmd set item))
      (invalid_sequence cmd)
uid_store_args machine cmd _ = return (Response.bad cmd.tag (codes "Missing arguments"))

unfoldable pub handle_uid_store : Machine → Handler
unfolding uid_store_loop
handle_uid_store machine cmd = when_selected cmd (uid_store_args machine cmd cmd.args)
