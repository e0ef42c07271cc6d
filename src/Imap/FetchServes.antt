-- ===== src/Imap/FetchServes.antt =====
-- imap-server/src/ImapCommandDispatcher.cpp: FETCH and UID FETCH as `Serves` has them.
use ua_5308_smtp.Prelude.{
  ℕ, Option, none, some, List, [], ◌∷◌, ◌++◌, ◌||◌, Bytes, codes, equal, is_empty, starts_with,
  drop, length, Option-cases, inl, inr,
}
use ua_5308_smtp.Prelude.Int.{ℤ, pos}
use ua_5308_smtp.Prelude.Search.{cut_at?}
use ua_5308_smtp.Effects.{
  M, value, outcome, Exception, invalid_argument, runtime_error, base64, bad_optional_access,
  out_of_range, bad_alloc,
}
use ua_5308_smtp.Database.Rows.{Message}
use ua_5308_smtp.Database.Keeping.{Keeps, tries-Keeps, return-Keeps}
use ua_5308_smtp.Database.Operations.{messages_by_folder-Keeps}
use ua_5308_smtp.Database.UserDal
use ua_5308_smtp.Database.RecipientDal
use ua_5308_smtp.Database.Repository.Users
use ua_5308_smtp.Mime.Email.{Email}
use ua_5308_smtp.Imap.Command.{ImapCommand}
use ua_5308_smtp.Imap.Session.{Server, repo, mailbox_id, find_by_folder}
use ua_5308_smtp.Imap.Dates.{date_to_eml_date, date_to_imap_internal}
use ua_5308_smtp.Imap.Envelope.{build_envelope, envelope_date}
use ua_5308_smtp.Imap.Items.{
  Outside, header_item, header_fields_item, section_item, body_item, fetch_item, fetch_items,
  get_parsed_email, get_body_content, flags_item, internal_date_item, size_item, envelope_item,
  whole_item, structure_item, uid_item, invalid_attribute, is_header_fields_item, is_whole,
}
use ua_5308_smtp.Imap.Store.{sequence_set, find_by_uid}
use ua_5308_smtp.Imap.StoreServes.{find_by_uid-Keeps}
use ua_5308_smtp.Imap.Fetch.{
  fetch_message, fetch_loop, fetch_failed, fetch_args, fetch_body, handle_fetch, uid_fetch_loop,
  uid_fetch_body, handle_uid_fetch, requested_items, third_argument,
}
use ua_5308_smtp.Imap.Guards.{
  Serves, return-Serves, value-Serves, repo-Serves, bind-Serves, if-Serves, when_selected-Serves,
  mailbox_id-Serves, outcome-Serves, throw-Serves, catching_by-Serves,
}

recipients-Keeps : (id : ℕ) → Keeps (RecipientDal.find_by_message id)
unfolding RecipientDal.find_by_message
recipients-Keeps id = record { keeps = λ db k. k }

user-Keeps : (id : ℕ) → Keeps (Users.find_by_id id)
unfolding Users.find_by_id UserDal.find_by_id
user-Keeps id =
    tries-Keeps (UserDal.find_by_id id) _ (record { keeps = λ db k. k })
      (λ a. return-Keeps (some a))

envelope_date-Serves :
    (undefined : Bytes) (msg : Message) (email : Option Email)
    → Serves (envelope_date undefined msg email)
envelope_date-Serves undefined msg none =
    outcome-Serves (date_to_eml_date undefined msg.internal_date)
envelope_date-Serves undefined msg (some email) = return-Serves email.date

build_envelope-Serves :
    (undefined : Bytes) (msg : Message) (email : Option Email)
    → Serves (build_envelope undefined msg email)
unfolding build_envelope
build_envelope-Serves undefined msg email =
    bind-Serves (value msg.id) _ (value-Serves msg.id) (λ id.
      bind-Serves (repo (RecipientDal.find_by_message id)) _ (repo-Serves _ (recipients-Keeps id))
        (λ all.
          bind-Serves (envelope_date undefined msg email) _
            (envelope_date-Serves undefined msg email) (λ date. return-Serves _)))

header_item-Serves : (msg : Message) (email : Option Email) → Serves (header_item msg email)
unfolding header_item
header_item-Serves msg (some email) = return-Serves _
header_item-Serves msg none =
    bind-Serves (repo (Users.find_by_id msg.user_id)) _ (repo-Serves _ (user-Keeps msg.user_id))
      (λ sender. bind-Serves (value msg.id) _ (value-Serves msg.id) (λ id.
        bind-Serves (repo (RecipientDal.find_by_message id)) _ (repo-Serves _ (recipients-Keeps id))
          (λ all. return-Serves _)))

section_item-Serves :
    (raw_mime item prefix behind : Bytes) → Serves (section_item raw_mime item prefix behind)
unfolding section_item
section_item-Serves raw_mime item prefix behind = elim (Option-cases (cut_at? (codes "]") behind)) [
  | inl e ↦
      rw (e, section_item)
        (throw-Serves (invalid_argument (codes "Invalid BODY section: " ++ item)))
  | inr (cut, e) ↦
      rw (e, section_item)
        (bind-Serves (outcome _) _ (outcome-Serves _) (λ content. return-Serves _))
]

header_fields_item-Serves :
    (raw_mime item argument : Bytes) → Serves (header_fields_item raw_mime item argument)
unfolding header_fields_item
header_fields_item-Serves raw_mime item argument =
    if-Serves (is_empty raw_mime) _ _ (throw-Serves _) (return-Serves _)

body_item-Serves :
    (o : Outside) (msg : Message) (argument item : Bytes) → Serves (body_item o msg argument item)
unfolding body_item
body_item-Serves o msg argument item =
    let text = get_body_content o msg in
    if-Serves (is_header_fields_item item) _ _ (header_fields_item-Serves text item argument) (
      if-Serves (starts_with item (codes "BODY.PEEK[")) _ _
        (section_item-Serves text item (codes "BODY.PEEK[") (drop 10 item))
        (if-Serves (starts_with item (codes "BODY[")) _ _
          (section_item-Serves text item (codes "BODY[") (drop 5 item))
          (if-Serves (equal item (codes "UID")) _ _ (return-Serves (uid_item msg))
            (throw-Serves (invalid_attribute item)))))

internal_date_item-Serves : (msg : Message) → Serves (internal_date_item msg)
internal_date_item-Serves msg =
    bind-Serves (outcome (date_to_imap_internal msg.internal_date)) _ (outcome-Serves _)
      (λ date. return-Serves _)

envelope_item-Serves : (o : Outside) (msg : Message) → Serves (envelope_item o msg)
envelope_item-Serves o msg =
    bind-Serves (build_envelope o.undefined_day msg (get_parsed_email o msg)) _
      (build_envelope-Serves o.undefined_day msg (get_parsed_email o msg))
      (λ envelope. return-Serves _)

fetch_item-Serves :
    (o : Outside) (msg : Message) (argument item : Bytes) → Serves (fetch_item o msg argument item)
unfolding fetch_item
fetch_item-Serves o msg argument item =
    if-Serves (equal item (codes "FLAGS")) _ _ (return-Serves (flags_item msg)) (
      if-Serves (equal item (codes "INTERNALDATE")) _ _ (internal_date_item-Serves msg) (
        if-Serves (equal item (codes "RFC822.SIZE")) _ _ (return-Serves (size_item msg)) (
          if-Serves (equal item (codes "ENVELOPE")) _ _ (envelope_item-Serves o msg) (
            if-Serves (is_whole item) _ _ (return-Serves (whole_item o msg item)) (
              if-Serves (equal item (codes "RFC822.HEADER")) _ _
                (header_item-Serves msg (get_parsed_email o msg))
                (if-Serves (equal item (codes "BODYSTRUCTURE") || equal item (codes "BODY")) _ _
                  (return-Serves (structure_item o msg item))
                  (body_item-Serves o msg argument item)))))))

fetch_items-Serves :
    (o : Outside) (msg : Message) (argument : Bytes) (items : List Bytes) (fetch_response : Bytes)
    → Serves (fetch_items o msg argument items fetch_response)
unfolding fetch_items
fetch_items-Serves o msg argument [] fetch_response = return-Serves _
fetch_items-Serves o msg argument (item ∷ items) fetch_response =
    bind-Serves (fetch_item o msg argument item) _ (fetch_item-Serves o msg argument item)
      (λ text. fetch_items-Serves o msg argument items (fetch_response ++ text))

fetch_message-Serves :
    (o : Outside) (argument : Bytes) (items : List Bytes) (prefix : Bytes) (seq_num : ℕ)
    (msg : Message)
    → Serves (fetch_message o argument items prefix seq_num msg)
unfolding fetch_message
fetch_message-Serves o argument items prefix seq_num msg =
    bind-Serves (fetch_items o msg argument items prefix) _
      (fetch_items-Serves o msg argument items prefix) (λ text. return-Serves _)

fetch_loop-Serves :
    (o : Outside) (argument : Bytes) (items : List Bytes) (ids : List ℤ) (messages : List Message)
    (response : Bytes)
    → Serves (fetch_loop o argument items ids messages response)
unfolding fetch_loop
fetch_loop-Serves o argument items [] messages response = return-Serves _
fetch_loop-Serves o argument items (id ∷ ids) [] response = return-Serves _
fetch_loop-Serves o argument items (id ∷ ids) (msg ∷ messages) response =
    bind-Serves (fetch_message o argument items (codes "(") _ msg) _
      (fetch_message-Serves o argument items (codes "(") _ msg)
      (λ text. fetch_loop-Serves o argument items ids messages (response ++ text))

uid_fetch_loop-Serves :
    (o : Outside) (argument : Bytes) (items : List Bytes) (messages : List Message) (uids : List ℤ)
    (response : Bytes)
    → Serves (uid_fetch_loop o argument items messages uids response)
unfolding uid_fetch_loop
uid_fetch_loop-Serves o argument items messages [] response = return-Serves _
uid_fetch_loop-Serves o argument items messages (uid ∷ uids) response =
    bind-Serves mailbox_id _ mailbox_id-Serves (λ folder.
      bind-Serves (repo (find_by_uid folder uid)) _ (repo-Serves _ (find_by_uid-Keeps folder uid))
        (elim [
          | none ↦ uid_fetch_loop-Serves o argument items messages uids response
          | some msg ↦
              bind-Serves (fetch_message o argument items _ _ msg) _
                (fetch_message-Serves o argument items _ _ msg)
                (λ text. uid_fetch_loop-Serves o argument items messages uids (response ++ text))
        ]))

fetch_failed-Serves : (cmd : ImapCommand) (e : Exception) → Serves (fetch_failed cmd e)
fetch_failed-Serves cmd (invalid_argument text) = return-Serves _
fetch_failed-Serves cmd (runtime_error text) = return-Serves _
fetch_failed-Serves cmd (base64 e) = return-Serves _
fetch_failed-Serves cmd bad_optional_access = return-Serves _
fetch_failed-Serves cmd out_of_range = return-Serves _
fetch_failed-Serves cmd bad_alloc = return-Serves _

fetch_args-Serves :
    (o : Outside) (body : Bytes → Bytes → Bytes → M Server Bytes) (cmd : ImapCommand)
    → ((set items argument : Bytes) → Serves (body set items argument))
    → (args : List Bytes) → Serves (fetch_args o body cmd args)
fetch_args-Serves o body cmd h [] = return-Serves _
fetch_args-Serves o body cmd h (a ∷ []) = return-Serves _
fetch_args-Serves o body cmd h (set ∷ items ∷ rest) =
    catching_by-Serves (body set items (third_argument o rest)) (fetch_failed cmd)
      (h set items (third_argument o rest)) (fetch_failed-Serves cmd)

pub handle_fetch-Serves : (o : Outside) (cmd : ImapCommand) → Serves (handle_fetch o cmd)
unfolding handle_fetch
handle_fetch-Serves o cmd =
    when_selected-Serves cmd _ (fetch_args-Serves o (fetch_body o cmd) cmd fetched cmd.args)
  where
    fetched : (set items argument : Bytes) → Serves (fetch_body o cmd set items argument)
    fetched set items argument = bind-Serves mailbox_id _ mailbox_id-Serves (λ folder.
        bind-Serves (repo (find_by_folder folder)) _
          (repo-Serves _ (messages_by_folder-Keeps folder 50 0))
          (λ messages.
            bind-Serves (sequence_set o.machine set (pos (length messages))) _ (outcome-Serves _)
              (λ ids.
                bind-Serves (fetch_loop o argument (requested_items items) ids _ []) _
                  (fetch_loop-Serves o argument (requested_items items) ids _ [])
                  (λ response. return-Serves _))))

pub handle_uid_fetch-Serves : (o : Outside) (cmd : ImapCommand) → Serves (handle_uid_fetch o cmd)
unfolding handle_uid_fetch
handle_uid_fetch-Serves o cmd =
    when_selected-Serves cmd _ (fetch_args-Serves o (uid_fetch_body o cmd) cmd fetched cmd.args)
  where
    fetched : (set items argument : Bytes) → Serves (uid_fetch_body o cmd set items argument)
    fetched set items argument =
        bind-Serves (sequence_set o.machine set _) _ (outcome-Serves _) (λ uids.
          bind-Serves mailbox_id _ mailbox_id-Serves (λ folder.
            bind-Serves (repo (find_by_folder folder)) _
              (repo-Serves _ (messages_by_folder-Keeps folder 50 0))
              (λ messages.
                bind-Serves (uid_fetch_loop o argument (requested_items items) messages uids []) _
                  (uid_fetch_loop-Serves o argument (requested_items items) messages uids [])
                  (λ response. return-Serves _))))
