-- ===== src/Imap/SessionTests.antt =====
-- Sessions of the IMAP server over a database of one user.
use ua_5308_smtp.Prelude.{
  false, All, ◌++◌, ◌<◌, arith, true, ◌≡◌, ◌≢◌, refl, none, some, [], ◌∷◌, codes, equal,
}
use ua_5308_smtp.Database.Rows.{User, Folder}
use ua_5308_smtp.Database.Engine.{Db, select}
use ua_5308_smtp.Database.UserDal
use ua_5308_smtp.Database.Counters.{Counted}
use ua_5308_smtp.Database.Repository.Users
use ua_5308_smtp.Prelude.Int.{pos}
use ua_5308_smtp.Prelude.Search.{cut_at?}
use ua_5308_smtp.Effects.{returned, thrown, invalid_argument}
use ua_5308_smtp.Imap.Response
use ua_5308_smtp.Imap.Status.{split_args, trim_parentheses}
use ua_5308_smtp.Imap.Command.{ImapCommand}
use ua_5308_smtp.Imap.Command
use ua_5308_smtp.Imap.Session.{Server, new_dispatcher, handle_login}
use ua_5308_smtp.Imap.Session
use ua_5308_smtp.Imap.Mailboxes.{split, slash}
use ua_5308_smtp.Imap.Guards.{has_mailbox}
use ua_5308_smtp.Imap.Serving.{start, command, runs-Sound}
use ua_5308_smtp.Imap.Items.{Outside}
use ua_5308_smtp.Imap.Dispatch.{handle_parsed}
use ua_5308_smtp.Imap.Sequence.{Machine, int64_bound, parse_sequence_set}
use ua_5308_smtp.Imap.Store.{handle_uid_store, unknown_flag}
use ua_5308_smtp.Imap.UidSets.{handle_uid_store-star}
use ua_5308_smtp.Imap.Dates.{Date, parse_date, eml_rest, date_to_eml_date}
use ua_5308_smtp.Imap.Weekdays.{weekday_text, weekday_after, date_to_eml_date-weekday}
use ua_5308_smtp.Imap.Unauthenticated.{after_commands, after_commands-unchanged}
use ua_5308_smtp.Imap.Bodies.{extract_part_by_section}
use ua_5308_smtp.Imap.Sections.{IsFree, line_end, write_body, extract_part_by_section-nth}
use ua_5308_smtp.Imap.Access.{IsLogin, handle_login-Verified}

split_parts : split slash (codes "a/b/") ≡ codes "a" ∷ codes "b" ∷ []
unfolding split
split_parts = refl

abbrev ann : User
ann = record {
  id = some 1;
  username = codes "ann";
  password_hash = codes "pw";
  first_name = none;
  last_name = none;
  birthdate = none;
  avatar_b64 = none;
}

abbrev inbox : Folder
inbox = record {
  id = some 1;
  user_id = 1;
  parent_id = none;
  name = codes "INBOX";
  next_uid = 1;
  is_subscribed = true;
}

abbrev db : Db
db = record {
  live = record {
    users = ann ∷ [];
    folders = inbox ∷ [];
    messages = [];
    recipients = [];
    last_user = 1;
    last_folder = 1;
    last_message = 0;
    last_recipient = 0;
  };
  saved = none;
  faults = [];
  last_error = [];
  errmsg = [];
}

abbrev server : Server
server = record { dispatcher = new_dispatcher; db = db }

abbrev login_ann : ImapCommand
login_ann = record { tag = codes "a"; type = Command.login; args = codes "ann" ∷ codes "pw" ∷ [] }

abbrev select_inbox : ImapCommand
select_inbox = record { tag = codes "b"; type = Command.select; args = codes "INBOX" ∷ [] }

abbrev small_machine : Machine
small_machine = record { room = 100; past_max = pos 0 }

abbrev outside : Outside
outside = record {
  read = λ path. none;
  generated = ([], []);
  machine = small_machine;
  beyond = [];
  undefined_day = [];
}

-- A hash is the password itself.
abbrev after : Server
after =
    (handle_parsed equal outside false select_inbox
      (handle_parsed equal outside false login_ann server).1).1

db_Counted : Counted db.live
unfolding Counted
db_Counted = tt

runs-Sound_example :
    ((after.db.saved ≡ none) × Counted after.db.live) × (has_mailbox after.dispatcher ≡ true)
runs-Sound_example =
    runs-Sound db after
      (command equal outside false select_inbox (command equal outside false login_ann start)) refl
      db_Counted

logged_in : (handle_login equal login_ann server).1.dispatcher.state ≢ Session.non_authenticated
unfolding handle_login Users.authorize Users.find_by_username UserDal.find_by_username select
logged_in = cc

handle_login-Verified_example : IsLogin equal login_ann.args db.live
handle_login-Verified_example = handle_login-Verified equal login_ann server refl refl logged_in

sequence_test :
    parse_sequence_set int64_bound small_machine (codes "3,2:4,*:5,2") (pos 6)
    ≡ returned (pos 2 ∷ pos 3 ∷ pos 4 ∷ pos 5 ∷ pos 6 ∷ [])
unfolding parse_sequence_set int64_bound cut_at?
sequence_test = refl

sequence_fault_test :
    parse_sequence_set int64_bound small_machine (codes "1,x") (pos 6)
    ≡ thrown (invalid_argument (codes "stoll"))
unfolding parse_sequence_set int64_bound cut_at?
sequence_fault_test = refl

abbrev uid_store_all : ImapCommand
uid_store_all = record {
  tag = codes "d";
  type = Command.uid_store;
  args = codes "1:*" ∷ codes "+FLAGS" ∷ codes "(\\Seen)" ∷ [];
}

abbrev opened : Server
opened = record server { dispatcher = record new_dispatcher { state = Session.selected } }

one_below : ◌<◌ 101 int64_bound
unfolding int64_bound
one_below = omega arith

seen_known : unknown_flag (split_args (trim_parentheses (codes "(\\Seen)"))) ≡ none
unfolding split_args trim_parentheses
seen_known = refl

handle_uid_store-star_example :
    handle_uid_store small_machine uid_store_all opened
    ≡ (returned (Response.bad (codes "d") (codes "Invalid message sequence")), opened)
handle_uid_store-star_example =
    handle_uid_store-star small_machine uid_store_all opened b'1' [] (codes "+FLAGS")
      (codes "(\\Seen)") refl (refl, tt) one_below seen_known refl

abbrev march_day : Date
march_day = record { year = 1900; month = 3; day = 1; hour = 9; minute = 5; second = 0 }

march_day_parsed :
    parse_date (codes "DateToEmlDate") (codes "1900-03-01 09:05:00") ≡ returned march_day
unfolding parse_date
march_day_parsed = refl

-- The 59th day behind the 1st of January 1900, which had no 29th of February, was a Thursday.
date_to_eml_date-weekday_example :
    date_to_eml_date [] (codes "1900-03-01 09:05:00")
    ≡ returned (weekday_text (weekday_after 59) ++ eml_rest march_day)
date_to_eml_date-weekday_example =
    date_to_eml_date-weekday [] (codes "1900-03-01 09:05:00") march_day 59 march_day_parsed refl
      refl refl (omega arith)

after_commands-unchanged_example :
    after_commands equal outside ((false, select_inbox) ∷ (true, uid_store_all) ∷ []) server
    ≡ server
after_commands-unchanged_example =
    after_commands-unchanged equal outside ((false, select_inbox) ∷ (true, uid_store_all) ∷ [])
      server refl (refl, (refl, tt))

preamble-IsFree : IsFree (codes "--b") (codes "x\n")
unfolding cut_at?
preamble-IsFree = refl

parts-IsFree : All (λ q. IsFree (codes "--b") (q ++ line_end)) (codes "-one" ∷ codes "--two" ∷ [])
unfolding cut_at?
parts-IsFree = (refl, (refl, tt))

extract_part_by_section-nth_example :
    extract_part_by_section
      (write_body (codes "--b") (codes "x\n") (codes "-one" ∷ codes "--two" ∷ []) [])
      (codes "b")
      (pos 2)
    ≡ codes "--two"
extract_part_by_section-nth_example =
    extract_part_by_section-nth (codes "b") (codes "x\n") (codes "-one" ∷ codes "--two" ∷ []) [] 1
      (codes "--two") preamble-IsFree parts-IsFree refl
