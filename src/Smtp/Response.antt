-- ===== src/Smtp/Response.antt =====
-- proto/SmtpResponse.hpp: the replies, byte for byte.
use ua_5308_smtp.Prelude.{Bool, ◌++◌, [], Bytes, codes, if◌then◌else◌}

abbrev reply : Bytes → Bytes
reply text = text ++ codes "\r\n"

unfoldable pub service_ready : Bytes → Bytes
service_ready domain = codes "220 " ++ (domain ++ reply (codes " Service ready"))

unfoldable pub ok_reply : Bytes
ok_reply = reply (codes "250 OK")

unfoldable pub hello : Bytes → Bytes
hello domain = codes "250 " ++ (domain ++ reply (codes " greets you"))

unfoldable pub ehlo_reply : Bytes → Bool → Bytes
ehlo_reply domain tls_active =
    codes "250-"
    ++ (reply domain
        ++ ((if tls_active then [] else reply (codes "250-STARTTLS"))
            ++ reply (codes "250 AUTH LOGIN PLAIN")))

unfoldable pub start_mail_input : Bytes
start_mail_input = reply (codes "354 End data with <CR><LF>.<CR><LF>")

unfoldable pub message_storage_failed : Bytes
message_storage_failed = reply (codes "452 Message storage failed")

unfoldable pub bad_sequence : Bytes
bad_sequence = reply (codes "503 Bad sequence of commands")

unfoldable pub message_too_large : Bytes
message_too_large = reply (codes "552 Message size exceeds fixed maximum")

unfoldable pub syntax_error : Bytes
syntax_error = reply (codes "500 Syntax error")

unfoldable pub not_implemented : Bytes
not_implemented = reply (codes "502 Command not implemented")

unfoldable pub closing : Bytes
closing = reply (codes "221 Bye")

unfoldable pub start_tls : Bytes
start_tls = reply (codes "220 Ready to start TLS")

unfoldable pub auth_challenge : Bytes → Bytes
auth_challenge b64 = codes "334 " ++ reply b64

unfoldable pub auth_succeeded : Bytes
auth_succeeded = reply (codes "235 Authentication successful")

unfoldable pub auth_failed : Bytes
auth_failed = reply (codes "535 Authentication credentials invalid")

unfoldable pub auth_required : Bytes
auth_required = reply (codes "530 Authentication required")

unfoldable pub encryption_required : Bytes
encryption_required = reply (codes "538 Encryption required for requested auth mechanism")

unfoldable pub unrecognized_auth_mech : Bytes
unrecognized_auth_mech = reply (codes "504 Unrecognized authentication mechanism")
