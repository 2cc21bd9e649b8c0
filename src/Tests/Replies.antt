-- ===== src/Tests/Replies.antt =====
-- The replies to a client from an empty send buffer.
use uhp_sql.Common.{refl, codes, ◌≢◌, [], ◌∷◌, arith, Bytes, replicate}
use uhp_sql.Packet.Err
use uhp_sql.Packet.Greeting
use uhp_sql.Reply.{send_error_message, on_connect}
use uhp_sql.Reply.Frame as Frame
use uhp_sql.Tests.Servers.{idle, idle-IsValid}

abbrev long_message : Bytes
long_message = replicate 300 b'x'

send_error_message-long_example :
    Frame.Sends idle
      (Frame.misframed (Err.pack 50 [] long_message) 1)
      (send_error_message idle 1 50 [] long_message)
    × (Frame.misframed (Err.pack 50 [] long_message) 1
        ≢ Frame.frame (Err.pack 50 [] long_message) 1)
send_error_message-long_example =
    Frame.send_error_message-long idle 1 50 [] long_message idle-IsValid (omega arith) (omega arith)
      (omega arith)

abbrev random1 : Bytes
random1 = 1 ∷ 2 ∷ 3 ∷ 4 ∷ 5 ∷ 6 ∷ 7 ∷ 8 ∷ []

abbrev random2 : Bytes
random2 = 21 ∷ 22 ∷ 23 ∷ 24 ∷ 25 ∷ 26 ∷ 27 ∷ 28 ∷ 29 ∷ 30 ∷ 31 ∷ 255 ∷ []

on_connect-Sends_example :
    Frame.Sends idle
      (Frame.frame (Greeting.pack (Greeting.new 1 (codes "UHP-SQL-v0.1") random1 random2)) 0)
      (on_connect idle random1 random2)
on_connect-Sends_example =
    Frame.on_connect-Sends idle random1 random2 idle-IsValid refl refl (omega arith)
