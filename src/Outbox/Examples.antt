-- ===== src/Outbox/Examples.antt =====
-- A socket that takes two bytes at a time, up to six.
use weft_os.Base.{
  ◌≡◌, refl, true, ◌++◌, some, Text, codes, length, take, ltb, ok, if◌then◌else◌, arith,
}
use weft_os.Outbox.{wrote, would_block, Socket, Outbox, send}
use weft_os.Outbox.Sent.{Lawful, Conserved, send-Conserved}

abbrev socket : Socket Text
socket = record {
  write = λ s buf. if ltb (length s) 6 then (s ++ take 2 buf, wrote 2) else (s, would_block);
  shutdown = λ s. s;
}

abbrev box : Outbox Text
box = record { wire = codes "ab"; is_open = true; out_buf = codes "cd" }

after_send :
    send socket {E = Text} 9 box (ok (codes "efgh"))
    ≡ some (record { wire = codes "abcdef"; is_open = true; out_buf = codes "gh" })
unfolding send
after_send = refl

socket-Lawful : Lawful socket (λ s. s)
socket-Lawful = record {
  write-wrote = λ s buf n h. ground arith;
  write-would_block = λ s buf h. ground arith;
  write-interrupted = λ s buf h. ground arith;
  write-broken = λ s buf h. ground arith;
  shutdown-taken = λ s. refl;
}

send-Conserved_example :
    Conserved socket
      (λ s. s)
      socket-Lawful
      (codes "ab" ++ (codes "cd" ++ codes "efgh"))
      (record { wire = codes "abcdef"; is_open = true; out_buf = codes "gh" })
send-Conserved_example =
    send-Conserved socket (λ s. s) socket-Lawful 9 box
      (record { wire = codes "abcdef"; is_open = true; out_buf = codes "gh" }) (codes "efgh") refl
      after_send
